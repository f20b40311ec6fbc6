-- ===== src/Registers/Debug.antt =====
-- Constants of .deprecated/inc/stm32_register.h: the debug units of the core, and the cache of the M7.
use libstlink.Prelude.{ℕ, ◌+◌, ◌*◌, ◌^◌}

abbrev pub cpuid : ℕ
cpuid = 0xe000ed00

abbrev pub fp_ctrl : ℕ
fp_ctrl = 0xe0002000

abbrev pub fp_comp : ℕ → ℕ
fp_comp n = 0xe0002008 + n * 4

abbrev pub fp_lar : ℕ
fp_lar = 0xe0000fb0

abbrev pub fp_lar_key : ℕ
fp_lar_key = 0xc5acce55

abbrev pub demcr : ℕ
demcr = 0xe000edfc

abbrev pub demcr_trcena : ℕ
demcr_trcena = 2 ^ 24

abbrev pub dwt_comp : ℕ → ℕ
dwt_comp n = 0xe0001020 + n * 16

abbrev pub dwt_mask : ℕ → ℕ
dwt_mask n = 0xe0001024 + n * 16

abbrev pub dwt_fun : ℕ → ℕ
dwt_fun n = 0xe0001028 + n * 16

abbrev pub ctr : ℕ
ctr = 0xe000ed7c

abbrev pub clidr : ℕ
clidr = 0xe000ed78

abbrev pub ccr : ℕ
ccr = 0xe000ed14

abbrev pub ccr_dc : ℕ
ccr_dc = 2 ^ 16

abbrev pub ccr_ic : ℕ
ccr_ic = 2 ^ 17

abbrev pub csselr : ℕ
csselr = 0xe000ed84

abbrev pub dccsw : ℕ
dccsw = 0xe000ef6c

abbrev pub iciallu : ℕ
iciallu = 0xe000ef50

abbrev pub ccsidr : ℕ
ccsidr = 0xe000ed80

abbrev pub cfsr : ℕ
cfsr = 0xe000ed28

abbrev pub hfsr : ℕ
hfsr = 0xe000ed2c

abbrev pub dfsr : ℕ
dfsr = 0xe000ed30

abbrev pub dfsr_vcatch : ℕ
dfsr_vcatch = 2 ^ 3

abbrev pub dfsr_clear : ℕ
dfsr_clear = 0x1f

abbrev pub dhcsr : ℕ
dhcsr = 0xe000edf0

abbrev pub dhcsr_dbgkey : ℕ
dhcsr_dbgkey = 0xa05f * 2 ^ 16

abbrev pub dhcsr_c_debugen : ℕ
dhcsr_c_debugen = 2 ^ 0

abbrev pub dhcsr_c_halt : ℕ
dhcsr_c_halt = 2 ^ 1

abbrev pub dhcsr_c_maskints : ℕ
dhcsr_c_maskints = 2 ^ 3

abbrev pub dhcsr_s_reset_st : ℕ
dhcsr_s_reset_st = 2 ^ 25

abbrev pub demcr_vc_harderr : ℕ
demcr_vc_harderr = 2 ^ 10

abbrev pub demcr_vc_buserr : ℕ
demcr_vc_buserr = 2 ^ 8

abbrev pub demcr_vc_corereset : ℕ
demcr_vc_corereset = 2 ^ 0

abbrev pub aircr : ℕ
aircr = 0xe000ed0c

abbrev pub aircr_vectkey : ℕ
aircr_vectkey = 0x05fa0000

abbrev pub aircr_sysresetreq : ℕ
aircr_sysresetreq = 0x4

abbrev pub cpuid_partno_cm0 : ℕ
cpuid_partno_cm0 = 0xc20

abbrev pub cpuid_partno_cm0p : ℕ
cpuid_partno_cm0p = 0xc60

abbrev pub cpuid_partno_cm4 : ℕ
cpuid_partno_cm4 = 0xc24

abbrev pub cpuid_partno_cm7 : ℕ
cpuid_partno_cm7 = 0xc27

abbrev pub cpuid_partno_cm33 : ℕ
cpuid_partno_cm33 = 0xd21

abbrev pub cpuid_impl_arm : ℕ
cpuid_impl_arm = 0x41
