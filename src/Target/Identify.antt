-- ===== src/Target/Identify.antt =====
-- common_legacy.c: the identification of the core and of the chip.
use libstlink.Prelude.{
  ℕ, Bool, not, ◌&&◌, ◌||◌, ℤ, success, failure, is_nonzero, bit_and, ◌==◌, if◌then◌else◌,
}
use libstlink.Word.{shr32}
use libstlink.Registers.Chip
use libstlink.Registers.Debug
use libstlink.Registers.Wb0
use libstlink.Stlink.{M, pure, get, ◌>>=◌}
use libstlink.Stlink.ReadWrite.{stlink_read_debug32}

-- cortex_m3_cpuid_t
pub record CortexM3Cpuid : Type 0 where
  pub implementer_id : ℕ
  pub variant : ℕ
  pub part : ℕ
  pub revision : ℕ

unfoldable pub cpuid_fields : ℕ → CortexM3Cpuid
cpuid_fields raw = record {
  implementer_id = bit_and (shr32 raw 24) 0x7f;
  variant = bit_and (shr32 raw 20) 0xf;
  part = bit_and (shr32 raw 4) 0xfff;
  revision = bit_and raw 0xf;
}

abbrev no_cpuid : CortexM3Cpuid
no_cpuid = record { implementer_id = 0; variant = 0; part = 0; revision = 0 }

unfoldable pub stlink_cpu_id : M (ℤ × CortexM3Cpuid)
unfolding stlink_read_debug32 cpuid_fields
stlink_cpu_id = do
  (ret, raw) ← stlink_read_debug32 Debug.cpuid
  pure (if is_nonzero ret then (failure, no_cpuid) else (success, cpuid_fields raw))

unfoldable pub stlink_ap_has_cpu : M Bool
unfolding stlink_cpu_id
stlink_ap_has_cpu = do
  (ret, cpu_id) ← stlink_cpu_id
  pure (not (is_nonzero ret) && cpu_id.implementer_id == Debug.cpuid_impl_arm)

-- Some devices with a Cortex-M0 have no DBG_IDCODE: the part number of the JTAG id takes its place.
read_m0 : M (ℤ × ℕ)
unfolding stlink_read_debug32
read_m0 = do
  (ret, chip_id) ← stlink_read_debug32 0x40015800
  if chip_id == 0
      then (do
        (ret', jtag_id) ← stlink_read_debug32 Wb0.jtag_id
        pure (ret', shr32 jtag_id Wb0.jtag_part_nr))
      else pure (ret, chip_id)

-- The H5 has its DBGMCU_IDCODE at another address than the L5.
read_m33 : M (ℤ × ℕ)
unfolding stlink_read_debug32
read_m33 = do
  (ret, chip_id) ← stlink_read_debug32 0xe0044000
  if not (is_nonzero ret) && chip_id == 0
      then stlink_read_debug32 0x44024000
      else pure (ret, chip_id)

-- The register that has the id of the chip, by the core.
unfoldable pub read_idcode : ℕ → ℕ → M (ℤ × ℕ)
unfolding stlink_read_debug32 read_m0 read_m33
read_idcode core_id part =
    if (core_id == Chip.core_m7f_m33_swd || core_id == Chip.core_m7f_m33_jtag)
      && part == Debug.cpuid_partno_cm7
    then stlink_read_debug32 0x5c001000
    else if part == Debug.cpuid_partno_cm0 || part == Debug.cpuid_partno_cm0p
    then read_m0
    else if part == Debug.cpuid_partno_cm33
    then read_m33
    else stlink_read_debug32 0xe0042000

-- The id is 12 bits; the F4 of revision A reports the one of the F2.
unfoldable pub chip_of : ℕ → ℕ → ℕ
chip_of part idcode =
    let chip_id = bit_and idcode 0xfff in
    if chip_id == 0x411 && part == Debug.cpuid_partno_cm4 then 0x413 else chip_id

unfoldable pub chip_result : ℕ → ℤ → ℕ → ℤ × ℕ
unfolding chip_of
chip_result part ret idcode =
    if is_nonzero ret
    then (ret, 0)
    else if idcode == 0
    then (failure, 0)
    else (success, chip_of part idcode)

-- The result, and *chip_id as it is after the call: it is not written where no core answers.
unfoldable pub stlink_chip_id : ℕ → M (ℤ × ℕ)
unfolding stlink_cpu_id read_idcode chip_result
stlink_chip_id chip_id = do
  (ret, cpu_id) ← stlink_cpu_id
  if is_nonzero ret || not (cpu_id.implementer_id == Debug.cpuid_impl_arm)
      then pure (failure, chip_id)
      else (do
        sl ← get
        (ret', idcode) ← read_idcode sl.core_id cpu_id.part
        pure (chip_result cpu_id.part ret' idcode))
