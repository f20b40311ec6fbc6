-- ===== src/Tests/Device.antt =====
-- A device with an open and shut lock, and the code that works on it.
use libstlink.Prelude.{
  ℕ, ◌^◌, ◌≡◌, inl, refl, some, [], ◌∷◌, pos, success, bit_and, ◌==◌, if◌then◌else◌,
}
use libstlink.Word.{is_set}
use libstlink.Registers.Chip
use libstlink.Registers.F4
use libstlink.Registers.Fpec
use libstlink.Registers.Memory
use libstlink.Stlink.{f2_f4, target_unknown, target_halted, StlinkReg, Stlink, Backend, History}
use libstlink.Flash.Unlock.{at, Keys, lock_bit, flash_keys, unlock_flash_if}
use libstlink.Flash.Unlock.Opens.{controller, unlock_flash_if_opens}
use libstlink.Flash.LockState.{
  LockState, shut, half, opened, dead, Controller, lock_state, is_locked, Obeys,
}

abbrev pub f4_keys : Keys
f4_keys = record { key_reg = F4.keyr; key2_reg = 0; flash_key1 = Fpec.key1; flash_key2 = Fpec.key2 }

abbrev pub f4_lock : Controller
f4_lock = controller F4.cr F4.cr_lock f4_keys

abbrev cr_of : LockState → ℕ
cr_of s = if is_locked s then 2 ^ F4.cr_lock else 0

abbrev pub no_regs : StlinkReg
no_regs = record {
  r = [];
  s = [];
  xpsr = 0;
  main_sp = 0;
  process_sp = 0;
  rw1 = 0;
  rw2 = 0;
  control = 0;
  faultmask = 0;
  basepri = 0;
  primask = 0;
  fpscr = 0;
}

-- The control register shows the lock; every other register is 0, and so is the memory.
abbrev pub device : Backend
device = record {
  read_debug32 = λ h addr. (pos 0, if addr == F4.cr then cr_of (lock_state f4_lock h) else 0);
  write_debug32 = λ h addr val. pos 0;
  read_mem32 = λ h addr len. (pos 0, 0 ∷ 0 ∷ 0 ∷ 0 ∷ []);
  write_mem32 = λ h addr len bytes. pos 0;
  write_mem8 = λ h addr len bytes. pos 0;
  read_reg = λ h idx regp. (pos 0, regp);
  write_reg = λ h reg idx. pos 0;
  read_unsupported_reg = λ h idx regp. (pos 0, regp);
  write_unsupported_reg = λ h val idx regp. (pos 0, regp);
  read_all_regs = λ h regp. (pos 0, regp);
  read_all_unsupported_regs = λ h regp. (pos 0, regp);
  run = λ h type. pos 0;
  status = λ h. (pos 0, target_halted);
  core_id = λ h. (pos 0, 0x2ba01477);
  force_debug = λ h. pos 0;
  target_voltage = some (λ h. pos 3300);
  reset = λ h. pos 0;
  jtag_reset = λ h value. pos 0;
  current_mode = λ h. pos 2;
  exit_debug_mode = λ h. pos 0;
  polls_in_500ms = λ h. 50;
}

abbrev pub board : Stlink
board = record {
  backend = device;
  history = [];
  q_buf = [];
  opt = pos 0;
  core_id = 0;
  chip_id = Chip.f4;
  core_stat = target_unknown;
  stlink_v = 2;
  flash_type = f2_f4;
  flash_base = Memory.flash_base;
  flash_size = 0x100000;
  flash_pgsz = 0x4000;
  sram_base = 0x20000000;
  sram_size = 0x20000;
  option_base = F4.optcr;
  option_size = 4;
  chip_flags = 0;
  otp_base = 0x1fff7800;
  otp_size = 0x210;
  uninit_reg = no_regs;
}

cr_of-is_set : (s : LockState) → is_set (bit_and (cr_of s) (2 ^ F4.cr_lock)) ≡ is_locked s
cr_of-is_set shut = refl
cr_of-is_set half = refl
cr_of-is_set opened = refl
cr_of-is_set dead = refl

device-Obeys : Obeys f4_lock device
device-Obeys h = cr_of-is_set (lock_state f4_lock h)

f4_bit : lock_bit board f2_f4 ≡ at F4.cr F4.cr_lock
unfolding lock_bit
f4_bit = refl

f4_keys_at : flash_keys board f2_f4 ≡ some f4_keys
unfolding flash_keys
f4_keys_at = refl

unlock_flash_if_opens_example :
    (h : History) × (unlock_flash_if board ≡ some (success, record board { history = h }))
    × (lock_state f4_lock h ≡ opened)
unlock_flash_if_opens_example =
    unlock_flash_if_opens board F4.cr F4.cr_lock f4_keys f4_bit f4_keys_at device-Obeys (inl refl)
