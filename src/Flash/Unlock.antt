-- ===== src/Flash/Unlock.antt =====
-- common_flash.c: `is_flash_locked`, `unlock_flash`, `unlock_flash_if`.
pub mod Opens
pub mod Closes
use libstlink.Prelude.{
  ℕ, ◌+◌, ◌*◌, ◌^◌, Bool, not, ◌&&◌, Option, none, some, ℤ, success, failure, is_nonzero, bit_and,
  ltb, if◌then◌else◌,
}
use libstlink.Word.{clear, is_set, uint32_max}
use libstlink.Registers.C0
use libstlink.Registers.C5
use libstlink.Registers.F4
use libstlink.Registers.F7
use libstlink.Registers.Fpec
use libstlink.Registers.Gx
use libstlink.Registers.H5
use libstlink.Registers.H7
use libstlink.Registers.L0
use libstlink.Registers.L4
use libstlink.Registers.L5
use libstlink.Registers.Memory
use libstlink.Registers.Wb
use libstlink.Stlink.{
  FlashType, c0, f0_f1_f3, f1_xl, f2_f4, f7, g0, g4, h7, l0_l1, l4, l5_u5, wb_wl, wb0, h5, c5,
  Stlink, M, pure, get, ◌>>=◌, ◌>>◌,
}
use libstlink.Stlink.ReadWrite.{stlink_read_debug32, stlink_write_debug32}
use libstlink.Flash.Control.{get_stm32l0_flash_base, has_dual_bank}

-- Where the lock bit stands: a register and a bit, or a result that needs no read.
pub data LockBit : Type 0 where
  at : ℕ → ℕ → LockBit
  always : ℕ → LockBit

unfoldable pub lock_bit : Stlink → FlashType → LockBit
unfolding get_stm32l0_flash_base
lock_bit sl c0 = at C0.cr C0.cr_lock
lock_bit sl f0_f1_f3 = at Fpec.cr Fpec.cr_lock
lock_bit sl f1_xl = at Fpec.cr Fpec.cr_lock
lock_bit sl f2_f4 = at F4.cr F4.cr_lock
lock_bit sl f7 = at F7.cr F7.cr_lock
lock_bit sl g0 = at Gx.cr Gx.cr_lock
lock_bit sl g4 = at Gx.cr Gx.cr_lock
lock_bit sl h7 = at H7.cr1 H7.cr_lock
lock_bit sl l0_l1 = at (get_stm32l0_flash_base sl + Fpec.pecr_off) L0.pelock
lock_bit sl l4 = at L4.cr L4.cr_lock
lock_bit sl l5_u5 = at L5.nscr L5.nscr_nslock
lock_bit sl h5 = at H5.nscr H5.nscr_lock
lock_bit sl wb_wl = at Wb.cr Wb.cr_lock
lock_bit sl c5 = at C5.cr C5.cr_lock
lock_bit sl wb0 = always 0
lock_bit sl _ = always uint32_max

unfoldable pub read_lock_bit : LockBit → M ℕ
unfolding stlink_read_debug32
read_lock_bit (at cr_reg cr_lock_shift) = do
  (ret, n) ← stlink_read_debug32 cr_reg
  pure (bit_and n (2 ^ cr_lock_shift))
read_lock_bit (always n) = pure n

unfoldable pub is_flash_locked : M ℕ
is_flash_locked = do sl ← get; read_lock_bit (lock_bit sl sl.flash_type)

-- The key registers and the two keys; `key2_reg` is 0 where there is one key register.
pub record Keys : Type 0 where
  pub key_reg : ℕ
  pub key2_reg : ℕ
  pub flash_key1 : ℕ
  pub flash_key2 : ℕ

abbrev keys_at : ℕ → ℕ → Option Keys
keys_at key_reg key2_reg = some (record {
  key_reg = key_reg;
  key2_reg = key2_reg;
  flash_key1 = Fpec.key1;
  flash_key2 = Fpec.key2;
})

unfoldable pub flash_keys : Stlink → FlashType → Option Keys
unfolding get_stm32l0_flash_base
flash_keys sl c0 = keys_at C0.keyr 0
flash_keys sl f0_f1_f3 = keys_at Fpec.keyr 0
flash_keys sl f1_xl = keys_at Fpec.keyr Fpec.keyr2
flash_keys sl f2_f4 = keys_at F4.keyr 0
flash_keys sl f7 = keys_at F7.keyr 0
flash_keys sl g0 = keys_at Gx.keyr 0
flash_keys sl g4 = keys_at Gx.keyr 0
flash_keys sl h7 = keys_at H7.keyr1 (if has_dual_bank sl then H7.keyr2 else 0)
flash_keys sl l0_l1 = some (record {
  key_reg = get_stm32l0_flash_base sl + Fpec.pekeyr_off;
  key2_reg = 0;
  flash_key1 = L0.pekey1;
  flash_key2 = L0.pekey2;
})
flash_keys sl l4 = keys_at L4.keyr 0
flash_keys sl l5_u5 = keys_at L5.nskeyr 0
flash_keys sl h5 = keys_at H5.nskeyr 0
flash_keys sl wb_wl = keys_at Wb.keyr 0
flash_keys sl c5 = keys_at C5.keyr 0
flash_keys sl _ = none

-- On the L5 and U5: voltage scaling to range 0, where the core runs at a lower voltage.
scale_voltage : M (Unit {0})
unfolding stlink_read_debug32 stlink_write_debug32
scale_voltage = do
  (ret, val) ← stlink_read_debug32 Memory.l5_pwr_cr1
  let mask = 3 * 2 ^ Memory.l5_pwr_cr1_vos
  if not (is_nonzero ret) && ltb (2 ^ Memory.l5_pwr_cr1_vos) (bit_and val mask)
      then (do stlink_write_debug32 Memory.l5_pwr_cr1 (clear val mask); pure tt)
      else pure tt

unfoldable pub before_keys : FlashType → M (Unit {0})
unfolding scale_voltage
before_keys l5_u5 = scale_voltage
before_keys _ = pure tt

unfoldable pub write_keys : Option Keys → M (Unit {0})
unfolding stlink_write_debug32
write_keys none = pure tt
write_keys (some keys) = do
  stlink_write_debug32 keys.key_reg keys.flash_key1
  stlink_write_debug32 keys.key_reg keys.flash_key2
  if is_set keys.key2_reg
      then (do
        stlink_write_debug32 keys.key2_reg keys.flash_key1
        stlink_write_debug32 keys.key2_reg keys.flash_key2
        pure tt)
      else pure tt

unfoldable pub unlock_flash : M (Unit {0})
unlock_flash = do sl ← get; before_keys sl.flash_type; write_keys (flash_keys sl sl.flash_type)

unfoldable pub unlock_flash_if : M ℤ
unlock_flash_if = do
  locked ← is_flash_locked
  if is_set locked
      then (do
        unlock_flash
        still ← is_flash_locked
        pure (if is_set still then failure else success))
      else pure success
