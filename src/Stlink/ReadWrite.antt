-- ===== src/Stlink/ReadWrite.antt =====
-- .deprecated/src/stlink-lib/read_write.c: little-endian words, and the wrappers of the backend's
-- operations with their argument checks. Log output is left out.
pub mod Endian
pub mod Checks
use Prim.Native.Nat.{bit_or}
use libstlink.Prelude.{
  ℕ, ◌+◌, ◌-◌, ◌*◌, ◌%◌, ◌^◌, Bool, false, not, ◌&&◌, Option, none, some, List, ◌∷◌, ℤ, pos, negsuc,
  failure, leb, ◌==◌, if◌then◌else◌, get_or, set,
}
use libstlink.Word.{shl32, shr32}
use libstlink.Stlink.Types.{StlinkReg, Call, Stlink, M, pure}

unfoldable pub read_uint16 : List ℕ → ℕ → ℕ
read_uint16 c pt = bit_or (get_or c pt 0) (get_or c (pt + 1) 0 * 2 ^ 8 % 2 ^ 16)

unfoldable pub write_uint16 : List ℕ → ℕ → List ℕ
write_uint16 buf ui = set (set buf 0 (ui % 2 ^ 8)) 1 (shr32 ui 8 % 2 ^ 8)

unfoldable pub read_uint32 : List ℕ → ℕ → ℕ
read_uint32 c pt =
    bit_or
      (bit_or (bit_or (get_or c pt 0) (shl32 (get_or c (pt + 1) 0) 8))
        (shl32 (get_or c (pt + 2) 0) 16))
      (shl32 (get_or c (pt + 3) 0) 24)

unfoldable pub write_uint32 : List ℕ → ℕ → List ℕ
write_uint32 buf ui =
    set (set (set (set buf 0 (ui % 2 ^ 8)) 1 (shr32 ui 8 % 2 ^ 8)) 2 (shr32 ui 16 % 2 ^ 8)) 3
      (shr32 ui 24 % 2 ^ 8)

-- stlink_read_debug32(sl, addr, &data): the result code and the out variable.
unfoldable pub stlink_read_debug32 : ℕ → M (ℤ × ℕ)
stlink_read_debug32 addr sl = some (
  sl.backend.read_debug32 sl.history addr,
  record sl { history = Call.read_debug32 addr ∷ sl.history },
)

unfoldable pub stlink_write_debug32 : ℕ → ℕ → M ℤ
stlink_write_debug32 addr value sl = some (
  sl.backend.write_debug32 sl.history addr value,
  record sl { history = Call.write_debug32 addr value ∷ sl.history },
)

-- The bytes read stand in `q_buf`.
unfoldable pub stlink_read_mem32 : ℕ → ℕ → M ℤ
stlink_read_mem32 addr len sl =
    if not (len % 4 == 0)
    then some (failure, sl)
    else (let (ret, bytes) = sl.backend.read_mem32 sl.history addr len in
        some (ret, record sl { q_buf = bytes; history = Call.read_mem32 addr len ∷ sl.history }))

unfoldable pub stlink_write_mem32 : ℕ → ℕ → M ℤ
stlink_write_mem32 addr len sl =
    if not (len % 4 == 0)
    then some (failure, sl)
    else some (
      sl.backend.write_mem32 sl.history addr len sl.q_buf,
      record sl { history = Call.write_mem32 addr len sl.q_buf ∷ sl.history },
    )

unfoldable pub stlink_write_mem8 : ℕ → ℕ → M ℤ
stlink_write_mem8 addr len sl = some (
  sl.backend.write_mem8 sl.history addr len sl.q_buf,
  record sl { history = Call.write_mem8 addr len sl.q_buf ∷ sl.history },
)

abbrev pub within : ℕ → ℕ → ℤ → Bool
within lo hi (pos n) = leb lo n && leb n hi
within lo hi (negsuc n) = false

abbrev pub magnitude : ℤ → ℕ
magnitude (pos n) = n
magnitude (negsuc n) = 0

-- A function with an out parameter `regp` returns it beside its result.
unfoldable pub stlink_read_reg : ℤ → StlinkReg → M (ℤ × StlinkReg)
stlink_read_reg r_idx regp sl =
    if not (within 0 20 r_idx)
    then some ((failure, regp), sl)
    else some (
      sl.backend.read_reg sl.history r_idx regp,
      record sl { history = Call.read_reg r_idx ∷ sl.history },
    )

unfoldable pub stlink_write_reg : ℕ → ℤ → M ℤ
stlink_write_reg reg idx sl = some (
  sl.backend.write_reg sl.history reg idx,
  record sl { history = Call.write_reg reg idx ∷ sl.history },
)

-- The index of gdb as the selector of STM32_REG_DCRSR, for reads.
convert_read : ℤ → Option ℤ
convert_read r_idx =
    if within 0x1c 0x1f r_idx
    then some (pos 0x14)
    else if within 0x40 0x40 r_idx
    then some (pos 0x21)
    else if within 0x20 0x3f r_idx
    then some (pos (0x40 + (magnitude r_idx - 0x20)))
    else none

-- The same for writes, where the backend takes the special registers apart.
convert_write : ℤ → Option ℤ
convert_write r_idx =
    if within 0x1c 0x1f r_idx
    then some r_idx
    else if within 0x40 0x40 r_idx
    then some (pos 0x21)
    else if within 0x20 0x3f r_idx
    then some (pos (0x40 + (magnitude r_idx - 0x20)))
    else none

unfoldable pub stlink_read_unsupported_reg : ℤ → StlinkReg → M (ℤ × StlinkReg)
unfolding convert_read
stlink_read_unsupported_reg r_idx regp sl = elim (convert_read r_idx) [
  | none ↦ some ((failure, regp), sl)
  | some r_convert ↦ some (
    sl.backend.read_unsupported_reg sl.history r_convert regp,
    record sl { history = Call.read_unsupported_reg r_convert ∷ sl.history },
  )
]

unfoldable pub stlink_write_unsupported_reg : ℕ → ℤ → StlinkReg → M (ℤ × StlinkReg)
unfolding convert_write
stlink_write_unsupported_reg val r_idx regp sl = elim (convert_write r_idx) [
  | none ↦ some ((failure, regp), sl)
  | some r_convert ↦ some (
    sl.backend.write_unsupported_reg sl.history val r_convert regp,
    record sl { history = Call.write_unsupported_reg val r_convert ∷ sl.history },
  )
]

unfoldable pub stlink_read_all_regs : StlinkReg → M (ℤ × StlinkReg)
stlink_read_all_regs regp sl = some (
  sl.backend.read_all_regs sl.history regp,
  record sl { history = Call.read_all_regs ∷ sl.history },
)

unfoldable pub stlink_read_all_unsupported_regs : StlinkReg → M (ℤ × StlinkReg)
stlink_read_all_unsupported_regs regp sl = some (
  sl.backend.read_all_unsupported_regs sl.history regp,
  record sl { history = Call.read_all_unsupported_regs ∷ sl.history },
)
