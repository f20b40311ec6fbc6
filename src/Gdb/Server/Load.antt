-- ===== src/Gdb/Server/Load.antt =====
-- gdb-server.c: the blocks of flash that gdb asks for and fills before they are written.
pub mod Fill
use libstlink.Prelude.{
  ℕ, zero, suc, ◌+◌, ◌-◌, ◌%◌, ◌&&◌, ◌||◌, Bool, true, false, not, List, [], ◌∷◌, ◌++◌, ℤ, success,
  failure, take, drop, ltb, ◌==◌, if◌then◌else◌,
}
use libstlink.Word.{add32, sub32}
use libstlink.Registers.Memory
use libstlink.Calculate.{stlink_calculate_pagesize}
use libstlink.Stlink.{Stlink, M, pure, get, ◌>>=◌, ◌>>◌}
use libstlink.Flash.Trim.{stlink_get_erased_pattern}

pub record FlashBlock : Type 0 where
  pub addr : ℕ
  pub length : ℕ
  pub bytes : List ℕ

-- memset
unfoldable pub filled : ℕ → ℕ → List ℕ
filled byte zero = []
filled byte (suc n) = byte ∷ filled byte n

abbrev new_block : ℕ → ℕ → ℕ → FlashBlock
new_block addr length pattern = record {
  addr = addr;
  length = length;
  bytes = filled pattern length;
}

-- The list `flash_root`, the last block added first. `malloc` does not fail.
unfoldable pub flash_add_block : ℕ → ℕ → List FlashBlock → M (ℤ × List FlashBlock)
unfolding stlink_calculate_pagesize stlink_get_erased_pattern filled
flash_add_block addr length flash_root = do
  sl ← get
  if ltb addr Memory.flash_base || ltb (add32 Memory.flash_base sl.flash_size) (add32 addr length)
      then pure (failure, flash_root)
      else (do
        flash_page ← stlink_calculate_pagesize addr
        if not (addr % flash_page == 0) || not (length % flash_page == 0)
            then pure (failure, flash_root)
            else pure (success, new_block addr length (stlink_get_erased_pattern sl) ∷ flash_root))

-- memcpy(buf + start, src, n)
abbrev pub overwrite : List ℕ → ℕ → List ℕ → ℕ → List ℕ
overwrite buf start src n = take start buf ++ (take n src ++ drop (start + n) buf)

-- a < Y && b > X
unfoldable pub intersects : ℕ → ℕ → FlashBlock → Bool
intersects a b fb = ltb a (add32 fb.addr fb.length) && ltb fb.addr b

abbrev pub start_in : ℕ → FlashBlock → ℕ
start_in a fb = sub32 (if ltb fb.addr a then a else fb.addr) fb.addr

abbrev pub end_in : ℕ → FlashBlock → ℕ
end_in b fb = let stop = add32 fb.addr fb.length in sub32 (if ltb stop b then stop else b) fb.addr

unfoldable pub fill_block : ℕ → ℕ → List ℕ → FlashBlock → FlashBlock
unfolding intersects
fill_block a b src fb =
    if intersects a b fb
    then record fb {
      bytes = overwrite fb.bytes (start_in a fb) src (sub32 (end_in b fb) (start_in a fb));
    }
    else fb

unfoldable pub fill_blocks : ℕ → ℕ → List ℕ → List FlashBlock → List FlashBlock
unfolding fill_block
fill_blocks a b src [] = []
fill_blocks a b src (fb ∷ fbs) = fill_block a b src fb ∷ fill_blocks a b src fbs

-- fit_blocks
unfoldable pub count_fits : ℕ → ℕ → List FlashBlock → ℕ
unfolding intersects
count_fits a b [] = 0
count_fits a b (fb ∷ fbs) =
    let rest = count_fits a b fbs in if intersects a b fb then suc rest else rest

-- `fit_length` is for a warning alone.
unfoldable pub flash_populate : ℕ → List ℕ → ℕ → List FlashBlock → ℤ × List FlashBlock
unfolding fill_blocks count_fits
flash_populate addr src length flash_root = (
  if count_fits addr (add32 addr length) flash_root == 0 then failure else success,
  fill_blocks addr (add32 addr length) src flash_root,
)
