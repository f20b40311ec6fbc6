-- ===== src/Flash/Trim.antt =====
-- common_flash.c: the erased bytes at the end of the data that `stlink_mwrite_flash` and
-- `stlink_fwrite_flash` leave out when `sl->opt` is set.
pub mod Suffix
use libstlink.Prelude.{
  ℕ, zero, suc, ◌-◌, Bool, List, ℤ, is_nonzero, bit_and, get_or, ◌==◌, if◌then◌else◌,
}
use libstlink.Stlink.{FlashType, l0_l1, Stlink}

pattern_of : FlashType → ℕ
pattern_of l0_l1 = 0x00
pattern_of _ = 0xff

-- common_legacy.c: the value of an erased byte.
unfoldable pub stlink_get_erased_pattern : Stlink → ℕ
unfolding pattern_of
stlink_get_erased_pattern sl = pattern_of sl.flash_type

-- The loop that counts the erased bytes below `idx`, from the last one down.
unfoldable pub count_empty : List ℕ → ℕ → ℕ → ℕ
count_empty bytes zero pat = 0
count_empty bytes (suc idx) pat =
    let more = count_empty bytes idx pat in if get_or bytes idx 0 == pat then suc more else 0

-- `num_empty`, rounded down to words.
unfoldable pub num_empty : Stlink → List ℕ → ℕ → ℕ
unfolding count_empty stlink_get_erased_pattern
num_empty sl bytes length =
    if is_nonzero sl.opt
    then (let n = count_empty bytes length (stlink_get_erased_pattern sl) in n - bit_and n 3)
    else 0

-- What is handed to `stlink_write_flash`: the length, and whether it only erases.
unfoldable pub write_extent : Stlink → List ℕ → ℕ → ℕ × Bool
unfolding num_empty
write_extent sl bytes length =
    let n = num_empty sl bytes length in (if n == length then length else length - n, n == length)
