-- ===== src/Flash/EraseSection/Refuses.antt =====
-- common_flash.c: what `stlink_erase_flash_section` refuses before it erases anything.
use libstlink.Prelude.{
  ℕ, suc, ◌+◌, ◌*◌, ◌^◌, ◌<◌, ◌≡◌, ◌∙◌, refl, inl, inr, Bool, some, failure, is_negative, arith,
  Bool-cases,
}
use libstlink.Stlink.{Stlink, bind_run}
use libstlink.Flash.Range.{stlink_check_address_range_validity, stlink_check_address_alignment}
use libstlink.Flash.Range.Alignment.{Uniform, stlink_check_address_alignment-Uniform}
use libstlink.Flash.EraseSection.{stlink_erase_flash_section}

-- On a chip whose pages are of one size, an address that does not start a page is refused: the result
-- is -1, and the context is as it was, so nothing was asked of the chip. The fuel is more than the number of
-- pages that start below the address, and the page of the address ends below 2^32.
pub stlink_erase_flash_section_misaligned :
    (sl : Stlink) (fuel k r size : ℕ) (align_size : Bool)
    → Uniform sl
    → suc r < sl.flash_pgsz
    → suc k < fuel
    → sl.flash_base + suc k * sl.flash_pgsz < 2 ^ 32
    → stlink_erase_flash_section fuel (sl.flash_base + k * sl.flash_pgsz + suc r) size align_size sl
      ≡ some (failure, sl)
unfolding stlink_erase_flash_section
stlink_erase_flash_section_misaligned sl fuel k r size align_size uniform inside enough small =
    let addr = sl.flash_base + k * sl.flash_pgsz + suc r in
    elim (Bool-cases (is_negative (stlink_check_address_range_validity sl addr size))) [
      | inl refused ↦ rw (stlink_erase_flash_section, refused) refl
      | inr inside_flash ↦
          rw (stlink_erase_flash_section, inside_flash)
            (bind_run (stlink_check_address_alignment fuel addr) {sl = sl}
                (stlink_check_address_alignment-Uniform sl fuel k (suc r) uniform inside
                  (ground (arith, enough)) small)
                _
              ∙ ground arith)
    ]
