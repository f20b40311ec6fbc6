-- ===== src/Flash/Range.antt =====
-- common_flash.c: the checks that an address and a size lie in the flash or in the OTP area, and
-- that an address is the start of a page.
pub mod Bounds
pub mod Alignment
use libstlink.Prelude.{
  ℕ, zero, suc, ◌||◌, Bool, true, false, none, ℤ, success, failure, leb, ltb, ◌==◌, if◌then◌else◌,
}
use libstlink.Word.{add32}
use libstlink.Calculate.{stlink_calculate_pagesize}
use libstlink.Stlink.{Stlink, M, pure, get, ◌>>=◌}

-- The sums are of uint32_t, and wrap.
unfoldable pub stlink_check_address_range_validity : Stlink → ℕ → ℕ → ℤ
stlink_check_address_range_validity sl addr size =
    if ltb addr sl.flash_base || leb (add32 sl.flash_base sl.flash_size) addr
    then failure
    else if ltb (add32 sl.flash_base sl.flash_size) (add32 addr size)
    then failure
    else success

unfoldable pub stlink_check_address_range_validity_otp : Stlink → ℕ → ℕ → ℤ
stlink_check_address_range_validity_otp sl addr size =
    if ltb addr sl.otp_base || leb (add32 sl.otp_base sl.otp_size) addr
    then failure
    else if leb (add32 sl.otp_base sl.otp_size) (add32 addr size)
    then failure
    else success

-- while(page < addr) page += stlink_calculate_pagesize(sl, page); with a bound on the rounds.
unfoldable pub seek_page : ℕ → ℕ → ℕ → M ℕ
unfolding stlink_calculate_pagesize
seek_page zero addr page = λ sl. none
seek_page (suc fuel) addr page = elim (ltb page addr) [
  | true ↦ (do size ← stlink_calculate_pagesize page; seek_page fuel addr (add32 page size))
  | false ↦ pure page
]

unfoldable pub stlink_check_address_alignment : ℕ → ℕ → M ℤ
unfolding seek_page
stlink_check_address_alignment fuel addr = do
  sl ← get
  page ← seek_page fuel addr sl.flash_base
  pure (if page == addr then success else failure)
