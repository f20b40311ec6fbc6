-- ===== src/Flash/Range/Alignment.antt =====
-- common_flash.c: the alignment check on a chip whose pages are of one size.
use native.Mathlib.Nat.{mul-le-mul_right, mul-lt-mul_of_pos_right}
use libstlink.Prelude.{
  ℕ, zero, suc, ◌+◌, ◌*◌, ◌^◌, ◌≤◌, ◌<◌, ◌≡◌, refl, ◌∙◌, true, some, success, failure, arith, ltb,
  ◌==◌, if◌then◌else◌,
}
use libstlink.Word.{add32}
use libstlink.Calculate.{pagesize, stlink_calculate_pagesize}
use libstlink.Stlink.{Stlink, bind_run}
use libstlink.Flash.Range.{seek_page, stlink_check_address_alignment}

-- The pages are of the size that the context holds.
abbrev pub Uniform : Stlink → Type 0
Uniform sl = (addr : ℕ) → pagesize sl addr ≡ sl.flash_pgsz

module _ (sl : Stlink) (uniform : Uniform sl) where
  pub stlink_calculate_pagesize-Uniform :
      (addr : ℕ) → stlink_calculate_pagesize addr sl ≡ some (sl.flash_pgsz, sl)
  unfolding stlink_calculate_pagesize
  stlink_calculate_pagesize-Uniform addr = rw (uniform addr) refl

  -- k pages further on stands the first page that does not start below the address.
  seek_page-Uniform :
      (k fuel addr page : ℕ)
      → k < fuel
      → addr ≤ page + k * sl.flash_pgsz
      → ((j : ℕ) → j < k → page + j * sl.flash_pgsz < addr)
      → page + k * sl.flash_pgsz < 2 ^ 32
      → seek_page fuel addr page sl ≡ some (page + k * sl.flash_pgsz, sl)
  unfolding seek_page
  seek_page-Uniform k zero addr page h reach below small = absurd (omega arith)
  seek_page-Uniform zero (suc fuel) addr page h reach below small = ground arith
  seek_page-Uniform (suc k) (suc fuel) addr page h reach below small =
      let size = sl.flash_pgsz in
      let more : (j : ℕ) → page + suc j * size ≡ page + size + j * size = λ j. grind arith in
      let small' : page + size + k * size < 2 ^ 32 = rw (more k) at small in
      let go : ltb page addr ≡ true =
        (let start : page < addr = omega (arith, below 0 (omega arith)) in ground arith) in
      let next : add32 page size ≡ page + size = omega arith in
      let rest =
        seek_page-Uniform k fuel addr (page + size) (omega arith) (rw (more k) at reach)
          (λ j lt. omega (arith, more j, below (suc j) (omega arith))) small' in
      rw (seek_page, go, more k)
        (bind_run (stlink_calculate_pagesize page) {sl = sl}
            (stlink_calculate_pagesize-Uniform page) (λ x. seek_page fuel addr (add32 page x))
          ∙ rw next rest)

below_suc : (j k : ℕ) → j < suc k → j ≤ k
below_suc j k h = omega arith

-- On a chip whose pages are of one size, the check says whether an address of the flash starts a page,
-- if the fuel is more than the number of pages that start below the address, and the page of the address ends
-- below 2^32.
pub stlink_check_address_alignment-Uniform :
    (sl : Stlink) (fuel k r : ℕ)
    → Uniform sl
    → r < sl.flash_pgsz
    → (if r == 0 then k else suc k) < fuel
    → sl.flash_base + suc k * sl.flash_pgsz < 2 ^ 32
    → stlink_check_address_alignment fuel (sl.flash_base + k * sl.flash_pgsz + r) sl
      ≡ some (if r == 0 then success else failure, sl)
unfolding stlink_check_address_alignment
stlink_check_address_alignment-Uniform sl fuel k zero uniform inside enough small =
    let p = sl.flash_pgsz in
    let last : suc k * p ≡ p + k * p = grind arith in
    let here : sl.flash_base + k * p + zero ≡ sl.flash_base + k * p = omega arith in
    let seek =
      seek_page-Uniform sl uniform k fuel (sl.flash_base + k * p) sl.flash_base (omega arith)
        (omega arith) (λ j lt. omega (arith, mul-lt-mul_of_pos_right lt inside))
        (omega (arith, last)) in
    rw here (bind_run (seek_page fuel (sl.flash_base + k * p) sl.flash_base) seek _ ∙ ground arith)
stlink_check_address_alignment-Uniform sl fuel k (suc r) uniform inside enough small =
    let p = sl.flash_pgsz in
    let last : suc k * p ≡ p + k * p = grind arith in
    let seek =
      seek_page-Uniform sl uniform (suc k) fuel (sl.flash_base + k * p + suc r) sl.flash_base
        (ground (arith, enough)) (omega (arith, last))
        (λ j lt. omega (arith, mul-le-mul_right p (below_suc j k lt))) small in
    bind_run (seek_page fuel (sl.flash_base + k * p + suc r) sl.flash_base) seek _
    ∙ ground (arith, last)
