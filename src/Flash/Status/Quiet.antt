-- ===== src/Flash/Status/Quiet.antt =====
-- common_flash.c: the polls of the status registers return, and leave the flash as it is.
use libstlink.Prelude.{ℕ, zero, suc, ◌<◌, ◌≡◌, ◌∙◌, sym, ap, Option, none, some, List}
use libstlink.Calculate.{bank_1, bank_2}
use libstlink.Stlink.{
  FlashType, unknown, c0, f0_f1_f3, f1_xl, f2_f4, f7, g0, g4, h7, l0_l1, l4, l5_u5, wb_wl, wb0, h5,
  c5, Stlink, History, pure, ◌>>=◌,
}
use libstlink.Stlink.Image.{ReadsOnly, ReadsOnly-trans}
use libstlink.Stlink.Image.Polls.{
  Polls, at_history, pure-Polls, stlink_read_debug32-Polls, bind-Polls, get-Polls, if-Polls,
}
use libstlink.Flash.Status.{
  read_sr_at, read_flash_sr, busy_by_shift, busy_of, is_flash_busy, wait_flash_busy, error_sr_dual,
  error_sr, check_flash_error, sr_busy_shift,
}
use libstlink.Flash.Status.Wait.{IdleAfter, idle, busy, wait_flash_busy-IdleAfter}

read_sr_at-Polls : (reg : Option ℕ) → Polls (read_sr_at reg)
unfolding read_sr_at
read_sr_at-Polls none = pure-Polls _
read_sr_at-Polls (some reg) = bind-Polls _ _ (stlink_read_debug32-Polls reg) (λ r. pure-Polls r.1)

read_flash_sr-Polls : (bank : ℕ) → Polls (read_flash_sr bank)
unfolding read_flash_sr
read_flash_sr-Polls bank = get-Polls _ (λ sl. read_sr_at-Polls _)

-- A value computed from one status word.
one_word : {A : Type 0} (bank : ℕ) (f : ℕ → A) → Polls (read_flash_sr bank >>= λ sr. pure (f sr))
one_word bank f = bind-Polls _ _ (read_flash_sr-Polls bank) (λ sr. pure-Polls (f sr))

busy_by_shift-Polls : (shift : Option ℕ) → Polls (busy_by_shift shift)
unfolding busy_by_shift
busy_by_shift-Polls none = pure-Polls _
busy_by_shift-Polls (some shift) =
    bind-Polls _ _ (read_flash_sr-Polls bank_1)
      (λ sr. get-Polls _ (λ sl. if-Polls _ _ _ (one_word bank_2 _) (pure-Polls _)))

busy_of-Polls : (t : FlashType) → Polls (busy_of t)
unfolding busy_of
busy_of-Polls unknown = busy_by_shift-Polls (sr_busy_shift unknown)
busy_of-Polls c0 = busy_by_shift-Polls (sr_busy_shift c0)
busy_of-Polls f0_f1_f3 = busy_by_shift-Polls (sr_busy_shift f0_f1_f3)
busy_of-Polls f1_xl = busy_by_shift-Polls (sr_busy_shift f1_xl)
busy_of-Polls f2_f4 = busy_by_shift-Polls (sr_busy_shift f2_f4)
busy_of-Polls f7 = busy_by_shift-Polls (sr_busy_shift f7)
busy_of-Polls g0 = busy_by_shift-Polls (sr_busy_shift g0)
busy_of-Polls g4 = busy_by_shift-Polls (sr_busy_shift g4)
busy_of-Polls h7 = busy_by_shift-Polls (sr_busy_shift h7)
busy_of-Polls l0_l1 = busy_by_shift-Polls (sr_busy_shift l0_l1)
busy_of-Polls l4 = busy_by_shift-Polls (sr_busy_shift l4)
busy_of-Polls l5_u5 = busy_by_shift-Polls (sr_busy_shift l5_u5)
busy_of-Polls wb_wl = busy_by_shift-Polls (sr_busy_shift wb_wl)
busy_of-Polls wb0 = one_word bank_1 _
busy_of-Polls h5 = busy_by_shift-Polls (sr_busy_shift h5)
busy_of-Polls c5 = one_word bank_1 _

pub is_flash_busy-Polls : Polls is_flash_busy
unfolding is_flash_busy
is_flash_busy-Polls = get-Polls _ (λ sl. busy_of-Polls sl.flash_type)

error_sr_dual-Polls : (sl : Stlink) (mask : ℕ) → Polls (error_sr_dual sl mask)
unfolding error_sr_dual
error_sr_dual-Polls sl mask =
    bind-Polls _ _ (read_flash_sr-Polls bank_1)
      (λ sr. if-Polls _ _ _ (one_word bank_2 _) (pure-Polls _))

error_sr-Polls : (sl : Stlink) (t : FlashType) → Polls (error_sr sl t)
unfolding error_sr
error_sr-Polls sl unknown = pure-Polls _
error_sr-Polls sl c0 = one_word bank_1 _
error_sr-Polls sl f0_f1_f3 = one_word bank_1 _
error_sr-Polls sl f1_xl = bind-Polls _ _ (read_flash_sr-Polls bank_1) (λ sr. one_word bank_2 _)
error_sr-Polls sl f2_f4 = one_word bank_1 _
error_sr-Polls sl f7 = one_word bank_1 _
error_sr-Polls sl g0 = error_sr_dual-Polls sl _
error_sr-Polls sl g4 = error_sr_dual-Polls sl _
error_sr-Polls sl h7 = error_sr_dual-Polls sl _
error_sr-Polls sl l0_l1 = one_word bank_1 _
error_sr-Polls sl l4 = one_word bank_1 _
error_sr-Polls sl l5_u5 = one_word bank_1 _
error_sr-Polls sl wb_wl = one_word bank_1 _
error_sr-Polls sl wb0 = one_word bank_1 _
error_sr-Polls sl h5 = one_word bank_1 _
error_sr-Polls sl c5 = one_word bank_1 _

-- The check for errors returns in every context, and adds reads of registers to the history.
pub check_flash_error-Polls : Polls check_flash_error
unfolding check_flash_error
check_flash_error-Polls =
    get-Polls _ (λ sl. bind-Polls _ _ (error_sr-Polls sl sl.flash_type) (λ res. pure-Polls _))

some_pair :
    {A : Type 0} {x y : A} {s t : Stlink}
    → ◌≡◌ {A = Option (A × Stlink)} (some (x, s)) (some (y, t))
    → s ≡ t
some_pair {A} {x} {y} {s} {t} e =
    ap (λ (o : Option (A × Stlink)). elim o [ none ↦ s | some p ↦ p.1 ]) e

-- The context after the polls of a wait.
pub IdleAfter-reads :
    (n : ℕ) (sl sl' : Stlink)
    → IdleAfter n sl sl'
    → (h : History) × (sl' ≡ at_history sl h) × ReadsOnly sl.history h
IdleAfter-reads zero sl sl' (idle _ _ ran) =
    let (a, h, ran', reads) = is_flash_busy-Polls sl in (h, some_pair (sym ran ∙ ran'), reads)
IdleAfter-reads (suc n) sl sl' (busy _ sl₁ set ran rest) =
    let (a, h, ran', reads) = is_flash_busy-Polls sl in
    let first : sl₁ ≡ at_history sl h = some_pair (sym ran ∙ ran') in
    let (h', e, reads') = IdleAfter-reads n (at_history sl h) sl' (rw first at rest) in
    (h', e, ReadsOnly-trans reads reads')

-- The context with another buffer and another history.
abbrev pub with_calls : Stlink → List ℕ → History → Stlink
with_calls sl q h = record sl { q_buf = q; history = h }

-- Whatever was called before, less than fuel polls find the controller busy in a row.
abbrev pub Idles : ℕ → Stlink → Type 0
Idles fuel sl =
    (q : List ℕ) (h : History)
    → (n : ℕ) × (sl' : Stlink) × IdleAfter n (with_calls sl q h) sl' × (n < fuel)

-- The wait then ends, and has only read.
pub wait_flash_busy-Idles :
    (fuel : ℕ) (sl : Stlink) (q : List ℕ) (h : History)
    → Idles fuel sl
    → (h' : History) × (wait_flash_busy fuel (with_calls sl q h) ≡ some (tt, with_calls sl q h'))
      × ReadsOnly h h'
wait_flash_busy-Idles fuel sl q h idles =
    let (n, sl', after, lt) = idles q h in
    let (h', e, reads) = IdleAfter-reads n (with_calls sl q h) sl' after in
    (
      h',
      wait_flash_busy-IdleAfter fuel n (with_calls sl q h) sl' after lt
          ∙ ap (λ (s : Stlink). some (tt {0}, s)) e,
      reads,
    )
