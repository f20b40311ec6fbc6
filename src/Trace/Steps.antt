-- ===== src/Trace/Steps.antt =====
-- trace.c: one byte of the stream, from each state.
use libstlink.Prelude.{
  ℕ, ◌≡◌, ◌∙◌, refl, ap, true, false, List, [], ◌∷◌, ◌++◌, bit_and, ◌==◌, ◌||◌, if◌then◌else◌,
  Bool-cases, inl, inr, arith,
}
use libstlink.Word.{add32}
use libstlink.Word.Align.{bit_and-three}
use libstlink.Trace.{
  Trace, TraceState, synchronised, is_target_source, is_source, is_sw_source, is_local_time,
  is_global_time, is_extension, frame_state, mark_source, update_other, update_source,
  update_trace_idle, update_in, update_trace, update_all,
}

-- In a state, with this printed so far.
unfoldable pub At : TraceState → List ℕ → Trace → Type 0
At s output t = (t.state ≡ s) × (t.output ≡ output)

pub At-refl :
    (s : TraceState) (output : List ℕ) (t : Trace) → t.state ≡ s → t.output ≡ output → At s output t
unfolding At
At-refl s output t e o = (e, o)

-- The step on a byte from a state.
abbrev pub from : TraceState → Trace → ℕ → Trace
from s t c =
    let s₀ = synchronised s c in
    let (s', t') =
      update_in s₀ (record t { count_raw_bytes = add32 t.count_raw_bytes 1; state = s₀ }) c in
    record t' { state = s' }

update_trace-from :
    (s : TraceState) (t : Trace) (c : ℕ) → t.state ≡ s → update_trace t c ≡ from s t c
unfolding update_trace
update_trace-from s t c e = ap (λ s. from s t c) e

-- From a state to the next.
pub step_At :
    (s s' : TraceState) (out out' : List ℕ) (t : Trace) (c : ℕ)
    → ((u : Trace) → u.output ≡ out → At s' out' (from s u c))
    → At s out t
    → At s' out' (update_trace t c)
unfolding At
step_At s s' out out' t c next (e, o) = rw (update_trace-from s t c e) (next t o)

pub update_all-append :
    (t : Trace) (xs ys : List ℕ) → update_all t (xs ++ ys) ≡ update_all (update_all t xs) ys
unfolding update_all
update_all-append t [] ys = refl
update_all-append t (x ∷ xs) ys = update_all-append (update_trace t x) xs ys

other_lem :
    (t : Trace) (c : ℕ)
    → ((update_other t c).0 ≡ frame_state c) × ((update_other t c).1.output ≡ t.output)
unfolding update_other
other_lem t c = elim (Bool-cases (is_local_time c || is_global_time c)) [
  | inl time ↦ (rw time refl, rw time refl)
  | inr no_time ↦ elim (Bool-cases (is_extension c)) [
    | inl extension ↦ (rw (no_time, extension) refl, rw (no_time, extension) refl)
    | inr error ↦ (rw (no_time, error) refl, rw (no_time, error) refl)
  ]
]

mark_source-output : (t : Trace) (c : ℕ) → (mark_source t c).output ≡ t.output
mark_source-output t c = elim (Bool-cases (is_sw_source c)) [
  | inl sw ↦ rw sw refl
  | inr hw ↦ rw hw refl
]

-- The state that a packet of a source leaves for its payload.
abbrev pub skip_state : ℕ → TraceState
skip_state n =
    if n == 1 then TraceState.skip_1 else if n == 2 then TraceState.skip_2 else TraceState.skip_4

source_lem :
    (t : Trace) (c : ℕ) → is_source c ≡ true → update_source t c ≡ (skip_state (bit_and c 3), t)
unfolding update_source
source_lem t c src =
    let size = bit_and-three c in
    elim (Bool-cases (bit_and c 3 == 1)) [
      | inl one ↦ rw one refl
      | inr not_one ↦ elim (Bool-cases (bit_and c 3 == 2)) [
        | inl two ↦ rw (not_one, two) refl
        | inr not_two ↦
            (let three : (bit_and c 3 == 3) ≡ true = ground arith in
              rw (not_one, not_two, three) refl)
      ]
    ]

update_trace_idle-source :
    (t : Trace) (c : ℕ)
    → is_target_source c ≡ false
    → is_source c ≡ true
    → update_trace_idle t c ≡ (skip_state (bit_and c 3), mark_source t c)
unfolding update_trace_idle
update_trace_idle-source t c no_target src = rw no_target (
    ap (λ b. if b then update_source (mark_source t c) c else update_other t c) src
    ∙ source_lem (mark_source t c) c src)

update_trace_idle-other :
    (t : Trace) (c : ℕ)
    → is_target_source c ≡ false
    → is_source c ≡ false
    → update_trace_idle t c ≡ update_other t c
unfolding update_trace_idle
update_trace_idle-other t c no_target no_source = rw (no_target, no_source) refl

abbrev with_state : TraceState × Trace → Trace
with_state r = record r.1 { state = r.0 }

abbrev counted : Trace → Trace
counted u = record u { count_raw_bytes = add32 u.count_raw_bytes 1; state = TraceState.idle }

from-idle :
    (u : Trace) (c : ℕ) → from TraceState.idle u c ≡ with_state (update_trace_idle (counted u) c)
unfolding update_in
from-idle u c = refl

pub idle_source :
    (c : ℕ) (out : List ℕ) (u : Trace)
    → is_target_source c ≡ false
    → is_source c ≡ true
    → u.output ≡ out
    → At (skip_state (bit_and c 3)) out (from TraceState.idle u c)
unfolding At
idle_source c out u no_target src o =
    let e = from-idle u c ∙ ap with_state (update_trace_idle-source (counted u) c no_target src) in
    (ap (λ t. t.state) e, ap (λ t. t.output) e ∙ mark_source-output (counted u) c ∙ o)

pub idle_other :
    (c : ℕ) (out : List ℕ) (u : Trace)
    → is_target_source c ≡ false
    → is_source c ≡ false
    → u.output ≡ out
    → At (frame_state c) out (from TraceState.idle u c)
unfolding At
idle_other c out u no_target no_source o =
    let e =
      from-idle u c ∙ ap with_state (update_trace_idle-other (counted u) c no_target no_source) in
    let (state, output) = other_lem (counted u) c in
    (ap (λ t. t.state) e ∙ state, ap (λ t. t.output) e ∙ output ∙ o)
