-- ===== src/Trace/Overflow.antt =====
-- trace.c: overflow packets are never counted.
use libstlink.Prelude.{
  ℕ, ◌≡◌, ◌∙◌, refl, Bool, true, false, List, [], ◌∷◌, bit_and, ◌==◌, ◌||◌, if◌then◌else◌,
  Bool-cases, inl, inr, ==_iff,
}
use libstlink.Trace.{
  Trace, TraceState, is_local_time, is_global_time, is_extension, is_overflow, is_sw_source,
  is_source, is_target_source, mark_source, update_other, update_source, update_trace_idle,
  update_in, update_trace, update_all, synchronised,
}

not_overflow : (c : ℕ) → (is_local_time c || is_global_time c) ≡ false → is_overflow c ≡ false
not_overflow c no_time = elim (Bool-cases (is_overflow c)) [
  | inl over ↦ cc (rw ((==_iff c 0x70).0 over) at no_time)
  | inr none ↦ none
]

update_other-count :
    (t : Trace) (c : ℕ) → (update_other t c).1.count_hw_overflow ≡ t.count_hw_overflow
unfolding update_other
update_other-count t c = elim (Bool-cases (is_local_time c || is_global_time c)) [
  | inl time ↦ rw time refl
  | inr no_time ↦ elim (Bool-cases (is_extension c)) [
    | inl extension ↦ rw (no_time, extension) refl
    | inr error ↦ rw (no_time, error, not_overflow c no_time) refl
  ]
]

mark_source-count : (t : Trace) (c : ℕ) → (mark_source t c).count_hw_overflow ≡ t.count_hw_overflow
mark_source-count t c = elim (Bool-cases (is_sw_source c)) [
  | inl sw ↦ rw sw refl
  | inr hw ↦ rw hw refl
]

update_source-count :
    (t : Trace) (c : ℕ) → (update_source t c).1.count_hw_overflow ≡ t.count_hw_overflow
unfolding update_source
update_source-count t c = elim (Bool-cases (bit_and c 3 == 1)) [
  | inl one ↦ rw one refl
  | inr not_one ↦ elim (Bool-cases (bit_and c 3 == 2)) [
    | inl two ↦ rw (not_one, two) refl
    | inr not_two ↦ elim (Bool-cases (bit_and c 3 == 3)) [
      | inl three ↦ rw (not_one, not_two, three) refl
      | inr none ↦ rw (not_one, not_two, none) (update_other-count t c)
    ]
  ]
]

update_trace_idle-count :
    (t : Trace) (c : ℕ) → (update_trace_idle t c).1.count_hw_overflow ≡ t.count_hw_overflow
unfolding update_trace_idle
update_trace_idle-count t c = elim (Bool-cases (is_target_source c)) [
  | inl target ↦ rw target refl
  | inr no_target ↦ rw no_target (
      choice (is_source c) (update_source (mark_source t c) c) (update_other t c)
        (update_source-count (mark_source t c) c ∙ mark_source-count t c) (update_other-count t c))
]
  where
    choice :
        (b : Bool) (x y : TraceState × Trace)
        → x.1.count_hw_overflow ≡ t.count_hw_overflow
        → y.1.count_hw_overflow ≡ t.count_hw_overflow
        → (if b then x else y).1.count_hw_overflow ≡ t.count_hw_overflow
    choice true x y e f = e
    choice false x y e f = f

update_in-count :
    (s : TraceState) (t : Trace) (c : ℕ)
    → (update_in s t c).1.count_hw_overflow ≡ t.count_hw_overflow
unfolding update_in
update_in-count TraceState.idle t c = update_trace_idle-count t c
update_in-count TraceState.target_source t c = refl
update_in-count TraceState.skip_frame t c = refl
update_in-count TraceState.skip_4 t c = refl
update_in-count TraceState.skip_3 t c = refl
update_in-count TraceState.skip_2 t c = refl
update_in-count TraceState.skip_1 t c = refl
update_in-count TraceState.unknown t c = refl

-- No stream of bytes changes the count of the overflow packets, since every one passes the test for a
-- local timestamp, which comes first.
pub update_all-count_hw_overflow :
    (cs : List ℕ) (t : Trace) → (update_all t cs).count_hw_overflow ≡ t.count_hw_overflow
unfolding update_all update_trace
update_all-count_hw_overflow [] t = refl
update_all-count_hw_overflow (c ∷ cs) t =
    update_all-count_hw_overflow cs (update_trace t c)
    ∙ update_in-count (synchronised t.state c) _ c
