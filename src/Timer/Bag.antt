-- ===== src/Timer/Bag.antt =====
-- The timers set, fired and pending over a sequence of calls and rounds of src/smart_timer.cpp.
use smart_routine.Prelude.{
  ℕ, ◌+◌, ◌≤◌, ◌≡◌, refl, ap, inl, inr, Bool, Bool-cases, List, [], ◌∷◌, ◌++◌, arith, if◌then◌else◌,
  ltb,
}
use smart_routine.Timer.{
  TimerItem, SmartTimer, uint64_max, new, emplace, set_timer, nearest, round, Event, set, tick,
  step, run,
}
use smart_routine.Timer.Due.{filter, due, pending, IsValid, ended, round_lem, set_timer-IsValid}

-- How many items pass the test.
abbrev pub count : (TimerItem → Bool) → List TimerItem → ℕ
count p [] = 0
count p (x ∷ xs) = (if p x then 1 else 0) + count p xs

abbrev pub timers_set : List Event → List TimerItem
timers_set [] = []
timers_set (set item ∷ es) = item ∷ timers_set es
timers_set (tick now ∷ es) = timers_set es

-- A time of the code's fits in 64 bits.
pub data IsFitting : List Event → Type 0 where
  no_event : IsFitting []
  setting :
      {item : TimerItem} {es : List Event}
      → item.timestamp ≤ uint64_max
      → IsFitting es
      → IsFitting (set item ∷ es)
  ticking : {now : ℕ} {es : List Event} → IsFitting es → IsFitting (tick now ∷ es)

module _ (p : TimerItem → Bool) where
  pub count-append : (xs ys : List TimerItem) → count p (xs ++ ys) ≡ count p xs + count p ys
  count-append [] ys = omega arith
  count-append (x ∷ xs) ys = omega (arith, count-append xs ys)

  pub count-emplace :
      (item : TimerItem) (xs : List TimerItem) → count p (emplace item xs) ≡ count p (item ∷ xs)
  unfolding emplace
  count-emplace item [] = refl
  count-emplace item (x ∷ xs) = elim (Bool-cases (ltb item.timestamp x.timestamp)) [
    | inl e ↦ rw e refl
    | inr e ↦ rw e (omega (arith, count-emplace item xs))
  ]

  pub count-filter :
      (now : ℕ) (xs : List TimerItem)
      → count p (filter (due now) xs) + count p (filter (pending now) xs) ≡ count p xs
  count-filter now [] = refl
  count-filter now (x ∷ xs) = elim (Bool-cases (ltb x.timestamp now)) [
    | inl e ↦ rw e (omega (arith, count-filter now xs))
    | inr e ↦ rw e (omega (arith, count-filter now xs))
  ]

  run_lem :
      {es : List Event}
      → IsFitting es
      → (t : SmartTimer) → IsValid t
      → IsValid (run es t).1
        × (count p (run es t).0 + count p (run es t).1.timer_heap
            ≡ count p (timers_set es) + count p t.timer_heap)
  unfolding run step set_timer
  run_lem no_event t v = (v, refl)
  run_lem (setting {item} {es} fits rest) t v =
      let (w, e) = run_lem rest (set_timer item t) (set_timer-IsValid item t fits v) in
      (w, omega (arith, e, count-emplace item t.timer_heap))
  run_lem (ticking {now} {es} rest) t v =
      let (fired, left, w) = round_lem now t v in
      let (w', e) = run_lem rest (round now t).1 w in
      (
        w',
        omega (
          arith,
          e,
          count-append (round now t).0 (run es (round now t).1).0,
          ap (count p) fired,
          ap (count p) left,
          count-filter now t.timer_heap,
        ),
      )

-- From the start, over any sequence of timers set and rounds of the timer thread: whatever is
-- counted, the timers fired and those still pending are together the timers that were set, each as
-- often as it was set; the pending ones are in order, and `nearest_expire_timestamp_` is the
-- earliest of their times.
pub run_all :
    (p : TimerItem → Bool) (es : List Event)
    → IsFitting es
    → IsValid (run es new).1
      × (count p (run es new).0 + count p (run es new).1.timer_heap ≡ count p (timers_set es))
unfolding new nearest
run_all p es fits =
    let (w, e) = run_lem p fits new (record { sorted = ended; nearest_at = refl }) in
    (w, omega (arith, e))
