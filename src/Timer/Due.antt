-- ===== src/Timer/Due.antt =====
-- What a round of src/smart_timer.cpp fires and keeps.
use smart_routine.Prelude.{
  ℕ, ◌≤◌, ◌≡◌, refl, ap, sym, inl, inr, Bool, false, not, Bool-cases, List, [], ◌∷◌, arith,
  if◌then◌else◌, ltb, ltb→lt, ltb→le, le→ltb,
}
use smart_routine.Timer.{
  TimerItem, SmartTimer, uint64_max, emplace, set_timer, expire, nearest, round,
}

abbrev pub filter : (TimerItem → Bool) → List TimerItem → List TimerItem
filter p [] = []
filter p (x ∷ xs) = if p x then x ∷ filter p xs else filter p xs

abbrev pub due : ℕ → TimerItem → Bool
due now item = ltb item.timestamp now

abbrev pub pending : ℕ → TimerItem → Bool
pending now item = not (due now item)

-- No item is before `n`, and each is at most as late as the next.
pub data IsSorted : ℕ → List TimerItem → Type 0 where
  ended : {n : ℕ} → IsSorted n []
  ordered :
      {n : ℕ} {x : TimerItem} {xs : List TimerItem}
      → n ≤ x.timestamp
      → IsSorted x.timestamp xs
      → IsSorted n (x ∷ xs)

-- The items are in order and `nearest_expire_timestamp_` is the first one's time.
pub record IsValid (t : SmartTimer) : Type 0 where
  pub sorted : IsSorted 0 t.timer_heap
  pub nearest_at : t.nearest_expire_timestamp ≡ nearest t.timer_heap

weaken : {m n : ℕ} {xs : List TimerItem} → m ≤ n → IsSorted n xs → IsSorted m xs
weaken le ended = ended
weaken le (ordered p s) = ordered (omega arith) s

none_due :
    (now : ℕ) {n : ℕ} {xs : List TimerItem}
    → now ≤ n
    → IsSorted n xs
    → (filter (due now) xs ≡ []) × (filter (pending now) xs ≡ xs)
none_due now le ended = (refl, refl)
none_due now le (ordered {x = x} p s) =
    let late : ltb x.timestamp now ≡ false = le→ltb x.timestamp now (omega arith) in
    let (nothing, all) = none_due now (omega arith) s in (rw late nothing, rw late (ap (◌∷◌ x) all))

expire_lem :
    (now : ℕ) {n : ℕ} {xs : List TimerItem}
    → IsSorted n xs
    → (expire now xs ≡ (filter (due now) xs, filter (pending now) xs))
      × IsSorted n (filter (pending now) xs)
unfolding expire
expire_lem now ended = (refl, ended)
expire_lem now (ordered {x = x} {xs = xs} p s) = elim (Bool-cases (ltb x.timestamp now)) [
  | inl e ↦ let (same, left) = expire_lem now s in (rw (e, same) refl, rw e (weaken p left))
  | inr e ↦
      let (nothing, all) = none_due now (ltb→le x.timestamp now e) s in
      (rw (e, nothing, all) refl, rw (e, all) (ordered p s))
]

from_nearest : {n : ℕ} {xs : List TimerItem} → IsSorted n xs → IsSorted (nearest xs) xs
unfolding nearest
from_nearest ended = ended
from_nearest (ordered p s) = ordered (omega arith) s

-- A round at the time `now` fires exactly the timers set to a time before `now`, in the order of
-- their times, and keeps the others in order: that it looks at `nearest_expire_timestamp_` first
-- makes no timer late, and the invariant of that field is kept.
pub round_lem :
    (now : ℕ) (t : SmartTimer)
    → IsValid t
    → ((round now t).0 ≡ filter (due now) t.timer_heap)
      × ((round now t).1.timer_heap ≡ filter (pending now) t.timer_heap)
      × IsValid (round now t).1
unfolding round
round_lem now t v = elim (Bool-cases (ltb t.nearest_expire_timestamp now)) [
  | inl e ↦
      let (same, left) = expire_lem now v.sorted in
      rw (e, same) (refl, refl, record { sorted = left; nearest_at = refl })
  | inr e ↦
      let late : now ≤ nearest t.timer_heap =
        omega (arith, ltb→le t.nearest_expire_timestamp now e, v.nearest_at) in
      let (nothing, all) = none_due now late (from_nearest v.sorted) in
      rw e (sym nothing, sym all, v)
]

emplace-IsSorted :
    (item : TimerItem) {n : ℕ} {xs : List TimerItem}
    → n ≤ item.timestamp
    → IsSorted n xs
    → IsSorted n (emplace item xs)
unfolding emplace
emplace-IsSorted item le ended = ordered le ended
emplace-IsSorted item le (ordered {x = x} {xs = xs} p s) =
    elim (Bool-cases (ltb item.timestamp x.timestamp)) [
      | inl e ↦ rw e (ordered le (ordered (omega (arith, ltb→lt item.timestamp x.timestamp e)) s))
      | inr e ↦ rw e (ordered p (emplace-IsSorted item (ltb→le item.timestamp x.timestamp e) s))
    ]

nearest-emplace :
    (item : TimerItem) (xs : List TimerItem)
    → item.timestamp ≤ uint64_max
    → (if ltb item.timestamp (nearest xs) then item.timestamp else nearest xs)
      ≡ nearest (emplace item xs)
unfolding nearest emplace
nearest-emplace item [] fits = ground arith
nearest-emplace item (x ∷ xs) fits = elim (Bool-cases (ltb item.timestamp x.timestamp)) [
  | inl e ↦ rw e refl
  | inr e ↦ rw e refl
]

pub set_timer-IsValid :
    (item : TimerItem) (t : SmartTimer)
    → item.timestamp ≤ uint64_max
    → IsValid t
    → IsValid (set_timer item t)
unfolding set_timer
set_timer-IsValid item t fits v = record {
  sorted = emplace-IsSorted item (omega arith) v.sorted;
  nearest_at = rw v.nearest_at (nearest-emplace item t.timer_heap fits);
}
