-- ===== src/Timer/OnTime.antt =====
-- When the timers of src/smart_timer.cpp fire.
use smart_routine.Prelude.{
  ℕ, ◌+◌, ◌≤◌, ◌<◌, ◌≡◌, ◌≢◌, refl, ap, ◌∙◌, inl, inr, Bool, true, false, ◌&&◌, not, Bool-cases,
  Option, some, List, [], ◌∷◌, ◌++◌, arith,
}
use smart_routine.Timer.{TimerItem, SmartTimer, uint64_max, new, set_timer, nearest, round}
use smart_routine.Timer.Due.{filter, due, pending, IsValid, ended, round_lem, set_timer-IsValid}
use smart_routine.Timer.Bag.{count, count-append, count-emplace, count-filter}
use smart_routine.Timer.Loop.{Slept, timeout, interrupted, broken, Turn, set_all, loop, run_timer}

pub data AllFit : List TimerItem → Type 0 where
  no_item : AllFit []
  one_item :
      {item : TimerItem} {items : List TimerItem}
      → item.timestamp ≤ uint64_max
      → AllFit items
      → AllFit (item ∷ items)

-- Turns of the loop without an error of `epoll_wait`, of which the last is at the time `limit` and
-- none is later; the times set fit in 64 bits.
pub data RunsTo (limit : ℕ) : List Turn → Type 0 where
  last_turn :
      {turn : Turn}
      → turn.slept ≢ broken
      → turn.now ≡ limit
      → AllFit turn.timers
      → RunsTo limit (turn ∷ [])
  one_turn :
      {turn : Turn} {turns : List Turn}
      → turn.slept ≢ broken
      → turn.now ≤ limit
      → AllFit turn.timers
      → RunsTo limit turns
      → RunsTo limit (turn ∷ turns)

-- The timers set in the turns.
abbrev pub timers_of : List Turn → List TimerItem
timers_of [] = []
timers_of (turn ∷ turns) = turn.timers ++ timers_of turns

set_all_lem :
    {items : List TimerItem}
    → AllFit items
    → (t : SmartTimer) → IsValid t
    → IsValid (set_all items t)
      × ((q : TimerItem → Bool)
          → count q (set_all items t).timer_heap ≡ count q items + count q t.timer_heap)
unfolding set_all set_timer
set_all_lem no_item t v = (v, λ q. omega arith)
set_all_lem (one_item {item} fits rest) t v =
    let (w, e) = set_all_lem rest (set_timer item t) (set_timer-IsValid item t fits v) in
    (w, λ q. omega (arith, e q, count-emplace q item t.timer_heap))

count-apart :
    (q r : TimerItem → Bool)
    → ((x : TimerItem) → r x ≡ true → q x ≡ false)
    → (xs : List TimerItem) → count q (filter r xs) ≡ 0
count-apart q r apart [] = refl
count-apart q r apart (x ∷ xs) = elim (Bool-cases (r x)) [
  | inl e ↦ rw (e, apart x e) (omega (arith, count-apart q r apart xs))
  | inr e ↦ rw e (count-apart q r apart xs)
]

-- A test of timers that are due at `limit`, and of those that are not.
abbrev OnlyDue : ℕ → (TimerItem → Bool) → Type 0
OnlyDue limit q = (x : TimerItem) → q x ≡ true → x.timestamp < limit

abbrev OnlyPending : ℕ → (TimerItem → Bool) → Type 0
OnlyPending limit q = (x : TimerItem) → q x ≡ true → limit ≤ x.timestamp

-- A turn, from the timers set before it.
record Turned (now limit : ℕ) (t : SmartTimer) : Type 0 where
  valid : IsValid (round now t).1
  all :
      (q : TimerItem → Bool)
      → count q (round now t).0 + count q (round now t).1.timer_heap ≡ count q t.timer_heap
  none_late :
      now ≡ limit
      → (q : TimerItem → Bool) → OnlyDue limit q
      → count q (round now t).1.timer_heap ≡ 0
  none_early : (q : TimerItem → Bool) → OnlyPending limit q → count q (round now t).0 ≡ 0

round-Turned : (now limit : ℕ) (t : SmartTimer) → IsValid t → now ≤ limit → Turned now limit t
round-Turned now limit t v le =
    let (fired, left, w) = round_lem now t v in
    record {
      valid = w;
      all = λ q.
          omega (arith, ap (count q) fired, ap (count q) left, count-filter q now t.timer_heap);
      none_late = λ same q only.
          ap (count q) left
          ∙ count-apart q (pending now)
              (λ x late. elim (Bool-cases (q x)) [
                | inl yes_q ↦ absurd (ground (arith, only x yes_q))
                | inr no_q ↦ no_q
              ])
              t.timer_heap;
      none_early = λ q only.
          ap (count q) fired
          ∙ count-apart q (due now)
              (λ x early. elim (Bool-cases (q x)) [
                | inl yes_q ↦ absurd (ground (arith, only x yes_q))
                | inr no_q ↦ no_q
              ])
              t.timer_heap;
    }

loop_turn :
    (items : List TimerItem) (slept : Slept) (now : ℕ) (turns : List Turn) (t : SmartTimer)
    → slept ≢ broken
    → loop (record { timers = items; slept = slept; now = now } ∷ turns) t ≡ (
        let (fired, t') = round now (set_all items t) in
        let (later, end) = loop turns t' in (fired ++ later, end))
unfolding loop
loop_turn items timeout now turns t ne = refl
loop_turn items interrupted now turns t ne = refl
loop_turn items broken now turns t ne = absurd (ne refl)

-- What the turns up to `limit` fire.
record Looped (limit : ℕ) (turns : List Turn) (t : SmartTimer) : Type 0 where
  left : SmartTimer
  goes_on : (loop turns t).1 ≡ some left
  valid : IsValid left
  all :
      (q : TimerItem → Bool)
      → count q (loop turns t).0 + count q left.timer_heap
        ≡ count q (timers_of turns) + count q t.timer_heap
  none_late : (q : TimerItem → Bool) → OnlyDue limit q → count q left.timer_heap ≡ 0
  none_early : (q : TimerItem → Bool) → OnlyPending limit q → count q (loop turns t).0 ≡ 0

loop-Looped :
    {limit : ℕ} {turns : List Turn}
    → RunsTo limit turns
    → (t : SmartTimer) → IsValid t
    → Looped limit turns t
unfolding loop
loop-Looped {limit} (last_turn {turn} ne at_limit fit) t v =
    let before = set_all turn.timers t in
    let (w, set_before) = set_all_lem fit t v in
    let r = round-Turned turn.now limit before w (omega arith) in
    let same = loop_turn turn.timers turn.slept turn.now [] t ne in
    let fired = λ (q : TimerItem → Bool).
      ap (λ (o : List TimerItem × Option SmartTimer). count q o.0) same
      ∙ count-append q (round turn.now before).0 [] in
    record {
      left = (round turn.now before).1;
      goes_on = ap (λ (o : List TimerItem × Option SmartTimer). o.1) same;
      valid = r.valid;
      all = λ q. omega (arith, fired q, r.all q, set_before q, count-append q turn.timers []);
      none_late = λ q only. r.none_late at_limit q only;
      none_early = λ q only. omega (arith, fired q, r.none_early q only);
    }
loop-Looped {limit} (one_turn {turn} {turns} ne le fit rest) t v =
    let before = set_all turn.timers t in
    let (w, set_before) = set_all_lem fit t v in
    let r = round-Turned turn.now limit before w le in
    let later = loop-Looped rest (round turn.now before).1 r.valid in
    let same = loop_turn turn.timers turn.slept turn.now turns t ne in
    let fired = λ (q : TimerItem → Bool).
      ap (λ (o : List TimerItem × Option SmartTimer). count q o.0) same
      ∙ count-append q (round turn.now before).0 (loop turns (round turn.now before).1).0 in
    record {
      left = later.left;
      goes_on = ap (λ (o : List TimerItem × Option SmartTimer). o.1) same ∙ later.goes_on;
      valid = later.valid;
      all = λ q. omega (
        arith,
        fired q,
        r.all q,
        later.all q,
        set_before q,
        count-append q turn.timers (timers_of turns),
      );
      none_late = λ q only. later.none_late q only;
      none_early = λ q only. omega (arith, fired q, r.none_early q only, later.none_early q only);
    }

count-split :
    (p r : TimerItem → Bool) (xs : List TimerItem)
    → count p xs ≡ count (λ x. p x && r x) xs + count (λ x. p x && not (r x)) xs
count-split p r [] = refl
count-split p r (x ∷ xs) = elim (Bool-cases (p x)) [
  | inl e ↦ elim (Bool-cases (r x)) [
    | inl e' ↦ rw (e, e') (omega (arith, count-split p r xs))
    | inr e' ↦ rw (e, e') (omega (arith, count-split p r xs))
  ]
  | inr e ↦ rw e (omega (arith, count-split p r xs))
]

both : (a b : Bool) → (a && b) ≡ true → b ≡ true
both true b e = e
both false b e = absurd cc

-- No timer is late, early or lost. Let epoll_create have given a descriptor, and let the loop of the
-- timer thread turn without an error of epoll_wait, on a clock that never passes the time of its
-- last turn. Then the thread goes on, and of the timers set before its turns, whatever is counted
-- and each as often as it was set, those that are set to a time before that of the last turn have
-- been fired, and the others are pending, in order and with the earliest of their times in
-- nearest_expire_timestamp_.
pub run_timer-on_time :
    (fd limit : ℕ) (turns : List Turn) (p : TimerItem → Bool)
    → RunsTo limit turns
    → (t : SmartTimer) × ((run_timer (some fd) turns new).1 ≡ some t)
      × IsValid t
      × (count p (run_timer (some fd) turns new).0
          ≡ count (λ x. p x && due limit x) (timers_of turns))
      × (count p t.timer_heap ≡ count (λ x. p x && pending limit x) (timers_of turns))
unfolding run_timer new nearest
run_timer-on_time fd limit turns p runs =
    let v = loop-Looped runs new (record { sorted = ended; nearest_at = refl }) in
    let q = λ (x : TimerItem). p x && due limit x in
    let others = λ (x : TimerItem). p x && pending limit x in
    let late = v.none_late q (λ x e. ground (arith, both (p x) (due limit x) e)) in
    let early = v.none_early others (λ x e. ground (arith, both (p x) (pending limit x) e)) in
    let split = count-split p (due limit) in
    (
      v.left,
      v.goes_on,
      v.valid,
      omega (arith, split (loop turns new).0, v.all q, late, early),
      omega (arith, split v.left.timer_heap, v.all others, late, early),
    )
