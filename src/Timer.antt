-- ===== src/Timer.antt =====
-- src/smart_timer.cpp with include/smart_timer.h and include/timer_item.h: timers that the timer
-- thread fires. What `gettimeofday` returns is an argument. The priority queue is the list of its
-- items, the earliest first; the order of items with one timestamp is that of their insertion,
-- which std::priority_queue leaves open. Each critical section of `timer_heap_lock_` is one step.
pub mod Due
pub mod Bag
pub mod Clock
pub mod Loop
pub mod OnTime
mod Tests
use smart_routine.Prelude.{
  ℕ, ◌+◌, ◌-◌, ◌*◌, ◌^◌, Bool, true, false, Option, none, some, List, [], ◌∷◌, ◌++◌, if◌then◌else◌,
  ltb, u64,
}

-- A callback and its argument are named by numbers.
pub record TimerItem : Type 0 where
  pub callback : ℕ
  pub args : ℕ
  pub timestamp : ℕ

-- `struct timeval`, after the epoch.
pub record Timeval : Type 0 where
  pub sec : ℕ
  pub usec : ℕ

pub record SmartTimer : Type 0 where
  pub timer_heap : List TimerItem
  pub nearest_expire_timestamp : ℕ

abbrev pub uint64_max : ℕ
uint64_max = 2 ^ 64 - 1

-- The constructor.
unfoldable pub new : SmartTimer
new = record { timer_heap = []; nearest_expire_timestamp = uint64_max }

unfoldable pub get_timestamp : Timeval → ℕ
get_timestamp tv = u64 (tv.sec * 1000 + tv.usec)

-- `timer_heap_.emplace`, by `TimerComp`.
unfoldable pub emplace : TimerItem → List TimerItem → List TimerItem
emplace item [] = item ∷ []
emplace item (top ∷ heap) =
    if ltb item.timestamp top.timestamp then item ∷ top ∷ heap else top ∷ emplace item heap

unfoldable pub set_timer : TimerItem → SmartTimer → SmartTimer
unfolding emplace
set_timer item t = record {
  timer_heap = emplace item t.timer_heap;
  nearest_expire_timestamp =
      if ltb item.timestamp t.nearest_expire_timestamp
      then item.timestamp
      else t.nearest_expire_timestamp;
}

-- `now` is what `gettimeofday` returns. The result 0 is left out.
unfoldable pub set_timer_after : ℕ → ℕ → Timeval → Timeval → SmartTimer → SmartTimer
unfolding get_timestamp set_timer
set_timer_after callback args expire_time_duration now t =
    let tp =
      u64 (u64 (get_timestamp now + expire_time_duration.sec * 1000) + expire_time_duration.usec) in
    set_timer (record { callback = callback; args = args; timestamp = tp }) t

-- `none` is the result -1.
unfoldable pub set_timer_until : ℕ → ℕ → Timeval → Timeval → SmartTimer → Option SmartTimer
unfolding get_timestamp set_timer
set_timer_until callback args expire_time_point now t =
    let tp = get_timestamp expire_time_point in
    if ltb tp (get_timestamp now)
    then none
    else some (set_timer (record { callback = callback; args = args; timestamp = tp }) t)

-- The inner loop of `run`: the items moved to `timeout_list_`, and the heap left.
unfoldable pub expire : ℕ → List TimerItem → List TimerItem × List TimerItem
expire now [] = ([], [])
expire now (top ∷ heap) =
    let rest = expire now heap in
    if ltb top.timestamp now then (top ∷ rest.0, rest.1) else ([], top ∷ heap)

unfoldable pub nearest : List TimerItem → ℕ
nearest [] = uint64_max
nearest (top ∷ heap) = top.timestamp

-- One round of the loop of `run` at the time `now`: the items whose callbacks are called, in
-- order. `timeout_list_` is empty before and after it.
unfoldable pub round : ℕ → SmartTimer → List TimerItem × SmartTimer
unfolding expire nearest
round now t =
    let (timeout_list, heap) = expire now t.timer_heap in
    if ltb t.nearest_expire_timestamp now
    then (timeout_list, record { timer_heap = heap; nearest_expire_timestamp = nearest heap })
    else ([], t)

-- What the timer thread and the others do, in the order in which they hold the lock.
pub data Event : Type 0 where
  set : TimerItem → Event
  tick : ℕ → Event

unfoldable pub step : Event → SmartTimer → List TimerItem × SmartTimer
unfolding set_timer round
step (set item) t = ([], set_timer item t)
step (tick now) t = round now t

-- All that is fired by a sequence of events, and the state after it.
unfoldable pub run : List Event → SmartTimer → List TimerItem × SmartTimer
unfolding step
run [] t = ([], t)
run (e ∷ es) t = let (fired, t') = step e t in let (later, t'') = run es t' in (fired ++ later, t'')
