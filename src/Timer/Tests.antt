-- ===== src/Timer/Tests.antt =====
-- src/smart_timer.cpp at small inputs.
use smart_routine.Prelude.{◌<◌, ◌≡◌, refl, Bool, ◌&&◌, none, some, List, [], ◌∷◌, arith, ltb}
use smart_routine.Timer.{
  TimerItem, SmartTimer, new, get_timestamp, set_timer, set_timer_until, emplace, nearest, expire,
  round,
}
use smart_routine.Timer.Due.{filter, due, pending, IsValid, ended, round_lem, set_timer-IsValid}
use smart_routine.Timer.Bag.{count}
use smart_routine.Timer.Loop.{Turn, timeout, interrupted, set_all, loop, run_timer}
use smart_routine.Timer.OnTime.{
  no_item, one_item, last_turn, one_turn, timers_of, run_timer-on_time,
}
use smart_routine.Timer.Clock.{until_next_second-refused}

abbrev early : TimerItem
early = record { callback = 1; args = 0; timestamp = 10 }

abbrev late : TimerItem
late = record { callback = 2; args = 0; timestamp = 20 }

abbrev both : SmartTimer
both = set_timer early (set_timer late new)

round_runs : (round 15 both).0 ≡ early ∷ []
unfolding round set_timer emplace new nearest expire
round_runs = refl

new-IsValid : IsValid new
unfolding new nearest
new-IsValid = record { sorted = ended; nearest_at = refl }

round_lem_example :
    ((round 15 both).0 ≡ filter (due 15) both.timer_heap)
    × ((round 15 both).1.timer_heap ≡ filter (pending 15) both.timer_heap)
    × IsValid (round 15 both).1
round_lem_example = round_lem 15 both (
    set_timer-IsValid early (set_timer late new) (omega arith)
      (set_timer-IsValid late new (omega arith) new-IsValid))

abbrev is_early : TimerItem → Bool
is_early item = ltb item.timestamp 15

-- Two timers are set, then the first again; at 15 the early ones have fired.
abbrev turns : List Turn
turns =
    record { timers = late ∷ early ∷ []; slept = timeout; now = 12 }
    ∷ record { timers = early ∷ []; slept = interrupted; now = 15 }
    ∷ []

run_timer-on_time_example :
    (t : SmartTimer) × ((run_timer (some 4) turns new).1 ≡ some t)
    × IsValid t
    × (count is_early (run_timer (some 4) turns new).0
        ≡ count (λ x. is_early x && due 15 x) (timers_of turns))
    × (count is_early t.timer_heap ≡ count (λ x. is_early x && pending 15 x) (timers_of turns))
run_timer-on_time_example = run_timer-on_time 4 15 turns is_early (
    one_turn (λ e. cc) (omega arith) (one_item (omega arith) (one_item (omega arith) no_item))
      (last_turn (λ e. cc) refl (one_item (omega arith) no_item)))

turns_fire : (run_timer (some 4) turns new).0 ≡ early ∷ early ∷ []
unfolding run_timer loop set_all round set_timer emplace new nearest expire
turns_fire = refl

-- Without an epoll instance no timer fires.
no_instance_no_timers : (run_timer none turns new).0 ≡ []
unfolding run_timer
no_instance_no_timers = refl

until_next_second-refused_example :
    (get_timestamp (record { sec = 1001; usec = 0 })
      < get_timestamp (record { sec = 1000; usec = 999999 }))
    × (set_timer_until 1 0
          (record { sec = 1001; usec = 0 })
          (record { sec = 1000; usec = 999999 })
          new
        ≡ none)
until_next_second-refused_example = until_next_second-refused 1000 1 0 new (omega arith)
