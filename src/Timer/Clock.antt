-- ===== src/Timer/Clock.antt =====
-- The time scale of src/smart_timer.cpp: `get_timestamp` adds microseconds to milliseconds.
use smart_routine.Prelude.{ℕ, ◌+◌, ◌*◌, ◌^◌, ◌<◌, ◌≡◌, refl, none, arith, lt→ltb, u64}
use smart_routine.Timer.{SmartTimer, get_timestamp, set_timer_until}

-- The timestamps run backwards at the end of every second: the time 999999 microseconds past a
-- second has a later timestamp than the next second, so a timer that is set until that second is
-- refused although it lies ahead.
pub until_next_second-refused :
    (s callback args : ℕ) (t : SmartTimer)
    → s < 2 ^ 40
    → (get_timestamp (record { sec = s + 1; usec = 0 })
        < get_timestamp (record { sec = s; usec = 999999 }))
      × (set_timer_until callback args
            (record { sec = s + 1; usec = 0 })
            (record { sec = s; usec = 999999 })
            t
          ≡ none)
unfolding get_timestamp set_timer_until
until_next_second-refused s callback args t small =
    let before : u64 ((s + 1) * 1000 + 0) < u64 (s * 1000 + 999999) = omega arith in
    (before, rw (lt→ltb _ _ before) refl)
