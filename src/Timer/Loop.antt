-- ===== src/Timer/Loop.antt =====
-- The whole of `SmartTimer::run` in src/smart_timer.cpp, which `run_timer` of src/smart_runtime.cpp
-- calls on the timer thread.
use smart_routine.Prelude.{ℕ, Option, none, some, List, [], ◌∷◌, ◌++◌}
use smart_routine.Timer.{TimerItem, SmartTimer, set_timer, round}

-- What `epoll_wait` returns on an instance that watches nothing: 0 after a millisecond, or -1 with
-- EINTR, or with another error.
pub data Slept : Type 0 where
  timeout interrupted broken : Slept

-- A turn of the loop: the timers that the other threads have set since the last one, what
-- `epoll_wait` returns, and the time.
pub record Turn : Type 0 where
  pub timers : List TimerItem
  pub slept : Slept
  pub now : ℕ

unfoldable pub set_all : List TimerItem → SmartTimer → SmartTimer
set_all [] t = t
set_all (item ∷ items) t = set_all items (set_timer item t)

-- The items whose callbacks are called, in order, and the state, or `none` once `run` has returned.
unfoldable pub loop : List Turn → SmartTimer → List TimerItem × Option SmartTimer
unfolding set_all
loop [] t = ([], some t)
loop (turn ∷ turns) t =
    let set_before = set_all turn.timers t in
    let (fired, t') = round turn.now set_before in
    let (later, end) = loop turns t' in
    elim turn.slept [
      | timeout ↦ (fired ++ later, end)
      | interrupted ↦ (fired ++ later, end)
      | broken ↦ ([], none)
    ]

-- `created` is what `epoll_create` returns; `none` is -1.
unfoldable pub run_timer : Option ℕ → List Turn → SmartTimer → List TimerItem × Option SmartTimer
unfolding loop
run_timer none turns t = ([], none)
run_timer (some fd) turns t = loop turns t
