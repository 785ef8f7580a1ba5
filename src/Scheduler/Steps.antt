-- ===== src/Scheduler/Steps.antt =====
-- The transitions of one worker thread of src/smart_thread.cpp, in any order that the user
-- functions, the epoll thread and other pthreads choose.
use smart_routine.Prelude.{count, ℕ, ◌≡◌, some, Bool, true, ◌&&◌, ltb}
use smart_routine.Runtime.{Coro, wait_on_task_list}
use smart_routine.Thread.{
  DelayCallback, add_back_to_queue, enable_epoll_reading, enable_epoll_writing,
}
use smart_routine.Scheduler.{
  World, waiting, looping, user, yield, turn, finish, smart_routine_start,
  smart_routine_start_outside, resume_coro, boot,
}

-- What a coroutine suspends itself with: `smart_routine_yield`, and the reads, accepts, writes and
-- connects of smart_routine.cpp.
pub data Suspends (current : Coro) : DelayCallback → Type 0 where
  requeue : Suspends current (add_back_to_queue current)
  reading : Suspends current (enable_epoll_reading current)
  writing : Suspends current (enable_epoll_writing current)

pub data Step (batch : ℕ) (w : World) : World → Type 0 where
  begin :
      w.control ≡ waiting
      → wait_on_task_list w.runtime ≡ some 0
      → Step batch w (record w { control = looping })
  round : w.control ≡ looping → Step batch w (turn batch w)
  suspend :
      {cb : DelayCallback}
      → w.control ≡ user
      → Suspends w.thread.current_coro cb
      → Step batch w (yield batch cb w)
  return : w.control ≡ user → Step batch w (finish w)
  start : w.control ≡ user → Step batch w (smart_routine_start w)
  start_outside : Step batch w (smart_routine_start_outside w)
  -- A readiness callback. The epoll thread also calls it for a coroutine that is not watched: after
  -- an interrupted epoll_wait for the items of the last batch, and for an event that comes between
  -- `epoll_ctl` and `set_watching` of watch_event.
  resume : (c : Coro) → Step batch w (resume_coro c w)

-- A coroutine that the transition resumes is watched.
unfoldable pub on_watched : {batch : ℕ} {w w' : World} → Step batch w w' → Bool
on_watched {w = w} (resume c) = ltb 0 (count c w.watched)
on_watched _ = true

-- Worlds reachable from a worker whose queue has `queue_length` slots.
pub data Reach (batch queue_length : ℕ) (main : Coro) : World → Type 0 where
  booted : Reach batch queue_length main (boot queue_length main)
  later :
      {w w' : World}
      → Reach batch queue_length main w
      → Step batch w w'
      → Reach batch queue_length main w'

-- The epoll thread has resumed only coroutines that were watched.
unfoldable pub orderly :
    {batch queue_length : ℕ} {main : Coro} {w : World} → Reach batch queue_length main w → Bool
unfolding on_watched
orderly booted = true
orderly (later r st) = orderly r && on_watched st
