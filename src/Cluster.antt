-- ===== src/Cluster.antt =====
-- The worker threads of src/smart_runtime.cpp beside each other, over one shared list: each is a
-- worker of src/smart_thread.cpp, and a coroutine can go on on another worker than before.
-- A transition has at most one critical section of the shared list: a worker that takes tasks, in a
-- round of `main_loop` or in `yield`, goes on to the one it got in a transition of its own, which
-- also runs the delayed callback.
mod Tests
pub mod Sums
pub mod Phases
pub mod Shared
pub mod Moves
pub mod Safety
pub mod Elsewhere
pub mod Lost
use smart_routine.Prelude.{
  count, ℕ, zero, suc, ◌<◌, ◌≡◌, Bool, true, false, Option, some, List, [], ◌==◌, ltb, ◌&&◌,
  if◌then◌else◌,
}
use smart_routine.Runtime.{Coro, SmartRuntime}
use smart_routine.Thread
use smart_routine.Thread.{SmartThread, DelayCallback, destroy_coro}
use smart_routine.Scheduler.{
  World, Control, waiting, looping, Point, runner, in_yield, in_main_loop, CoroContext, update,
  user, fetch, set_callback, turn_to, yield_to, smart_routine_start_outside, resume_coro,
}
use smart_routine.Scheduler.Steps.{Step, begin, return, start, Suspends}

-- Whether a worker is between taking tasks, with what `get_task` returned, and going on.
pub data Phase : Type 0 where
  settled : Phase
  round_took yield_took : Option Coro → Phase

-- `threads_` with what each does, its `errno`, and what the workers share. `home` is the `tls_st`
-- of each `coro_runner`: the worker on which the coroutine started.
pub record Cluster : Type 0 where
  pub thread : ℕ → SmartThread
  pub control : ℕ → Control
  pub phase : ℕ → Phase
  pub errno : ℕ → ℕ
  pub home : Coro → ℕ
  pub runtime : SmartRuntime
  pub context : Coro → CoroContext
  pub watched : List Coro
  pub destroyed : List Coro
  pub next_coro : Coro

-- What worker `i` sees.
abbrev pub worker : ℕ → Cluster → World
worker i k = record {
  thread = k.thread i;
  runtime = k.runtime;
  control = k.control i;
  context = k.context;
  errno = k.errno i;
  watched = k.watched;
  destroyed = k.destroyed;
  next_coro = k.next_coro;
}

-- `coro_runner` reads `tls_smart_thread` once, when the coroutine starts.
unfoldable pub runs_at : Point → ℕ → Coro → (Coro → ℕ) → Coro → ℕ
runs_at runner i c home = update home c i
runs_at in_yield i c home = home
runs_at in_main_loop i c home = home

-- The workers after worker `i` has gone on to `w`.
unfoldable pub put : ℕ → Phase → World → Cluster → Cluster
unfolding runs_at
put i phase w k =
    let c = w.thread.current_coro in
    record {
      thread = update k.thread i w.thread;
      control = update k.control i w.control;
      phase = update k.phase i phase;
      errno = update k.errno i w.errno;
      home = runs_at (k.context c).point i c k.home;
      runtime = w.runtime;
      context = w.context;
      watched = w.watched;
      destroyed = w.destroyed;
      next_coro = w.next_coro;
    }

-- The end of `coro_runner` on worker `i`, for a coroutine that started on another worker: it hands
-- the coroutine to that worker's delayed callback. That it goes on in that worker's `main_loop` is
-- not part of this.
unfoldable pub return_elsewhere : ℕ → Cluster → Cluster
return_elsewhere i k =
    let c = (k.thread i).current_coro in
    let h = k.home c in
    record k {
      thread = update k.thread h (record (k.thread h) { delay_callback = some (destroy_coro c) });
    }

-- `n` workers before `init`; the main coroutine of worker `i` has the name `i`.
unfoldable pub start_up : ℕ → ℕ → Cluster
unfolding Thread.new
start_up n queue_length = record {
  thread = λ i. Thread.new queue_length i;
  control = λ i. waiting;
  phase = λ i. settled;
  errno = λ i. 0;
  home = λ c. 0;
  runtime = record { task_list = [] };
  context = λ c. record { point = runner; saved_errno = 0 };
  watched = [];
  destroyed = [];
  next_coro = n;
}

unfoldable pub is_return : {batch : ℕ} {w w' : World} → Step batch w w' → Bool
is_return (return _) = true
is_return _ = false

unfoldable pub in_one_step : {batch : ℕ} {w w' : World} → Step batch w w' → Bool
in_one_step (begin _ _) = true
in_one_step (return _) = true
in_one_step (start _) = true
in_one_step _ = false

-- A transition of worker `i`; a coroutine returns on the worker where it started. The last two are
-- those of other threads, which touch only what the workers share; `resumed` is also for a coroutine
-- that is not watched, as `resume` is for one worker.
pub data Transition (batch n : ℕ) (k : Cluster) : Cluster → Type 0 where
  act :
      {w : World} (i : ℕ)
      → i < n
      → k.phase i ≡ settled
      → (s : Step batch (worker i k) w) → in_one_step s ≡ true
      → (is_return s ≡ true → k.home (k.thread i).current_coro ≡ i)
      → Transition batch n k (put i settled w k)
  round_takes :
      (i : ℕ)
      → i < n
      → k.phase i ≡ settled
      → k.control i ≡ looping
      → Transition batch n k
          (put i (round_took (fetch batch (worker i k)).0) (fetch batch (worker i k)).1 k)
  round_goes :
      {task : Option Coro} (i : ℕ)
      → i < n
      → k.phase i ≡ round_took task
      → Transition batch n k (put i settled (turn_to task (worker i k)) k)
  yield_takes :
      {cb : DelayCallback} (i : ℕ)
      → i < n
      → k.phase i ≡ settled
      → k.control i ≡ user
      → Suspends (k.thread i).current_coro cb
      → Transition batch n k (
          put i
            (yield_took (fetch batch (set_callback (some cb) (worker i k))).0)
            (fetch batch (set_callback (some cb) (worker i k))).1
            k)
  yield_goes :
      {task : Option Coro} (i : ℕ)
      → i < n
      → k.phase i ≡ yield_took task
      → Transition batch n k (put i settled (yield_to task (worker i k)) k)
  started_outside :
      (i : ℕ)
      → i < n
      → Transition batch n k (put i (k.phase i) (smart_routine_start_outside (worker i k)) k)
  resumed :
      (i : ℕ) (c : Coro)
      → i < n
      → Transition batch n k (put i (k.phase i) (resume_coro c (worker i k)) k)

-- A coroutine that the transition resumes is watched.
unfoldable pub on_watched : {batch n : ℕ} {k k' : Cluster} → Transition batch n k k' → Bool
on_watched {k = k} (resumed i c lt) = ltb 0 (count c k.watched)
on_watched _ = true

pub data Reached (batch n queue_length : ℕ) : Cluster → Type 0 where
  started : Reached batch n queue_length (start_up n queue_length)
  then_next :
      {k k' : Cluster}
      → Reached batch n queue_length k
      → Transition batch n k k'
      → Reached batch n queue_length k'

-- The epoll thread has resumed only coroutines that were watched.
unfoldable pub orderly :
    {batch n queue_length : ℕ} {k : Cluster} → Reached batch n queue_length k → Bool
unfolding on_watched
orderly started = true
orderly (then_next r t) = orderly r && on_watched t
