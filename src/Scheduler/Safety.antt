-- ===== src/Scheduler/Safety.antt =====
-- Where the coroutines of src/smart_thread.cpp are in every reachable world.
use smart_routine.Prelude.{
  count, both_true, true, ℕ, ◌+◌, ◌≤◌, ◌<◌, ◌^◌, ◌≡◌, ◌≢◌, refl, inl, false, ◌==◌, ==→eq, ==_refl,
  List, [], arith,
}
use smart_routine.BoundedQueue.{BoundedQueue}
use smart_routine.BoundedQueue.Refine.{Represents, new-Represents}
use smart_routine.Runtime.{Coro}
use smart_routine.BoundedQueue
use smart_routine.Thread.{
  SmartThread, DelayCallback, add_back_to_queue, enable_epoll_reading, enable_epoll_writing,
  destroy_coro,
}
use smart_routine.Thread
use smart_routine.Scheduler.{World, user, boot}
use smart_routine.Scheduler.Balance.{Outside, live, dead}
use smart_routine.Scheduler.Steps.{Reach, booted, later, orderly, on_watched}
use smart_routine.Scheduler.Arrive.{Inv, runs}
use smart_routine.Scheduler.Moves.{Step-Inv, current_alive, away_from_main}

-- A worker that has no other beside it.
abbrev pub alone : Coro → Outside
alone main = record {
  alive = λ _. 0;
  dying = λ _. 0;
  is_main = λ c. c == main;
  is_away = λ _. false;
}

boot-Inv :
    (batch queue_length : ℕ) (main : Coro)
    → 0 < batch
    → batch ≤ queue_length
    → queue_length < 2 ^ 32
    → Inv batch (alone main) (λ _. false) (boot queue_length main)
unfolding boot Thread.new BoundedQueue.new
boot-Inv batch queue_length main p fits small = record {
  balance = record {
    xs = [];
    queued = new-Represents queue_length (omega arith) small;
    some_batch = p;
    batch_fits = fits;
    once = λ c. omega arith;
    fresh = λ c old. omega arith;
    apart = λ m e. (refl, ground (arith, ==→eq _ _ e));
    own_main = ==_refl main;
    gone = λ c h. cc;
    resumable = λ c alive. absurd (omega arith);
  };
  idle = λ _. inl (refl, refl);
  main_saved = λ away. absurd (away refl);
  others_saved = λ m main other away. absurd (other (==→eq _ _ main));
}

-- The invariant holds in every world that a worker whose queue has room for a batch can reach.
pub Reach-Inv :
    {batch queue_length : ℕ} {main : Coro} {w : World}
    → 0 < batch
    → batch ≤ queue_length
    → queue_length < 2 ^ 32
    → (r : Reach batch queue_length main w) → orderly r ≡ true
    → Inv batch (alone main) (λ _. false) w
unfolding orderly
Reach-Inv {batch} {queue_length} {main} p fits small booted ok =
    boot-Inv batch queue_length main p fits small
Reach-Inv p fits small (later r st) ok =
    let (before, now) = both_true (orderly r) (on_watched st) ok in
    Step-Inv st now (Reach-Inv p fits small r before)

-- In every world reached while the epoll thread resumes only coroutines that are watched (no
-- epoll_wait is interrupted, and no event is handled before `set_watching`), for a batch size from
-- 1 to the length of the thread's queue, a coroutine is at most once at a place from which it can
-- run (running, in the thread's queue, on the shared list, in the delayed callback, or watched by
-- the epoll thread), and if it is at one it is neither destroyed nor about to be.
pub Reach-once :
    {batch queue_length : ℕ} {main : Coro} {w : World}
    → 0 < batch
    → batch ≤ queue_length
    → queue_length < 2 ^ 32
    → (r : Reach batch queue_length main w) → orderly r ≡ true
    → (c : Coro)
    → (xs : List Coro) × Represents w.thread.task_queue xs
      × (live c w (runs w.control w.thread.current_coro) xs + dead c w ≤ 1)
Reach-once p fits small r ok c =
    let b = (Reach-Inv p fits small r ok).balance in (b.xs, b.queued, omega (arith, b.once c))

-- In every world reached while the epoll thread resumes only coroutines that are watched (no
-- epoll_wait is interrupted, and no event is handled before `set_watching`), for a batch size from
-- 1 to the length of the thread's queue, the coroutine on whose stack the worker stands has not
-- been destroyed, also while a coroutine that has returned goes on in `main_loop`; and while a user
-- function runs, it is not the main coroutine's.
pub Reach-current :
    {batch queue_length : ℕ} {main : Coro} {w : World}
    → 0 < batch
    → batch ≤ queue_length
    → queue_length < 2 ^ 32
    → (r : Reach batch queue_length main w) → orderly r ≡ true
    → (count w.thread.current_coro w.destroyed ≡ 0)
      × (w.control ≡ user → w.thread.current_coro ≢ w.thread.main_coro)
Reach-current {w} p fits small r ok =
    let v = Reach-Inv p fits small r ok in (current_alive v w.control refl, away_from_main v)
