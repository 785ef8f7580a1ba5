-- ===== src/Cluster/Lost.antt =====
-- A coroutine of the workers of src/smart_runtime.cpp whose delayed callback is overwritten.
use smart_routine.Prelude.{true, ℕ, ◌≤◌, ◌<◌, ◌^◌, ◌≡◌, refl, ◌∙◌, some, List, ==_refl, Bool}
use smart_routine.BoundedQueue.Refine.{Represents}
use smart_routine.Runtime.{Coro}
use smart_routine.Thread.{DelayCallback}
use smart_routine.Scheduler.{
  in_yield, user, fetch, set_callback, yield_to, switch_to, arrive, leave,
}
use smart_routine.Scheduler.Steps.{Suspends}
use smart_routine.Scheduler.Mains.{get_task-main}
use smart_routine.Scheduler.Lost.{overwritten-Balance}
use smart_routine.Cluster.{
  Cluster, settled, yield_took, worker, put, Transition, on_watched, Reached, orderly,
}
use smart_routine.Cluster.Phases.{suspended-PhaseInv}
use smart_routine.Cluster.Shared.{all_alive, Shared}
use smart_routine.Cluster.Moves.{put-Shared}
use smart_routine.Cluster.Safety.{Reached-Shared, Transition-Shared, settled_view}

-- Any number of transitions that resume only coroutines that are watched.
pub data Onward (batch n : ℕ) (k : Cluster) : Cluster → Type 0 where
  here : Onward batch n k k
  further :
      {k' k'' : Cluster}
      → Onward batch n k k'
      → (t : Transition batch n k' k'') → on_watched t ≡ true
      → Onward batch n k k''

Onward-Shared :
    {batch n : ℕ} {lost : Coro → Bool} {k k' : Cluster}
    → Onward batch n k k'
    → Shared batch n lost k
    → Shared batch n lost k'
Onward-Shared here s = s
Onward-Shared (further o t ok) s = Transition-Shared t ok (Onward-Shared o s)

-- Worker `i` after the coroutine on it has suspended itself with `cb` and tasks have been taken.
abbrev pub suspended : ℕ → ℕ → DelayCallback → Cluster → Cluster
suspended batch i cb k =
    let w = set_callback (some cb) (worker i k) in
    put i (yield_took (fetch batch w).0) (fetch batch w).1 k

-- A coroutine that has left through `yield` and goes on in it finds the delayed callback of the one
-- before it, and does not run it.
pub yield_goes-pending :
    (i : ℕ) (k : Cluster) (d : Coro) (cb : DelayCallback)
    → (k.context d).point ≡ in_yield
    → (k.thread i).delay_callback ≡ some cb
    → (let k' = put i settled (yield_to (some d) (worker i k)) k in
        (k'.phase i ≡ settled)
        × (k'.control i ≡ user)
        × ((k'.thread i).current_coro ≡ d)
        × ((k'.thread i).delay_callback ≡ some cb))
unfolding put yield_to switch_to arrive leave
yield_goes-pending i k d cb left pending = rw (==_refl i, left) (refl, refl, refl, pending)

-- Lost for ever, on any number of workers whose coroutines return where they started, in every
-- order of their transitions in which the epoll thread resumes only coroutines that are watched (no
-- epoll_wait is interrupted, and no event is handled before `set_watching`), and for a batch size
-- from 1 to the length of the threads' queues: when on a worker a user function runs while the
-- delayed callback with which another coroutine `a` suspended itself is pending (as `yield` leaves
-- it when it goes on to a coroutine that has left through `yield`), and then suspends its coroutine
-- too, then from there on `a` is at no place from which it can run: on no worker, in no queue, not
-- on the shared list, in no delayed callback and not watched.
pub suspended-loses :
    {batch n queue_length : ℕ} {k k' : Cluster} {cb cb' : DelayCallback} (i : ℕ) (a : Coro)
    → 0 < batch
    → batch ≤ queue_length
    → queue_length < 2 ^ 32
    → (r : Reached batch n queue_length k) → orderly r ≡ true
    → i < n
    → k.phase i ≡ settled
    → k.control i ≡ user
    → (k.thread i).delay_callback ≡ some cb
    → Suspends a cb
    → Suspends (k.thread i).current_coro cb'
    → Onward batch n (suspended batch i cb' k) k'
    → (xs : ℕ → List Coro) × ((j : ℕ) → j < n → Represents (k'.thread j).task_queue (xs j))
      × (all_alive n xs k' a ≡ 0)
unfolding set_callback fetch
suspended-loses {batch} {n} {k = k} {cb' = cb'} i a p fits small r ok lt phase running pending s s'
      on =
    let shared = Reached-Shared p fits small r ok in
    let v = settled_view shared i lt phase in
    let w = set_callback (some cb') (worker i k) in
    let lost =
      put-Shared shared i lt (yield_took (fetch batch w).0) (fetch batch w).1
        (suspended-PhaseInv v running s' (overwritten-Balance a v running pending s s'))
        (get_task-main batch w.thread w.runtime ∙ (shared.own i lt).main) in
    let after = Onward-Shared on lost in
    (after.xs, λ j le. (after.own j le).queued, (after.whole.gone a (==_refl a)).0)
