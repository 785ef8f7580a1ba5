-- ===== src/Scheduler/Drain.antt =====
-- The rounds of `main_loop` of src/smart_thread.cpp over coroutines that run to their end, and the
-- queues they use up.
use smart_routine.Prelude.{
  count, true, Bool, ℕ, zero, suc, ◌+◌, ◌≤◌, ◌<◌, ◌^◌, ◌≡◌, refl, ap, ap₂, subst, ◌∙◌, Option, none,
  List, [], ◌∷◌, ◌++◌, arith, length,
}
use smart_routine.BoundedQueue.Refine.{Represents}
use smart_routine.BoundedQueue.Unique.{Represents-unique}
use smart_routine.Runtime.{Coro}
use smart_routine.Thread.Take.{Takes, nothing, next, get_task-Got}
use smart_routine.Scheduler.{World, looping, fetch, turn, finish}
use smart_routine.Scheduler.Balance.{Outside, dead}
use smart_routine.Scheduler.Steps.{Reach, orderly}
use smart_routine.Scheduler.Arrive.{Inv}
use smart_routine.Scheduler.Safety.{Reach-Inv}
use smart_routine.Scheduler.Round.{NotStarted, Round-of, tasks}

-- `n` rounds of `main_loop`, each with a coroutine whose function makes no call of the library and
-- returns, while no other thread acts: the coroutines that ran, and the world after.
unfoldable pub serve : ℕ → ℕ → World → List Coro × World
serve batch zero w = ([], w)
serve batch (suc n) w =
    let w' = turn batch w in
    let (ran, w'') = serve batch n (finish w') in (w'.thread.current_coro ∷ ran, w'')

-- What a queue of tasks is used up to.
pub record Drained (batch : ℕ) (w : World) (all : List Coro) (out : List Coro × World)
    : Type 0 where
  pub in_order : out.0 ≡ all
  pub queue_clear : Represents out.1.thread.task_queue []
  pub list_clear : out.1.runtime.task_list ≡ []
  pub destroys : (c : Coro) → dead c out.1 ≡ dead c w + count c all
  pub watched_kept : out.1.watched ≡ w.watched
  pub next_kept : out.1.next_coro ≡ w.next_coro
  pub looping_again : out.1.control ≡ looping
  pub sleeps : (fetch batch out.1).0 ≡ none

append-empty : {A : Type 0} (xs ys : List A) → xs ++ ys ≡ [] → (xs ≡ []) × (ys ≡ [])
append-empty [] ys e = (refl, e)
append-empty (x ∷ xs) ys e = absurd (omega (arith, ap length e))

Takes-none : {all left : List Coro} {o : Option Coro} → Takes all left o → all ≡ [] → o ≡ none
Takes-none (nothing e f) h = refl
Takes-none (next d e) h = absurd (omega (arith, ap length e, ap length h))

serve-Drained :
    {batch : ℕ} {env : Outside} {lost : Coro → Bool} (all : List Coro) {w : World}
    (v : Inv batch env lost w)
    → w.control ≡ looping
    → tasks v ≡ all
    → NotStarted all w
    → Drained batch w all (serve batch (length all) w)
unfolding serve fetch finish
serve-Drained {batch} [] {w} v head e fresh =
    let (mine, shared) = append-empty v.balance.xs w.runtime.task_list e in
    record {
      in_order = refl;
      queue_clear = subst (Represents w.thread.task_queue) mine v.balance.queued;
      list_clear = shared;
      destroys = λ c. omega arith;
      watched_kept = refl;
      next_kept = refl;
      looping_again = head;
      sleeps =
          let b = v.balance in
          Takes-none
            (get_task-Got w.thread w.runtime batch b.xs b.some_batch b.batch_fits b.queued).taken e;
    }
serve-Drained {batch} (c ∷ rest) {w} v head e fresh =
    let r = Round-of v head c rest e fresh in
    let d = serve-Drained rest r.after refl r.left_over r.unstarted in
    record {
      in_order = ap₂ (◌∷◌) r.runs_it d.in_order;
      queue_clear = d.queue_clear;
      list_clear = d.list_clear;
      destroys = λ x. omega (arith, d.destroys x, r.destroys x);
      watched_kept = d.watched_kept ∙ r.watches;
      next_kept = d.next_kept ∙ r.counts;
      looping_again = d.looping_again;
      sleeps = d.sleeps;
    }

-- Let a worker be at the head of `main_loop` in a reachable world, for a batch size from 1 to the
-- length of the thread's queue, with tasks that have not started and whose functions return without
-- a call of the library, while no other thread acts, and let the epoll thread before have resumed
-- only coroutines that are watched. As many rounds as there are tasks run each of them, in the
-- order of the thread's queue followed by the shared list; then both are empty, the worker is at
-- the head again and finds no task, each task is destroyed or held by the callback that destroys
-- it, no other coroutine has become so, and no descriptor's watch has changed.
pub serve-all :
    {batch queue_length : ℕ} {main : Coro} {w : World} {xs : List Coro}
    → 0 < batch
    → batch ≤ queue_length
    → queue_length < 2 ^ 32
    → (r : Reach batch queue_length main w) → orderly r ≡ true
    → w.control ≡ looping
    → Represents w.thread.task_queue xs
    → NotStarted (xs ++ w.runtime.task_list) w
    → Drained batch w
        (xs ++ w.runtime.task_list)
        (serve batch (length (xs ++ w.runtime.task_list)) w)
serve-all {w} {xs} p fits small r ok head q fresh =
    let v = Reach-Inv p fits small r ok in
    serve-Drained (xs ++ w.runtime.task_list) v head
      (ap (λ ys. ys ++ w.runtime.task_list) (Represents-unique v.balance.queued q)) fresh
