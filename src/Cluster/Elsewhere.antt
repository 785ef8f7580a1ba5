-- ===== src/Cluster/Elsewhere.antt =====
-- A coroutine of src/smart_thread.cpp that returns on another worker than the one it started on.
use smart_routine.Prelude.{
  count, true, ℕ, ◌≤◌, ◌<◌, ◌^◌, ◌≡◌, ◌≢◌, refl, sym, ap, ap₂, ◌∙◌, Bool, some, List, ◌∷◌, arith,
  ==_refl, ne-==,
}
use smart_routine.BoundedQueue.Refine.{Represents}
use smart_routine.Runtime.{Coro}
use smart_routine.Thread.{destroy_coro}
use smart_routine.Thread.Take.{get_task-Got}
use smart_routine.Scheduler.{
  World, user, runner, call, delayed, set_callback, leave, fetch, turn, turn_to,
}
use smart_routine.Scheduler.Balance.{held}
use smart_routine.Scheduler.Moves.{one_if_eq}
use smart_routine.Scheduler.Round.{Takes-head, turn_starts}
use smart_routine.Cluster.{Cluster, settled, worker, put, return_elsewhere, Reached, orderly}
use smart_routine.Cluster.Phases.{holds}
use smart_routine.Cluster.Sums.{one-sum}
use smart_routine.Cluster.Shared.{alive_at, Shared}
use smart_routine.Cluster.Safety.{Reached-Shared}

-- A round that finds the task `d`, which has not started, destroys what the callback holds.
turn-destroys :
    {batch : ℕ} {d c : Coro} {rest : List Coro} (w : World)
    → 0 < batch
    → batch ≤ w.thread.task_queue.capacity
    → Represents w.thread.task_queue (d ∷ rest)
    → (w.context d).point ≡ runner
    → (turn batch (set_callback (some (destroy_coro c)) w)).destroyed ≡ c ∷ w.destroyed
unfolding turn fetch set_callback delayed call leave
turn-destroys {batch} {d} {c} {rest} w p fits q new =
    let w' : World = set_callback (some (destroy_coro c)) w in
    let g = get_task-Got w'.thread w'.runtime batch (d ∷ rest) p fits q in
    let found = (Takes-head g.taken refl).0 in
    ap (λ task. (turn_to task (fetch batch w').1).destroyed) found
    ∙ ap (λ u. u.destroyed) (turn_starts (fetch batch w').1 d new g.same.callback_kept)

module _ {batch n : ℕ} {lost : Coro → Bool} {k : Cluster} (s : Shared batch n lost k) where
  running_alive :
      (i : ℕ)
      → i < n
      → k.phase i ≡ settled
      → k.control i ≡ user
      → count (k.thread i).current_coro k.destroyed ≡ 0
  running_alive i lt p e =
      let c = (k.thread i).current_coro in
      omega (
        arith,
        s.whole.once c,
        one-sum i n (alive_at c s.xs k) lt,
        ap₂ (λ q x. held c (holds q x c)) p e,
        one_if_eq c c refl,
      )

module _ (k : Cluster) (i h : ℕ) (home : k.home (k.thread i).current_coro ≡ h) where
  abbrev returned : Coro
  returned = (k.thread i).current_coro

  at_home :
      worker h (return_elsewhere i k) ≡ set_callback (some (destroy_coro returned)) (worker h k)
  unfolding return_elsewhere set_callback
  at_home = rw (home, ==_refl h) refl

  on_the_stack :
      i ≢ h
      → (w : World) → ((put h settled w (return_elsewhere i k)).thread i).current_coro ≡ returned
  unfolding return_elsewhere put
  on_the_stack ne w = rw (ne-== h i (λ e. ne (sym e)), home, ne-== h i (λ e. ne (sym e))) refl

-- Let only coroutines that are watched have been resumed, and a coroutine that started on worker
-- `h` return on another worker `i`. A round of `main_loop` of `h` with a task that has not started
-- at the head of its queue then destroys that coroutine, which had not been destroyed before, while
-- `i` still stands on its stack.
pub return_elsewhere-destroys :
    {batch n queue_length : ℕ} {k : Cluster} {d : Coro} {rest : List Coro}
    → 0 < batch
    → batch ≤ queue_length
    → queue_length < 2 ^ 32
    → (r : Reached batch n queue_length k) → orderly r ≡ true
    → (i h : ℕ) → i < n
    → h < n
    → i ≢ h
    → k.phase i ≡ settled
    → k.control i ≡ user
    → k.home (k.thread i).current_coro ≡ h
    → Represents (k.thread h).task_queue (d ∷ rest)
    → (k.context d).point ≡ runner
    → (let k' = return_elsewhere i k in
        let after = put h settled (turn batch (worker h k')) k' in
        (count (k.thread i).current_coro k.destroyed ≡ 0)
        × (count (k.thread i).current_coro after.destroyed ≡ 1)
        × ((after.thread i).current_coro ≡ (k.thread i).current_coro))
unfolding put
return_elsewhere-destroys {batch} {k} {d} p fits small r ok i h lt lt' ne at running home q new =
    let s = Reached-Shared p fits small r ok in
    let c = (k.thread i).current_coro in
    let alive = running_alive s i lt at running in
    let round = ap (λ u. (turn batch u).destroyed) (at_home k i h home) in
    let destroyed = turn-destroys {c = c} (worker h k) p (s.own h lt').batch_fits q new in
    (
      alive,
      omega (arith, alive, ap (count c) (round ∙ destroyed), one_if_eq c c refl),
      on_the_stack k i h home ne (turn batch (worker h (return_elsewhere i k))),
    )
