-- ===== src/Cluster/Safety.antt =====
-- Where the coroutines of the workers of src/smart_runtime.cpp are, and on whose stacks those stand.
use smart_routine.Prelude.{
  count, both_true, true, some, ℕ, ◌+◌, ◌≤◌, ◌<◌, ◌^◌, ◌≡◌, ◌≢◌, ◌⊎◌, refl, sym, ap, ap₂, subst,
  ◌∙◌, Bool, false, List, [], arith, inl, inr,
}
use smart_routine.BoundedQueue
use smart_routine.BoundedQueue.Refine.{Represents, new-Represents}
use smart_routine.Runtime.{Coro}
use smart_routine.Thread
use smart_routine.Scheduler.{
  World, Control, waiting, looping, user, fetch, set_callback, turn_to, yield_to,
  smart_routine_start_outside, resume_coro,
}
use smart_routine.Scheduler.Steps
use smart_routine.Scheduler.Steps.{
  Step, begin, round, suspend, return, start, start_outside, resume,
}
use smart_routine.Scheduler.Balance.{held, callback_live, callback_dead}
use smart_routine.Scheduler.Arrive.{Inv, IsIdle}
use smart_routine.Scheduler.Mains.{Step-main, get_task-main, turn_to-main, yield_to-main}
use smart_routine.Scheduler.Moves.{Step-Inv, Suspends-count, one_if_eq}
use smart_routine.Cluster.{
  Cluster, Phase, settled, round_took, yield_took, worker, start_up, Transition, act, round_takes,
  round_goes, yield_takes, yield_goes, started_outside, resumed, Reached, started, then_next,
  orderly, on_watched, in_one_step,
}
use smart_routine.Cluster.Phases.{
  holds, Fits, PhaseInv, settle, settled-Inv, round_takes-PhaseInv, round_goes-Inv,
  yield_takes-PhaseInv, yield_goes-Inv, start_outside-PhaseInv, resume-PhaseInv,
}
use smart_routine.Cluster.Sums.{sum, sum-zero, one-sum, two-sum}
use smart_routine.Cluster.Shared.{alive_at, dying_at, outside, all_alive, all_dead, Shared, view}
use smart_routine.Cluster.Moves.{put-Shared}

start_up-Shared :
    (batch n queue_length : ℕ)
    → 0 < batch
    → batch ≤ queue_length
    → queue_length < 2 ^ 32
    → Shared batch n (λ _. false) (start_up n queue_length)
unfolding start_up Thread.new BoundedQueue.new
start_up-Shared batch n queue_length p fits small =
    let k = start_up n queue_length in
    let alive : (c : Coro) → sum n (alive_at c (λ _. []) k) ≡ 0 =
      λ c. sum-zero n (λ j lt. omega arith) in
    let dying : (c : Coro) → sum n (dying_at c k) ≡ 0 = λ c. sum-zero n (λ j lt. refl) in
    record {
      xs = λ _. [];
      some_batch = p;
      whole = record {
        once = λ c. omega (arith, alive c, dying c);
        fresh = λ c old. omega (arith, alive c, dying c);
        apart = λ m lt. omega (arith, alive m, dying m);
        gone = λ c h. cc;
        resumable = λ c h. absurd (omega (arith, alive c));
      };
      own = λ j lt. record {
        queued = new-Represents queue_length (omega arith) small;
        batch_fits = fits;
        main = refl;
        fits = λ _. inl (refl, refl);
        saved = λ away. absurd (away refl);
      };
    }

module _ {batch n : ℕ} {lost : Coro → Bool} {k : Cluster} (s : Shared batch n lost k) (i : ℕ)
    (lt : i < n) where
  view_at : {p : Phase} → k.phase i ≡ p → PhaseInv batch (outside n s.xs k i) lost p (worker i k)
  view_at e = subst (λ p. PhaseInv batch (outside n s.xs k i) lost p (worker i k)) e (view s i lt)

  pub settled_view : k.phase i ≡ settled → Inv batch (outside n s.xs k i) lost (worker i k)
  settled_view e = settled-Inv (view_at e)

one_step_lem :
    {batch : ℕ} {w w' : World} (st : Step batch w w')
    → in_one_step st ≡ true
    → Steps.on_watched st ≡ true
unfolding in_one_step Steps.on_watched
one_step_lem (begin _ _) e = refl
one_step_lem (round _) e = cc
one_step_lem (suspend _ _) e = cc
one_step_lem (return _) e = refl
one_step_lem (start _) e = refl
one_step_lem start_outside e = cc
one_step_lem (resume c) e = cc

pub Transition-Shared :
    {batch n : ℕ} {lost : Coro → Bool} {k k' : Cluster}
    → (t : Transition batch n k k') → on_watched t ≡ true
    → Shared batch n lost k
    → Shared batch n lost k'
unfolding fetch set_callback smart_routine_start_outside resume_coro on_watched
Transition-Shared (act {w} i lt e st one _) ok s =
    put-Shared s i lt settled w (settle (Step-Inv st (one_step_lem st one) (settled_view s i lt e)))
      (Step-main st ∙ (s.own i lt).main)
Transition-Shared {batch} {k} (round_takes i lt e head) ok s =
    let w = worker i k in
    put-Shared s i lt (round_took (fetch batch w).0) (fetch batch w).1
      (round_takes-PhaseInv (settled_view s i lt e) head)
      (get_task-main batch w.thread w.runtime ∙ (s.own i lt).main)
Transition-Shared {k} (round_goes {task} i lt e) ok s =
    let w = worker i k in
    put-Shared s i lt settled (turn_to task w) (settle (round_goes-Inv task (view_at s i lt e)))
      (turn_to-main task w ∙ (s.own i lt).main)
Transition-Shared {batch} {k} (yield_takes {cb} i lt e running sus) ok s =
    let w = set_callback (some cb) (worker i k) in
    put-Shared s i lt (yield_took (fetch batch w).0) (fetch batch w).1
      (yield_takes-PhaseInv (settled_view s i lt e) running sus)
      (get_task-main batch w.thread w.runtime ∙ (s.own i lt).main)
Transition-Shared {k} (yield_goes {task} i lt e) ok s =
    let w = worker i k in
    put-Shared s i lt settled (yield_to task w) (settle (yield_goes-Inv task (view_at s i lt e)))
      (yield_to-main task w ∙ (s.own i lt).main)
Transition-Shared {k} (started_outside i lt) ok s =
    put-Shared s i lt (k.phase i) (smart_routine_start_outside (worker i k))
      (start_outside-PhaseInv (k.phase i) (view s i lt)) (s.own i lt).main
Transition-Shared {k} (resumed i c lt) ok s =
    put-Shared s i lt (k.phase i) (resume_coro c (worker i k))
      (resume-PhaseInv (k.phase i) c (ground (arith, ok)) (view s i lt)) (s.own i lt).main

pub Reached-Shared :
    {batch n queue_length : ℕ} {k : Cluster}
    → 0 < batch
    → batch ≤ queue_length
    → queue_length < 2 ^ 32
    → (r : Reached batch n queue_length k) → orderly r ≡ true
    → Shared batch n (λ _. false) k
unfolding orderly
Reached-Shared {batch} {n} {queue_length} p fits small started ok =
    start_up-Shared batch n queue_length p fits small
Reached-Shared p fits small (then_next r t) ok =
    let (before, now) = both_true (orderly r) (on_watched t) ok in
    Transition-Shared t now (Reached-Shared p fits small r before)

-- For any number of workers whose coroutines return where they started, in every order of their
-- transitions in which the epoll thread resumes only coroutines that are watched (no epoll_wait is
-- interrupted, and no event is handled before `set_watching`), and for a batch size from 1 to the
-- length of the threads' queues: a coroutine is at most once at a place from which it can run
-- (running on a worker, taken by one that is to go on to it, in a thread's queue, on the shared
-- list, in a delayed callback, or watched by the epoll thread), and if it is at one it is neither
-- destroyed nor about to be.
pub Reached-once :
    {batch n queue_length : ℕ} {k : Cluster}
    → 0 < batch
    → batch ≤ queue_length
    → queue_length < 2 ^ 32
    → (r : Reached batch n queue_length k) → orderly r ≡ true
    → (c : Coro)
    → (xs : ℕ → List Coro) × ((j : ℕ) → j < n → Represents (k.thread j).task_queue (xs j))
      × (all_alive n xs k c + all_dead n k c ≤ 1)
Reached-once p fits small r ok c =
    let s = Reached-Shared p fits small r ok in (s.xs, λ j lt. (s.own j lt).queued, s.whole.once c)

module _ {batch n : ℕ} {lost : Coro → Bool} {k : Cluster} (s : Shared batch n lost k) where
  -- How often worker `j` holds the coroutine on whose stack it stands.
  abbrev stands : Coro → ℕ → ℕ
  stands c j = alive_at c s.xs k j + dying_at c k j

  idle_stands :
      (i : ℕ) (lt : i < n)
      → IsIdle (worker i k)
      → ((k.thread i).current_coro ≡ i) ⊎ (0 < stands (k.thread i).current_coro i)
  idle_stands i lt (inl (here, _)) = inl (here ∙ (s.own i lt).main)
  idle_stands i lt (inr dying) =
      let c = (k.thread i).current_coro in
      inr (omega (arith, ap (callback_dead c) dying, one_if_eq c c refl))

  settled_stands :
      (i : ℕ) (lt : i < n) (control : Control)
      → k.control i ≡ control
      → k.phase i ≡ settled
      → (k.control i ≢ user → IsIdle (worker i k))
      → ((k.thread i).current_coro ≡ i) ⊎ (0 < stands (k.thread i).current_coro i)
  settled_stands i lt user e p idle =
      let c = (k.thread i).current_coro in
      let running = ap₂ (λ q x. held c (holds q x c)) p e in
      inr (omega (arith, running, one_if_eq c c refl))
  settled_stands i lt looping e p idle = idle_stands i lt (idle (λ h. cc))
  settled_stands i lt waiting e p idle = idle_stands i lt (idle (λ h. cc))

  phase_stands :
      (i : ℕ) (lt : i < n) (phase : Phase)
      → k.phase i ≡ phase
      → Fits phase (worker i k)
      → ((k.thread i).current_coro ≡ i) ⊎ (0 < stands (k.thread i).current_coro i)
  phase_stands i lt settled e idle = settled_stands i lt (k.control i) refl e idle
  phase_stands i lt (round_took task) e (_, idle) = idle_stands i lt idle
  phase_stands i lt (yield_took task) e (_, cb, pending, sus) =
      let c = (k.thread i).current_coro in
      inr
        (omega (arith, ap (callback_live c) pending, (Suspends-count sus c).0, one_if_eq c c refl))

  current_stands :
      (i : ℕ) (lt : i < n)
      → ((k.thread i).current_coro ≡ i) ⊎ (0 < stands (k.thread i).current_coro i)
  current_stands i lt = phase_stands i lt (k.phase i) refl (s.own i lt).fits

  stands-not_destroyed :
      (i : ℕ) (lt : i < n)
      → ((k.thread i).current_coro ≡ i) ⊎ (0 < stands (k.thread i).current_coro i)
      → count (k.thread i).current_coro k.destroyed ≡ 0
  stands-not_destroyed i lt (inl main) = rw main (omega (arith, s.whole.apart i lt))
  stands-not_destroyed i lt (inr held_here) =
      let c = (k.thread i).current_coro in
      omega
        (arith, s.whole.once c, one-sum i n (alive_at c s.xs k) lt, one-sum i n (dying_at c k) lt)

  -- A main coroutine is held by no worker.
  main_not_held : (i j : ℕ) → i < n → j < n → stands i j ≡ 0
  main_not_held i j lt lt' = omega (
    arith,
    s.whole.apart i lt,
    one-sum j n (alive_at i s.xs k) lt',
    one-sum j n (dying_at i k) lt',
  )

  stands-apart :
      (i j : ℕ) (c : Coro)
      → i < n
      → j < n
      → i ≢ j
      → (c ≡ i) ⊎ (0 < stands c i)
      → (c ≡ j) ⊎ (0 < stands c j)
      → ⊥
  stands-apart i j c lt lt' ne (inl e) (inl e') = ne (sym e ∙ e')
  stands-apart i j c lt lt' ne (inl e) (inr h) =
      omega (arith, main_not_held i j lt lt', ap (λ x. stands x j) e)
  stands-apart i j c lt lt' ne (inr h) (inl e) =
      omega (arith, main_not_held j i lt' lt, ap (λ x. stands x i) e)
  stands-apart i j c lt lt' ne (inr h) (inr h') = omega (
    arith,
    s.whole.once c,
    two-sum i j n (alive_at c s.xs k) lt lt' ne,
    two-sum i j n (dying_at c k) lt lt' ne,
  )

-- For any number of workers whose coroutines return where they started, in every order of their
-- transitions in which the epoll thread resumes only coroutines that are watched (no epoll_wait is
-- interrupted, and no event is handled before `set_watching`), and for a batch size from 1 to the
-- length of the threads' queues: no two workers stand on the stack of one coroutine, and the one on
-- whose stack a worker stands has not been destroyed.
pub Reached-apart :
    {batch n queue_length : ℕ} {k : Cluster}
    → 0 < batch
    → batch ≤ queue_length
    → queue_length < 2 ^ 32
    → (r : Reached batch n queue_length k) → orderly r ≡ true
    → (i j : ℕ) → i < n
    → j < n
    → i ≢ j
    → ((k.thread i).current_coro ≢ (k.thread j).current_coro)
      × (count (k.thread i).current_coro k.destroyed ≡ 0)
Reached-apart {k} p fits small r ok i j lt lt' ne =
    let s = Reached-Shared p fits small r ok in
    let here = current_stands s i lt in
    let there = current_stands s j lt' in
    (
      λ same.
          stands-apart s i j (k.thread i).current_coro lt lt' ne here
            (subst (λ c. (c ≡ j) ⊎ (0 < stands s c j)) (sym same) there),
      stands-not_destroyed s i lt here,
    )
