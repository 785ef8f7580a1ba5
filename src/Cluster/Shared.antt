-- ===== src/Cluster/Shared.antt =====
-- The workers of src/smart_runtime.cpp, each with the others outside it, and the balance of the
-- coroutines over all of them.
use smart_routine.Prelude.{
  count, ℕ, ◌+◌, ◌≤◌, ◌<◌, ◌≡◌, ◌≢◌, refl, sym, subst, ◌∙◌, Bool, true, false, not, List, arith,
  ◌==◌, ==-ne, ltb, ltb→lt, lt→ltb,
}
use smart_routine.BoundedQueue.Refine.{Represents}
use smart_routine.Runtime.{Coro}
use smart_routine.Scheduler.{World, in_main_loop}
use smart_routine.Scheduler.Balance.{Outside, held, callback_live, callback_dead, live, dead}
use smart_routine.Scheduler.Arrive.{IsSaved}
use smart_routine.Cluster.{Cluster, Phase, worker}
use smart_routine.Cluster.Phases.{holds, Fits, PhaseInv}
use smart_routine.Cluster.Sums.{sum, others, others-sum}

-- How often worker `j` holds `c`, to run it or to destroy it; `xs j` is in its queue.
abbrev pub alive_at : Coro → (ℕ → List Coro) → Cluster → ℕ → ℕ
alive_at c xs k j =
    held c (holds (k.phase j) (k.control j) (k.thread j).current_coro)
    + count c (xs j)
    + callback_live c (k.thread j).delay_callback

abbrev pub dying_at : Coro → Cluster → ℕ → ℕ
dying_at c k j = callback_dead c (k.thread j).delay_callback

-- What is outside worker `i`.
abbrev pub outside : ℕ → (ℕ → List Coro) → Cluster → ℕ → Outside
outside n xs k i = record {
  alive = λ c. others i n (alive_at c xs k);
  dying = λ c. others i n (dying_at c k);
  is_main = λ c. ltb c n;
  is_away = λ m. not ((k.thread m).current_coro == m);
}

-- How often `c` is at a place from which it can run, and at one where it is destroyed.
abbrev pub all_alive : ℕ → (ℕ → List Coro) → Cluster → Coro → ℕ
all_alive n xs k c = sum n (alive_at c xs k) + count c k.runtime.task_list + count c k.watched

abbrev pub all_dead : ℕ → Cluster → Coro → ℕ
all_dead n k c = sum n (dying_at c k) + count c k.destroyed

-- A worker with what is outside it is all.
module _ (n : ℕ) (xs : ℕ → List Coro) (k : Cluster) (j : ℕ) (lt : j < n) (c : Coro) where
  pub alive_lem :
      live c (worker j k) (holds (k.phase j) (k.control j) (k.thread j).current_coro) (xs j)
        + (outside n xs k j).alive c
      ≡ all_alive n xs k c
  alive_lem = omega (arith, others-sum j (alive_at c xs k) n lt)

  pub dead_lem : dead c (worker j k) + (outside n xs k j).dying c ≡ all_dead n k c
  dead_lem = omega (arith, others-sum j (dying_at c k) n lt)

-- Over all workers, as Scheduler.Balance is over one.
pub record Whole (n : ℕ) (lost : Coro → Bool) (xs : ℕ → List Coro) (k : Cluster) : Type 0 where
  pub once : (c : Coro) → all_alive n xs k c + all_dead n k c ≤ 1
  pub fresh : (c : Coro) → k.next_coro ≤ c → all_alive n xs k c + all_dead n k c ≡ 0
  pub apart : (m : Coro) → m < n → (all_alive n xs k m + all_dead n k m ≡ 0) × (m < k.next_coro)
  pub gone : (c : Coro) → lost c ≡ true → (all_alive n xs k c ≡ 0) × (c < k.next_coro)
  pub resumable : (c : Coro) → 0 < all_alive n xs k c → (k.context c).point ≢ in_main_loop

-- What worker `j`, in `w`, keeps by itself.
pub record Own (batch : ℕ) (xs : List Coro) (j : ℕ) (phase : Phase) (w : World) : Type 0 where
  pub queued : Represents w.thread.task_queue xs
  pub batch_fits : batch ≤ w.thread.task_queue.capacity
  pub main : w.thread.main_coro ≡ j
  pub fits : Fits phase w
  pub saved : IsSaved w

pub record Shared (batch n : ℕ) (lost : Coro → Bool) (k : Cluster) : Type 0 where
  pub xs : ℕ → List Coro
  pub some_batch : 0 < batch
  pub whole : Whole n lost xs k
  pub own : (j : ℕ) → j < n → Own batch (xs j) j (k.phase j) (worker j k)

not-true : (b : Bool) → not b ≡ true → b ≡ false
not-true true e = sym e
not-true false e = refl

-- Each worker, with the others outside it.
module _ {batch n : ℕ} {lost : Coro → Bool} {k : Cluster} (s : Shared batch n lost k) where
  others_away :
      (m : ℕ)
      → m < n
      → not ((k.thread m).current_coro == m) ≡ true
      → (k.context m).point ≡ in_main_loop
  others_away m lt away =
      let o = s.own m lt in
      subst (λ c. (k.context c).point ≡ in_main_loop) o.main
        (o.saved (λ here. ==-ne _ _ (not-true _ away) (here ∙ o.main)))

  pub view : (i : ℕ) → i < n → PhaseInv batch (outside n s.xs k i) lost (k.phase i) (worker i k)
  view i lt =
      let o = s.own i lt in
      let w = s.whole in
      let alive = alive_lem n s.xs k i lt in
      let dead = dead_lem n s.xs k i lt in
      record {
        balance = record {
          xs = s.xs i;
          queued = o.queued;
          some_batch = s.some_batch;
          batch_fits = o.batch_fits;
          once = λ c. omega (arith, w.once c, alive c, dead c);
          fresh = λ c old. omega (arith, w.fresh c old, alive c, dead c);
          apart = λ m e. omega (arith, w.apart m (ltb→lt m n e), alive m, dead m);
          own_main = rw o.main (lt→ltb i n lt);
          gone = λ c h. omega (arith, w.gone c h, alive c);
          resumable = λ c h. w.resumable c (omega (arith, alive c));
        };
        fits = o.fits;
        saved = o.saved;
        others_saved = λ m e _ away. others_away m (ltb→lt m n e) away;
      }
