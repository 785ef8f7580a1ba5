-- ===== src/Cluster/Moves.antt =====
-- A transition of one worker of src/smart_runtime.cpp, and what the other workers keep.
use smart_routine.Prelude.{
  count, ℕ, ◌+◌, ◌<◌, ◌≡◌, ◌≢◌, refl, sym, ap, subst, ◌∙◌, Bool, not, List, arith, ◌==◌, ==_refl,
  ==-ne, ne-==, ==→eq, lt→ltb, Bool-cases, inl, inr,
}
use smart_routine.Runtime.{Coro}
use smart_routine.Scheduler.{World, in_main_loop, update}
use smart_routine.Scheduler.Balance.{held, callback_live, callback_dead, live, dead}
use smart_routine.Scheduler.Arrive.{IsSaved}
use smart_routine.Cluster.{Cluster, Phase, settled, round_took, yield_took, worker, put}
use smart_routine.Cluster.Phases.{holds, Fits, PhaseInv}
use smart_routine.Cluster.Sums.{others-sum, others-cong}
use smart_routine.Cluster.Shared.{
  alive_at, dying_at, outside, all_alive, all_dead, Whole, Own, Shared,
}

module _ {batch n : ℕ} {lost lost' : Coro → Bool} {k : Cluster} (s : Shared batch n lost k) (i : ℕ)
    (lt : i < n) (phase : Phase) (w : World) (v : PhaseInv batch (outside n s.xs k i) lost' phase w)
    (main : w.thread.main_coro ≡ i) where
  abbrev ys : ℕ → List Coro
  ys = update s.xs i v.balance.xs

  -- The others hold what they held.
  alive_kept : (c : Coro) (j : ℕ) → j ≢ i → alive_at c ys (put i phase w k) j ≡ alive_at c s.xs k j
  unfolding put
  alive_kept c j ne = rw (ne-== i j (λ e. ne (sym e))) refl

  dying_kept : (c : Coro) (j : ℕ) → j ≢ i → dying_at c (put i phase w k) j ≡ dying_at c k j
  unfolding put
  dying_kept c j ne = rw (ne-== i j (λ e. ne (sym e))) refl

  alive_here :
      (c : Coro)
      → alive_at c ys (put i phase w k) i
        ≡ held c (holds phase w.control w.thread.current_coro)
          + count c v.balance.xs
          + callback_live c w.thread.delay_callback
  unfolding put
  alive_here c = rw (==_refl i) refl

  dying_here : (c : Coro) → dying_at c (put i phase w k) i ≡ callback_dead c w.thread.delay_callback
  unfolding put
  dying_here c = rw (==_refl i) refl

  alive_after :
      (c : Coro)
      → all_alive n ys (put i phase w k) c
        ≡ live c w (holds phase w.control w.thread.current_coro) v.balance.xs
          + (outside n s.xs k i).alive c
  unfolding put
  alive_after c = omega (
    arith,
    others-sum i (alive_at c ys (put i phase w k)) n lt,
    others-cong i n (alive_kept c),
    alive_here c,
  )

  dead_after : (c : Coro) → all_dead n (put i phase w k) c ≡ dead c w + (outside n s.xs k i).dying c
  unfolding put
  dead_after c = omega (
    arith,
    others-sum i (dying_at c (put i phase w k)) n lt,
    others-cong i n (dying_kept c),
    dying_here c,
  )

  Whole-after : Whole n lost' ys (put i phase w k)
  unfolding put
  Whole-after =
      let b = v.balance in
      record {
        once = λ c. omega (arith, b.once c, alive_after c, dead_after c);
        fresh = λ c old. omega (arith, b.fresh c old, alive_after c, dead_after c);
        apart = λ m le. omega (arith, b.apart m (lt→ltb m n le), alive_after m, dead_after m);
        gone = λ c h. omega (arith, b.gone c h, alive_after c);
        resumable = λ c h. b.resumable c (omega (arith, alive_after c));
      }

  worker_here : worker i (put i phase w k) ≡ w
  unfolding put
  worker_here = rw (==_refl i) refl

  Own-here : Own batch (ys i) i phase w
  Own-here = rw (==_refl i) (record {
    queued = v.balance.queued;
    batch_fits = v.balance.batch_fits;
    main = main;
    fits = v.fits;
    saved = v.saved;
  })

  module _ (j : ℕ) (le : j < n) (ne : j ≢ i) where
    abbrev beside : World
    beside = record w { thread = k.thread j; control = k.control j; errno = k.errno j }

    worker_there : worker j (put i phase w k) ≡ beside
    unfolding put
    worker_there = rw (ne-== i j (λ e. ne (sym e))) refl

    -- The main coroutine of another worker, when that is not running, is saved as before.
    IsSaved-there : IsSaved beside
    IsSaved-there away =
        let o = s.own j le in
        let gone : (k.thread j).current_coro ≢ j = λ here. away (here ∙ sym o.main) in
        let other : j ≢ w.thread.main_coro = λ e. ne (e ∙ main) in
        subst (λ m. (w.context m).point ≡ in_main_loop) (sym o.main)
          (v.others_saved j (lt→ltb j n le) other (ap not (ne-== _ _ gone)))

    Fits-there : (p : Phase) → Fits p (worker j k) → Fits p beside
    Fits-there settled f = f
    Fits-there (round_took task) f = f
    Fits-there (yield_took task) f = f

    Own-there : Own batch (ys j) j (k.phase j) beside
    Own-there =
        let o = s.own j le in
        rw (ne-== i j (λ e. ne (sym e))) (record {
          queued = o.queued;
          batch_fits = o.batch_fits;
          main = o.main;
          fits = Fits-there (k.phase j) o.fits;
          saved = IsSaved-there;
        })

  phase_here : (put i phase w k).phase i ≡ phase
  unfolding put
  phase_here = rw (==_refl i) refl

  phase_there : (j : ℕ) → j ≢ i → (put i phase w k).phase j ≡ k.phase j
  unfolding put
  phase_there j ne = rw (ne-== i j (λ e. ne (sym e))) refl

  abbrev Owns : ℕ → Phase → World → Type 0
  Owns j = Own batch (ys j) j

  Own-after : (j : ℕ) → j < n → Owns j ((put i phase w k).phase j) (worker j (put i phase w k))
  Own-after j le = elim (Bool-cases (j == i)) [
    | inl e ↦
        subst (λ m. Owns m ((put i phase w k).phase m) (worker m (put i phase w k)))
          (sym (==→eq j i e)) (rw (phase_here, worker_here) Own-here)
    | inr e ↦
        let ne = ==-ne j i e in rw (phase_there j ne, worker_there j le ne) (Own-there j le ne)
  ]

  -- What a worker's transition keeps, all keep; that it loses a coroutine is a loss for all.
  pub put-Shared : Shared batch n lost' (put i phase w k)
  put-Shared = record { xs = ys; some_batch = s.some_batch; whole = Whole-after; own = Own-after }
