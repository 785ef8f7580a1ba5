-- ===== src/Cluster/Phases.antt =====
-- A worker of src/smart_runtime.cpp in each phase of a transition, and where its coroutines are.
use smart_routine.Prelude.{
  count, ℕ, ◌<◌, ◌≡◌, ◌≢◌, sym, ap, subst, ◌∙◌, inl, inr, Bool, Option, none, some, arith,
}
use smart_routine.Runtime.{Coro}
use smart_routine.Thread.{DelayCallback}
use smart_routine.Scheduler.{
  World, Control, looping, user, fetch, set_callback, turn_to, yield_to,
  smart_routine_start_outside, resume_coro,
}
use smart_routine.Scheduler.Balance.{Outside, Balance, callback_live, callback_dead, fetch-Balance}
use smart_routine.Scheduler.Steps.{Suspends}
use smart_routine.Scheduler.Arrive.{
  Inv, IsIdle, IsIdle-kept, IsSaved, IsSaved-kept, OthersSaved, OthersSaved-kept, ClearOfMains,
  runs,
}
use smart_routine.Scheduler.Start.{
  start_outside-Balance, resume-Balance, start_outside-Inv, resume-Inv,
}
use smart_routine.Scheduler.Moves.{
  one_if_eq, Suspends-count, suspend-Balance, away_from_main, turn_to-Inv, yield_to-Inv,
}
use smart_routine.Cluster.{Phase, settled, round_took, yield_took}

-- The coroutine that the worker runs or has taken.
abbrev pub holds : Phase → Control → Coro → Option Coro
holds settled control current_coro = runs control current_coro
holds (round_took task) control current_coro = task
holds (yield_took task) control current_coro = task

-- What else is known of it.
abbrev pub Fits : Phase → World → Type 0
Fits settled w = w.control ≢ user → IsIdle w
Fits (round_took task) w = (w.control ≡ looping) × IsIdle w
Fits (yield_took task) w =
    (w.thread.current_coro ≢ w.thread.main_coro)
    × (cb : DelayCallback) × (w.thread.delay_callback ≡ some cb)
    × Suspends w.thread.current_coro cb

pub record PhaseInv (batch : ℕ) (env : Outside) (lost : Coro → Bool) (phase : Phase) (w : World)
    : Type 0 where
  pub balance : Balance batch env lost w (holds phase w.control w.thread.current_coro)
  pub fits : Fits phase w
  pub saved : IsSaved w
  pub others_saved : OthersSaved env w

module _ {batch : ℕ} {env : Outside} {lost : Coro → Bool} {w : World} where
  pub settle : Inv batch env lost w → PhaseInv batch env lost settled w
  settle v = record {
    balance = v.balance;
    fits = v.idle;
    saved = v.main_saved;
    others_saved = v.others_saved;
  }

  pub settled-Inv : PhaseInv batch env lost settled w → Inv batch env lost w
  settled-Inv v = record {
    balance = v.balance;
    idle = v.fits;
    main_saved = v.saved;
    others_saved = v.others_saved;
  }

module _ {batch : ℕ} {env : Outside} {lost : Coro → Bool} {w : World} where
  idle-clear : {r : Option Coro} → Balance batch env lost w r → IsIdle w → ClearOfMains env w
  idle-clear b (inl (here, _)) m main other same = other (sym same ∙ here)
  idle-clear b (inr dying) m main other same = omega (
    arith,
    b.apart m main,
    ap (callback_dead m) dying,
    one_if_eq m w.thread.current_coro (sym same),
  )

  suspended-clear :
      {r : Option Coro} {cb : DelayCallback}
      → Balance batch env lost w r
      → w.thread.delay_callback ≡ some cb
      → Suspends w.thread.current_coro cb
      → ClearOfMains env w
  suspended-clear b pending s m main other same = omega (
    arith,
    b.apart m main,
    ap (callback_live m) pending,
    (Suspends-count s m).0,
    one_if_eq m w.thread.current_coro (sym same),
  )

  pub round_takes-PhaseInv :
      Inv batch env lost w
      → w.control ≡ looping
      → PhaseInv batch env lost (round_took (fetch batch w).0) (fetch batch w).1
  round_takes-PhaseInv v e =
      let b = subst (λ k. Balance batch env lost w (runs k w.thread.current_coro)) e v.balance in
      let (b', same, callback) = fetch-Balance b in
      record {
        balance = b';
        fits = (
          same.control_kept ∙ e,
          IsIdle-kept w (fetch batch w).1 same.current_kept same.main_kept callback
              (v.idle (λ out. cc)),
        );
        saved = IsSaved-kept same v.main_saved;
        others_saved = OthersSaved-kept env same v.others_saved;
      }

  pub round_goes-Inv :
      (task : Option Coro)
      → PhaseInv batch env lost (round_took task) w
      → Inv batch env lost (turn_to task w)
  round_goes-Inv task v =
      turn_to-Inv task v.balance v.fits.0 v.fits.1 v.saved (idle-clear v.balance v.fits.1)
        v.others_saved

  -- `yield` with `cb`, up to the taking of tasks.
  pub suspended-PhaseInv :
      {lost' : Coro → Bool} {cb : DelayCallback}
      → Inv batch env lost w
      → w.control ≡ user
      → Suspends w.thread.current_coro cb
      → Balance batch env lost' (set_callback (some cb) w) none
      → (let w' = set_callback (some cb) w in
          PhaseInv batch env lost' (yield_took (fetch batch w').0) (fetch batch w').1)
  unfolding set_callback
  suspended-PhaseInv {cb = cb} v e s b =
      let (b', same, callback) = fetch-Balance b in
      let away = away_from_main v e in
      record {
        balance = b';
        fits = (
          λ here. away (sym same.current_kept ∙ here ∙ same.main_kept),
          cb,
          callback,
          subst (λ c. Suspends c cb) (sym same.current_kept) s,
        );
        saved = IsSaved-kept same v.main_saved;
        others_saved = OthersSaved-kept env same v.others_saved;
      }

  pub yield_takes-PhaseInv :
      {cb : DelayCallback}
      → Inv batch env lost w
      → w.control ≡ user
      → Suspends w.thread.current_coro cb
      → (let w' = set_callback (some cb) w in
          PhaseInv batch env lost (yield_took (fetch batch w').0) (fetch batch w').1)
  yield_takes-PhaseInv v e s = suspended-PhaseInv v e s (suspend-Balance v e s)

  pub yield_goes-Inv :
      (task : Option Coro)
      → PhaseInv batch env lost (yield_took task) w
      → Inv batch env lost (yield_to task w)
  yield_goes-Inv task v =
      let (away, cb, pending, s) = v.fits in
      yield_to-Inv task v.balance away (v.saved away) (suspended-clear v.balance pending s)
        v.others_saved

  pub start_outside-PhaseInv :
      (phase : Phase)
      → PhaseInv batch env lost phase w
      → PhaseInv batch env lost phase (smart_routine_start_outside w)
  unfolding smart_routine_start_outside
  start_outside-PhaseInv settled v = settle (start_outside-Inv (settled-Inv v))
  start_outside-PhaseInv (round_took task) v =
      let (b, saved, others) = start_outside-Balance v.balance in
      record {
        balance = b;
        fits = v.fits;
        saved = saved v.saved;
        others_saved = others v.others_saved;
      }
  start_outside-PhaseInv (yield_took task) v =
      let (b, saved, others) = start_outside-Balance v.balance in
      record {
        balance = b;
        fits = v.fits;
        saved = saved v.saved;
        others_saved = others v.others_saved;
      }

  pub resume-PhaseInv :
      (phase : Phase) (c : Coro)
      → 0 < count c w.watched
      → PhaseInv batch env lost phase w
      → PhaseInv batch env lost phase (resume_coro c w)
  unfolding resume_coro
  resume-PhaseInv settled c watched v = settle (resume-Inv (settled-Inv v) c watched)
  resume-PhaseInv (round_took task) c watched v = record {
    balance = resume-Balance c watched v.balance;
    fits = v.fits;
    saved = v.saved;
    others_saved = v.others_saved;
  }
  resume-PhaseInv (yield_took task) c watched v = record {
    balance = resume-Balance c watched v.balance;
    fits = v.fits;
    saved = v.saved;
    others_saved = v.others_saved;
  }
