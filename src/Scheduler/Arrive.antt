-- ===== src/Scheduler/Arrive.antt =====
-- `switch_to` of src/smart_thread.cpp and the balance of the coroutines.
use smart_routine.Prelude.{
  Bool, true, ℕ, ◌+◌, ◌<◌, ◌≡◌, ◌≢◌, refl, sym, ap, subst, ◌∙◌, ◌⊎◌, inl, inr, Option, none, some,
  arith, ◌==◌, ==→eq, ==-ne, ==_refl, Bool-cases,
}
use smart_routine.Runtime.{Coro}
use smart_routine.Thread.{destroy_coro}
use smart_routine.Scheduler.{
  World, Control, Point, looping, user, runner, in_yield, in_main_loop, run_delayed, arrive, leave,
  switch_to, update,
}
use smart_routine.Scheduler.Balance.{Outside, Balance, SameCoros, live, run_delayed-Balance}

-- Which coroutine's user function runs.
abbrev pub runs : Control → Coro → Option Coro
runs user c = some c
runs _ c = none

-- Outside user code the worker is on the main coroutine's stack with nothing delayed, or on the
-- stack of a coroutine that has returned and is to be destroyed.
abbrev pub IsIdle : World → Type 0
IsIdle w =
    ((w.thread.current_coro ≡ w.thread.main_coro) × (w.thread.delay_callback ≡ none))
    ⊎ (w.thread.delay_callback ≡ some (destroy_coro w.thread.current_coro))

-- The main coroutine, when it is not current, has left through `main_loop`.
abbrev pub IsSaved : World → Type 0
IsSaved w =
    w.thread.current_coro ≢ w.thread.main_coro → (w.context w.thread.main_coro).point ≡ in_main_loop

-- The main coroutines of other workers that are not running have left through `main_loop` too, and
-- the current coroutine is no main coroutine of another worker.
abbrev pub OthersSaved : Outside → World → Type 0
OthersSaved env w =
    (m : Coro)
    → env.is_main m ≡ true
    → m ≢ w.thread.main_coro
    → env.is_away m ≡ true
    → (w.context m).point ≡ in_main_loop

abbrev pub ClearOfMains : Outside → World → Type 0
ClearOfMains env w =
    (m : Coro) → env.is_main m ≡ true → m ≢ w.thread.main_coro → w.thread.current_coro ≢ m

pub record Inv (batch : ℕ) (env : Outside) (lost : Coro → Bool) (w : World) : Type 0 where
  pub balance : Balance batch env lost w (runs w.control w.thread.current_coro)
  pub idle : w.control ≢ user → IsIdle w
  pub main_saved : IsSaved w
  pub others_saved : OthersSaved env w

pub IsSaved-kept : {w w' : World} → SameCoros w w' → IsSaved w → IsSaved w'
IsSaved-kept s saved away =
    rw (s.main_kept, s.context_kept)
      (saved (λ same. away (s.current_kept ∙ same ∙ sym s.main_kept)))

pub OthersSaved-kept :
    (env : Outside) {w w' : World} → SameCoros w w' → OthersSaved env w → OthersSaved env w'
OthersSaved-kept env s others m main other away =
    rw s.context_kept (others m main (λ e. other (e ∙ sym s.main_kept)) away)

pub ClearOfMains-kept :
    (env : Outside) {w w' : World} → SameCoros w w' → ClearOfMains env w → ClearOfMains env w'
ClearOfMains-kept env s clear m main other here =
    clear m main (λ e. other (e ∙ sym s.main_kept)) (sym s.current_kept ∙ here)

pub IsIdle-kept :
    (w w' : World)
    → w'.thread.current_coro ≡ w.thread.current_coro
    → w'.thread.main_coro ≡ w.thread.main_coro
    → w'.thread.delay_callback ≡ w.thread.delay_callback
    → IsIdle w
    → IsIdle w'
IsIdle-kept w w' current main cb (inl (here, empty)) = inl (current ∙ here ∙ sym main, cb ∙ empty)
IsIdle-kept w w' current main cb (inr dying) =
    inr (cb ∙ dying ∙ ap (λ c. some (destroy_coro c)) (sym current))

module _ {batch : ℕ} {env : Outside} {lost : Coro → Bool} {w : World} where
  saved_resumable :
      {r : Option Coro} (p : Point) (b : Balance batch env lost w r)
      → (p ≢ in_main_loop)
        ⊎ (live w.thread.current_coro w r b.xs + env.alive w.thread.current_coro ≡ 0)
      → (c : Coro) → 0 < live c w r b.xs + env.alive c
      → (update w.context w.thread.current_coro
          (record { point = p; saved_errno = w.errno })
          c).point
        ≢ in_main_loop
  saved_resumable {r} p b ok c alive = elim (Bool-cases (w.thread.current_coro == c)) [
    | inl e ↦
        let here = subst (λ x. 0 < live x w r b.xs + env.alive x) (sym (==→eq _ _ e)) alive in
        rw e (elim ok [ inl other ↦ other | inr gone ↦ absurd (omega (arith, here, gone)) ])
    | inr e ↦ rw e (b.resumable c alive)
  ]

  -- Saving a context keeps the balance if it is not one that can run again saved in `main_loop`.
  leave-Balance :
      {r : Option Coro} (p : Point) (d : Coro) (b : Balance batch env lost w r)
      → (p ≢ in_main_loop)
        ⊎ (live w.thread.current_coro w r b.xs + env.alive w.thread.current_coro ≡ 0)
      → Balance batch env lost (leave p d w) r
  unfolding leave
  leave-Balance p d b ok = record {
    xs = b.xs;
    queued = b.queued;
    some_batch = b.some_batch;
    batch_fits = b.batch_fits;
    once = b.once;
    fresh = b.fresh;
    apart = b.apart;
    own_main = b.own_main;
    gone = b.gone;
    resumable = saved_resumable p b ok;
  }

leave_saves_main :
    (w : World) (p : Point) (d : Coro)
    → (w.thread.current_coro ≢ w.thread.main_coro
        → (w.context w.thread.main_coro).point ≡ in_main_loop)
    → (w.thread.current_coro ≡ w.thread.main_coro → p ≡ in_main_loop)
    → ((leave p d w).context w.thread.main_coro).point ≡ in_main_loop
unfolding leave
leave_saves_main w p d saved from_main =
    elim (Bool-cases (w.thread.current_coro == w.thread.main_coro)) [
      | inl e ↦ rw e (from_main (==→eq _ _ e))
      | inr e ↦ rw e (saved (λ same. ==-ne _ _ e same))
    ]

leave_saves_others :
    (env : Outside) (w : World) (p : Point) (d : Coro)
    → ClearOfMains env w
    → OthersSaved env w
    → OthersSaved env (leave p d w)
unfolding leave
leave_saves_others env w p d clear others m main other away =
    elim (Bool-cases (w.thread.current_coro == m)) [
      | inl e ↦ absurd (clear m main other (==→eq _ _ e))
      | inr e ↦ rw e (others m main other away)
    ]

-- The balance does not look at what the worker does, nor at `errno`.
pub Balance-control :
    {batch : ℕ} {env : Outside} {lost : Coro → Bool} {w : World} {r : Option Coro} (c : Control)
    (e : ℕ)
    → Balance batch env lost w r
    → Balance batch env lost (record w { control = c; errno = e }) r
Balance-control c e b = record {
  xs = b.xs;
  queued = b.queued;
  some_batch = b.some_batch;
  batch_fits = b.batch_fits;
  once = b.once;
  fresh = b.fresh;
  apart = b.apart;
  own_main = b.own_main;
  gone = b.gone;
  resumable = b.resumable;
}

-- Arriving at a coroutine that can run, from a world in which it is the one that runs.
arrive-Inv :
    {batch : ℕ} {env : Outside} {lost : Coro → Bool} {w : World} (p : Point) (errno : ℕ)
    → Balance batch env lost w (some w.thread.current_coro)
    → p ≢ in_main_loop
    → (w.context w.thread.main_coro).point ≡ in_main_loop
    → OthersSaved env w
    → Inv batch env lost (arrive p errno w)
unfolding arrive
arrive-Inv {batch} {env} {lost} {w} runner errno b ok saved others =
    let (b', same, _) = run_delayed-Balance b in
    record {
      balance =
          Balance-control user (run_delayed w).errno (
            subst (λ c. Balance batch env lost (run_delayed w) (some c)) (sym same.current_kept)
              b');
      idle = λ out. absurd (out refl);
      main_saved = λ _. rw (same.main_kept, same.context_kept) saved;
      others_saved = OthersSaved-kept env same others;
    }
arrive-Inv in_yield errno b ok saved others = record {
  balance = Balance-control user errno b;
  idle = λ out. absurd (out refl);
  main_saved = λ _. saved;
  others_saved = others;
}
arrive-Inv in_main_loop errno b ok saved others = absurd (ok refl)

-- Arriving at the main coroutine, which ran nothing.
arrive_main-Inv :
    {batch : ℕ} {env : Outside} {lost : Coro → Bool} {w : World} (p : Point) (errno : ℕ)
    → p ≡ in_main_loop
    → Balance batch env lost w none
    → w.thread.current_coro ≡ w.thread.main_coro
    → OthersSaved env w
    → Inv batch env lost (arrive p errno w)
unfolding arrive
arrive_main-Inv runner errno e b main others = cc
arrive_main-Inv in_yield errno e b main others = cc
arrive_main-Inv {batch} {env} {w} in_main_loop errno e b main others =
    let w' : World = record w { errno = errno } in
    let (b', same, cleared) = run_delayed-Balance (Balance-control w.control errno b) in
    let at_main : (run_delayed w').thread.current_coro ≡ (run_delayed w').thread.main_coro =
      same.current_kept ∙ main ∙ sym same.main_kept in
    record {
      balance = Balance-control looping (run_delayed w').errno b';
      idle = λ _. inl (at_main, cleared);
      main_saved = λ away. absurd (away at_main);
      others_saved = OthersSaved-kept env same others;
    }

module _ {batch : ℕ} {env : Outside} {lost : Coro → Bool} {w : World} where
  -- A switch to a coroutine that was fetched runs its user function.
  pub switch-Inv :
      (p : Point) (d : Coro) (b : Balance batch env lost w (some d))
      → (p ≢ in_main_loop)
        ⊎ (live w.thread.current_coro w (some d) b.xs + env.alive w.thread.current_coro ≡ 0)
      → (w.thread.current_coro ≢ w.thread.main_coro
          → (w.context w.thread.main_coro).point ≡ in_main_loop)
      → (w.thread.current_coro ≡ w.thread.main_coro → p ≡ in_main_loop)
      → ClearOfMains env w
      → OthersSaved env w
      → Inv batch env lost (switch_to p d w)
  unfolding switch_to leave
  switch-Inv p d b ok saved from_main clear others =
      let next = w.context d in
      arrive-Inv next.point next.saved_errno (leave-Balance p d b ok)
        (b.resumable d (ground (arith, ==_refl d))) (leave_saves_main w p d saved from_main)
        (leave_saves_others env w p d clear others)

  -- A switch to the main coroutine goes on in `main_loop`.
  pub switch_main-Inv :
      (b : Balance batch env lost w none)
      → w.thread.current_coro ≢ w.thread.main_coro
      → (w.context w.thread.main_coro).point ≡ in_main_loop
      → ClearOfMains env w
      → OthersSaved env w
      → Inv batch env lost (switch_to in_yield w.thread.main_coro w)
  unfolding switch_to leave
  switch_main-Inv b away saved clear others =
      let next = w.context w.thread.main_coro in
      arrive_main-Inv next.point next.saved_errno saved
        (leave-Balance in_yield w.thread.main_coro b (inl (λ e. cc))) refl
        (leave_saves_others env w in_yield w.thread.main_coro clear others)
