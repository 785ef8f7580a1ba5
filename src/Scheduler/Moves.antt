-- ===== src/Scheduler/Moves.antt =====
-- Each transition of src/smart_thread.cpp and where the coroutines are.
use smart_routine.Prelude.{
  count, one_if, ℕ, true, ◌+◌, ◌≡◌, ◌≢◌, refl, sym, ap, subst, ◌∙◌, inl, inr, Bool, Option, none,
  some, arith,
}
use smart_routine.Runtime.{Coro}
use smart_routine.Thread.{DelayCallback, destroy_coro}
use smart_routine.Scheduler.{
  World, Control, waiting, looping, user, in_yield, in_main_loop, set_callback, fetch, yield,
  yield_to, turn, turn_to, finish,
}
use smart_routine.Scheduler.Balance.{
  Outside, Balance, Balance-of, live, callback_live, callback_dead, fetch-Balance,
}
use smart_routine.Scheduler.Steps.{
  Step, on_watched, begin, round, suspend, return, start, start_outside, resume, Suspends, requeue,
  reading, writing,
}
use smart_routine.Scheduler.Start.{start-Inv, start_outside-Inv, resume-Inv}
use smart_routine.Scheduler.Arrive.{
  Inv, IsIdle, IsSaved, IsIdle-kept, IsSaved-kept, OthersSaved, OthersSaved-kept, ClearOfMains,
  ClearOfMains-kept, runs, Balance-control, switch-Inv, switch_main-Inv,
}

pub one_if_eq : (c d : Coro) → c ≡ d → one_if c d ≡ 1
one_if_eq c d e = ground arith

pub Suspends-count :
    {current : Coro} {cb : DelayCallback}
    → Suspends current cb
    → (c : Coro) → (callback_live c (some cb) ≡ one_if c current) × (callback_dead c (some cb) ≡ 0)
Suspends-count requeue c = (refl, refl)
Suspends-count reading c = (refl, refl)
Suspends-count writing c = (refl, refl)

module _ {batch : ℕ} {env : Outside} {lost : Coro → Bool} {w : World} where
  -- Outside user code the current coroutine is at no place from which it can run.
  pub at_rest :
      {r : Option Coro} (b : Balance batch env lost w r)
      → IsIdle w
      → live w.thread.current_coro w r b.xs + env.alive w.thread.current_coro ≡ 0
  at_rest b (inl (main, _)) = rw main (omega (arith, b.apart w.thread.main_coro b.own_main))
  at_rest b (inr dying) =
      let here = w.thread.current_coro in
      omega (arith, b.once here, ap (callback_dead here) dying, one_if_eq here here refl)

  pub yield_to-Inv :
      (task : Option Coro)
      → Balance batch env lost w task
      → w.thread.current_coro ≢ w.thread.main_coro
      → (w.context w.thread.main_coro).point ≡ in_main_loop
      → ClearOfMains env w
      → OthersSaved env w
      → Inv batch env lost (yield_to task w)
  unfolding yield_to
  yield_to-Inv none b away saved clear others = switch_main-Inv b away saved clear others
  yield_to-Inv (some d) b away saved clear others =
      switch-Inv in_yield d b (inl (λ e. cc)) (λ _. saved) (λ same. absurd (away same)) clear others

  pub turn_to-Inv :
      (task : Option Coro)
      → Balance batch env lost w task
      → w.control ≡ looping
      → IsIdle w
      → IsSaved w
      → ClearOfMains env w
      → OthersSaved env w
      → Inv batch env lost (turn_to task w)
  unfolding turn_to
  turn_to-Inv none b e idle saved clear others = record {
    balance = subst (λ k. Balance batch env lost w (runs k w.thread.current_coro)) (sym e) b;
    idle = λ _. idle;
    main_saved = saved;
    others_saved = others;
  }
  turn_to-Inv (some d) b e idle saved clear others =
      switch-Inv in_main_loop d b (inr (at_rest b idle)) saved (λ _. refl) clear others

pub yield_from-Inv :
    {batch : ℕ} {env : Outside} {lost : Coro → Bool} (w : World) (cb : DelayCallback)
    → Balance batch env lost (set_callback (some cb) w) none
    → w.thread.current_coro ≢ w.thread.main_coro
    → (w.context w.thread.main_coro).point ≡ in_main_loop
    → ClearOfMains env w
    → OthersSaved env w
    → Inv batch env lost (yield batch cb w)
unfolding yield set_callback
yield_from-Inv {batch} {env} w cb b away saved clear others =
    let (b', same, _) = fetch-Balance b in
    yield_to-Inv (fetch batch (set_callback (some cb) w)).0 b'
      (λ here. away (sym same.current_kept ∙ here ∙ same.main_kept))
      (rw (same.main_kept, same.context_kept) saved) (ClearOfMains-kept env same clear)
      (OthersSaved-kept env same others)

module _ {batch : ℕ} {env : Outside} {lost : Coro → Bool} {w : World}
    (v : Inv batch env lost w) where
  begin-Inv : w.control ≡ waiting → Inv batch env lost (record w { control = looping })
  begin-Inv e = record {
    balance =
        Balance-control {w = w} looping w.errno
          (subst (λ k. Balance batch env lost w (runs k w.thread.current_coro)) e v.balance);
    idle = λ _. v.idle (λ out. cc);
    main_saved = v.main_saved;
    others_saved = v.others_saved;
  }

  pub running : w.control ≡ user → Balance batch env lost w (some w.thread.current_coro)
  running e = subst (λ k. Balance batch env lost w (runs k w.thread.current_coro)) e v.balance

  pub away_from_main : w.control ≡ user → w.thread.current_coro ≢ w.thread.main_coro
  away_from_main e same =
      let b = running e in
      omega (
        arith,
        b.apart w.thread.main_coro b.own_main,
        one_if_eq w.thread.main_coro w.thread.current_coro (sym same),
      )

  pub running-Clear : w.control ≡ user → ClearOfMains env w
  running-Clear e m main other same =
      let b = running e in
      omega (arith, b.apart m main, one_if_eq m w.thread.current_coro (sym same))

  idle-Clear : IsIdle w → ClearOfMains env w
  idle-Clear (inl (here, _)) m main other same = other (sym same ∙ here)
  idle-Clear (inr dying) m main other same = omega (
    arith,
    v.balance.apart m main,
    ap (callback_dead m) dying,
    one_if_eq m w.thread.current_coro (sym same),
  )

  not_destroyed : IsIdle w → count w.thread.current_coro w.destroyed ≡ 0
  not_destroyed (inl (main, _)) =
      rw main (omega (arith, v.balance.apart w.thread.main_coro v.balance.own_main))
  not_destroyed (inr dying) =
      let here = w.thread.current_coro in
      omega (arith, v.balance.once here, ap (callback_dead here) dying, one_if_eq here here refl)

  pub current_alive : (k : Control) → w.control ≡ k → count w.thread.current_coro w.destroyed ≡ 0
  current_alive user e =
      let here = w.thread.current_coro in
      omega (arith, (running e).once here, one_if_eq here here refl)
  current_alive looping e = not_destroyed (v.idle (λ out. cc))
  current_alive waiting e = not_destroyed (v.idle (λ out. cc))

  -- `finish` hands the running coroutine to the callback that destroys it.
  finish-Inv : w.control ≡ user → Inv batch env lost (finish w)
  unfolding finish set_callback
  finish-Inv e =
      let b = running e in
      record {
        balance =
            Balance-control {w = set_callback (some (destroy_coro w.thread.current_coro)) w} looping
              w.errno
              (Balance-of b b.xs b.queued refl
                (record {
                  main_kept = refl;
                  current_kept = refl;
                  context_kept = refl;
                  next_kept = refl;
                  control_kept = refl;
                })
                (λ c. omega arith));
        idle = λ _. inr refl;
        main_saved = v.main_saved;
        others_saved = v.others_saved;
      }

  -- Suspending hands the running coroutine to the callback that makes it come back.
  pub suspend-Balance :
      {cb : DelayCallback}
      → w.control ≡ user
      → Suspends w.thread.current_coro cb
      → Balance batch env lost (set_callback (some cb) w) none
  unfolding set_callback
  suspend-Balance {cb} e s =
      let b = running e in
      Balance-of b b.xs b.queued refl
        (record {
          main_kept = refl;
          current_kept = refl;
          context_kept = refl;
          next_kept = refl;
          control_kept = refl;
        })
        (λ c. omega (arith, Suspends-count s c))

  yield-Inv :
      {cb : DelayCallback}
      → w.control ≡ user
      → Suspends w.thread.current_coro cb
      → Inv batch env lost (yield batch cb w)
  yield-Inv {cb} e s =
      yield_from-Inv w cb (suspend-Balance e s) (away_from_main e) (v.main_saved (away_from_main e))
        (running-Clear e) v.others_saved

  turn-Inv : w.control ≡ looping → Inv batch env lost (turn batch w)
  unfolding turn
  turn-Inv e =
      let b = subst (λ k. Balance batch env lost w (runs k w.thread.current_coro)) e v.balance in
      let (b', same, callback) = fetch-Balance b in
      turn_to-Inv (fetch batch w).0 b' (same.control_kept ∙ e)
        (IsIdle-kept w (fetch batch w).1 same.current_kept same.main_kept callback
          (v.idle (λ out. cc)))
        (IsSaved-kept same v.main_saved)
        (ClearOfMains-kept env same (idle-Clear (v.idle (λ out. cc))))
        (OthersSaved-kept env same v.others_saved)

pub Step-Inv :
    {batch : ℕ} {env : Outside} {lost : Coro → Bool} {w w' : World}
    → (st : Step batch w w') → on_watched st ≡ true
    → Inv batch env lost w
    → Inv batch env lost w'
unfolding on_watched
Step-Inv {w = w} (begin e _) ok v = begin-Inv v e
Step-Inv (round e) ok v = turn-Inv v e
Step-Inv (suspend e s) ok v = yield-Inv v e s
Step-Inv (return e) ok v = finish-Inv v e
Step-Inv (start _) ok v = start-Inv v
Step-Inv start_outside ok v = start_outside-Inv v
Step-Inv {w = w} (resume c) ok v = resume-Inv v c (ground (arith, ok))
