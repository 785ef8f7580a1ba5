-- ===== src/Scheduler/Lost.antt =====
-- What becomes of the delayed callback of src/smart_thread.cpp when `yield` is switched back to.
use native.Mathlib.Decide.{dec_lt}
use smart_routine.Prelude.{
  true, ℕ, ◌+◌, ◌≤◌, ◌<◌, ◌^◌, ◌≡◌, refl, sym, ap, subst, ◌∙◌, Bool, false, none, some, List, ◌∷◌,
  arith, ◌==◌, ==→eq, ==_refl,
}
use smart_routine.BoundedQueue
use smart_routine.BoundedQueue.Refine.{Represents, empty_lem, front_lem}
use smart_routine.Runtime.{Coro}
use smart_routine.Thread.{DelayCallback, get_task, take_front}
use smart_routine.Thread.Take.{get_task-Got}
use smart_routine.Scheduler.{
  World, user, in_yield, set_callback, arrive, leave, switch_to, fetch, yield_to, yield,
}
use smart_routine.Scheduler.Balance.{Outside, Balance, Balance-lose, live, callback_live}
use smart_routine.Scheduler.Steps.{Step, suspend, Suspends, Reach, orderly, on_watched}
use smart_routine.Scheduler.Arrive.{Inv, runs}
use smart_routine.Scheduler.Moves.{
  Step-Inv, Suspends-count, running, away_from_main, running-Clear, yield_from-Inv, one_if_eq,
}
use smart_routine.Scheduler.Safety.{Reach-Inv, alone}

-- Any number of transitions that resume only coroutines that are watched.
pub data Steps (batch : ℕ) (w : World) : World → Type 0 where
  here : Steps batch w w
  more :
      {w' w'' : World}
      → Steps batch w w'
      → (st : Step batch w' w'') → on_watched st ≡ true
      → Steps batch w w''

Steps-Inv :
    {batch : ℕ} {env : Outside} {lost : Coro → Bool} {w w' : World}
    → Steps batch w w'
    → Inv batch env lost w
    → Inv batch env lost w'
Steps-Inv here v = v
Steps-Inv (more s st ok) v = Step-Inv st ok (Steps-Inv s v)

module _ {batch : ℕ} {env : Outside} {w : World} (v : Inv batch env (λ _. false) w) {d : Coro}
    {rest : List Coro} (q : Represents w.thread.task_queue (d ∷ rest))
    (left : (w.context d).point ≡ in_yield) (cb : DelayCallback) where
  abbrev ready : World
  ready = set_callback (some cb) w

  fetched : (fetch batch ready).0 ≡ some d
  unfolding fetch get_task take_front set_callback
  fetched =
      let vacant : BoundedQueue.empty w.thread.task_queue ≡ false = empty_lem q ∙ ground arith in
      rw (vacant, front_lem q)

  -- The coroutine at the head of the queue goes on, with the callback still pending.
  abbrev pub resumed : World
  resumed = arrive in_yield (w.context d).saved_errno (leave in_yield d (fetch batch ready).1)

  pub yield_resumes : yield batch cb w ≡ resumed
  unfolding yield yield_to switch_to fetch set_callback
  yield_resumes =
      let w' = (fetch batch ready).1 in
      ap (λ task. yield_to task w') fetched
      ∙ ap (λ p. arrive p (w.context d).saved_errno (leave in_yield d w')) left

  pub resumed_facts :
      (resumed.control ≡ user)
      × (resumed.thread.current_coro ≡ d)
      × (resumed.thread.delay_callback ≡ some cb)
  unfolding arrive leave fetch set_callback
  resumed_facts =
      let g =
        get_task-Got ready.thread ready.runtime batch (d ∷ rest) v.balance.some_batch
          v.balance.batch_fits q in
      (refl, refl, g.same.callback_kept)

-- `w` is where a coroutine runs and the callback that is to bring `a` back is pending: when that
-- coroutine suspends itself too, the callback is overwritten, and `a` is at no place from which it
-- can run.
pub overwritten-Balance :
    {batch : ℕ} {env : Outside} {w : World} {cb cb' : DelayCallback} (a : Coro)
    → Inv batch env (λ _. false) w
    → w.control ≡ user
    → w.thread.delay_callback ≡ some cb
    → Suspends a cb
    → Suspends w.thread.current_coro cb'
    → Balance batch env (λ c. c == a) (set_callback (some cb') w) none
unfolding set_callback
overwritten-Balance {batch} {env} {w} {cb} {cb'} a v e pending s s' =
    let b = running v e in
    let waits : callback_live a w.thread.delay_callback ≡ 1 =
      ap (callback_live a) pending ∙ (Suspends-count s a).0 ∙ one_if_eq a a refl in
    let old : a < w.next_coro = elim (dec_lt a w.next_coro) [
      | yes lt ↦ lt
      | no ge ↦ absurd (omega (arith, waits, b.fresh a (omega arith)))
    ] in
    let Vanished : Coro → Type 0 =
      λ c. (live c (set_callback (some cb') w) none b.xs + env.alive c ≡ 0) × (c < w.next_coro) in
    let vanished : Vanished a = (omega (arith, waits, b.once a, Suspends-count s' a), old) in
    Balance-lose b b.xs b.queued refl
      (record {
        main_kept = refl;
        current_kept = refl;
        context_kept = refl;
        next_kept = refl;
        control_kept = refl;
      })
      (λ c. omega (arith, Suspends-count s' c)) (λ c. c == a)
      (λ c h. subst Vanished (sym (==→eq c a h)) vanished)

overwritten :
    {batch : ℕ} {env : Outside} {w : World} {cb cb' : DelayCallback} (a : Coro)
    → Inv batch env (λ _. false) w
    → w.control ≡ user
    → w.thread.delay_callback ≡ some cb
    → Suspends a cb
    → Suspends w.thread.current_coro cb'
    → Inv batch env (λ c. c == a) (yield batch cb' w)
overwritten {w = w} {cb' = cb'} a v e pending s s' =
    let away = away_from_main v e in
    yield_from-Inv w cb' (overwritten-Balance a v e pending s s') away (v.main_saved away)
      (running-Clear v e) v.others_saved

-- Lost for ever, while the epoll thread resumes only coroutines that are watched: let the coroutine
-- `a` suspend itself (to yield, or to wait for a descriptor) when the next coroutine of the
-- thread's queue, `d`, has itself left through `yield`. As soon as `d` suspends itself in its turn,
-- and in every world reached after that, `a` is not running, in no queue, not held by the delayed
-- callback and not watched by the epoll thread.
pub yield-loses :
    {batch queue_length : ℕ} {main : Coro} {w w' : World} {cb cb' : DelayCallback} {d : Coro}
    {rest : List Coro}
    → 0 < batch
    → batch ≤ queue_length
    → queue_length < 2 ^ 32
    → (r : Reach batch queue_length main w) → orderly r ≡ true
    → w.control ≡ user
    → Represents w.thread.task_queue (d ∷ rest)
    → (w.context d).point ≡ in_yield
    → Suspends w.thread.current_coro cb
    → Suspends d cb'
    → Steps batch (yield batch cb' (yield batch cb w)) w'
    → (xs : List Coro) × Represents w'.thread.task_queue xs
      × (live w.thread.current_coro w' (runs w'.control w'.thread.current_coro) xs ≡ 0)
unfolding on_watched
yield-loses {batch} {main} {w} {w'} {cb} {cb'} {d} p fits small r ok e q left s s' steps =
    let v = Reach-Inv p fits small r ok in
    let a = w.thread.current_coro in
    let v' =
      subst (Inv batch (alone main) (λ _. false)) (yield_resumes v q left cb)
        (Step-Inv (suspend e s) refl v) in
    let (control, current, pending) = resumed_facts v q left cb in
    let lost = overwritten a v' control pending s (subst (λ c. Suspends c cb') (sym current) s') in
    let after = subst (λ u. Steps batch (yield batch cb' u) w') (yield_resumes v q left cb) steps in
    let b = (Steps-Inv after lost).balance in
    (b.xs, b.queued, omega (arith, (b.gone a (==_refl a)).0))
