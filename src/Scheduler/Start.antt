-- ===== src/Scheduler/Start.antt =====
-- Starting and resuming coroutines, from the worker of src/smart_thread.cpp or another thread, and
-- the balance of the coroutines.
use smart_routine.Prelude.{
  count, one_if, count-append, ℕ, ◌+◌, ◌≤◌, ◌<◌, ◌≡◌, ◌≢◌, refl, sym, ap, ap₂, subst, ◌∙◌, inl, inr,
  Bool, true, Option, false, List, [], ◌∷◌, arith, ◌==◌, Bool-cases,
}
use smart_routine.BoundedQueue.Refine.{Represents}
use smart_routine.Runtime.{Coro, SmartRuntime}
use smart_routine.Runtime
use smart_routine.Thread.Take.{push_task-Pushed}
use smart_routine.Scheduler.{
  World, runner, in_main_loop, update, smart_routine_start, smart_routine_start_outside, remove,
  resume_coro,
}
use smart_routine.Scheduler.Balance.{
  Outside, Balance, SameCoros, Balance-of, live, dead, callback_live, callback_dead, Pushed-count,
}
use smart_routine.Scheduler.Arrive.{Inv, IsIdle-kept, IsSaved, OthersSaved, runs}

-- `w'` is `w` with a new coroutine `w.next_coro` put at the end of one of the queues.
record Born (w w' : World) (xs ys : List Coro) : Type 0 where
  same_callback : w'.thread.delay_callback ≡ w.thread.delay_callback
  same_current : w'.thread.current_coro ≡ w.thread.current_coro
  same_main : w'.thread.main_coro ≡ w.thread.main_coro
  same_capacity : w'.thread.task_queue.capacity ≡ w.thread.task_queue.capacity
  same_control : w'.control ≡ w.control
  same_watched : w'.watched ≡ w.watched
  same_destroyed : w'.destroyed ≡ w.destroyed
  one_more : w'.next_coro ≡ w.next_coro + 1
  started : w'.context ≡ update w.context w.next_coro (record { point = runner; saved_errno = 0 })
  counted :
      (c : Coro)
      → count c ys + count c w'.runtime.task_list
        ≡ count c xs + count c w.runtime.task_list + one_if c w.next_coro

module _ {batch : ℕ} {env : Outside} {lost : Coro → Bool} {w w' : World} {r : Option Coro}
    (b : Balance batch env lost w r) (ys : List Coro) (q : Represents w'.thread.task_queue ys)
    (n : Born w w' b.xs ys) where
  born_live : (c : Coro) → live c w' r ys ≡ live c w r b.xs + one_if c w.next_coro
  born_live c =
      omega (arith, n.counted c, ap (callback_live c) n.same_callback, ap (count c) n.same_watched)

  born_dead : (c : Coro) → dead c w' ≡ dead c w
  born_dead c = omega (arith, ap (callback_dead c) n.same_callback, ap (count c) n.same_destroyed)

  old_apart : (c : Coro) → c < w.next_coro → one_if c w.next_coro ≡ 0
  old_apart c lt = ground arith

  born_once : (c : Coro) → live c w' r ys + dead c w' + (env.alive c + env.dying c) ≤ 1
  born_once c = ground (arith, born_live c, born_dead c, b.once c, b.fresh c)

  born_resumable :
      (c : Coro) → 0 < live c w' r ys + env.alive c → (w'.context c).point ≢ in_main_loop
  born_resumable c alive = rw n.started (elim (Bool-cases (w.next_coro == c)) [
    | inl e ↦ rw e (λ h. cc)
    | inr e ↦ rw e (b.resumable c (ground (arith, born_live c)))
  ])

  old_main : (m : Coro) → env.is_main m ≡ true → (w.next_coro == m) ≡ false
  old_main m e = ground (arith, (b.apart m e).1)

  born-Balance : Balance batch env lost w' r
  born-Balance = record {
    xs = ys;
    queued = q;
    some_batch = b.some_batch;
    batch_fits = omega (arith, b.batch_fits, n.same_capacity);
    once = born_once;
    fresh = λ c old. ground (arith, born_live c, born_dead c, b.fresh c, n.one_more);
    apart = λ m e.
        omega
          (arith, born_live m, born_dead m, b.apart m e, old_apart m (b.apart m e).1, n.one_more);
    own_main = rw n.same_main b.own_main;
    gone = λ c h. ground (arith, born_live c, b.gone c h, n.one_more);
    resumable = born_resumable;
  }

  born-IsSaved : IsSaved w → IsSaved w'
  born-IsSaved kept away =
      let saved = kept (λ same. away (n.same_current ∙ same ∙ sym n.same_main)) in
      rw (n.same_main, n.started, old_main w.thread.main_coro b.own_main) saved

  born-OthersSaved : OthersSaved env w → OthersSaved env w'
  born-OthersSaved kept m main other away =
      rw (n.started, old_main m main) (kept m main (λ e. other (e ∙ sym n.same_main)) away)

outside-Born : {w : World} (xs : List Coro) → Born w (smart_routine_start_outside w) xs xs
unfolding smart_routine_start_outside Runtime.push_task
outside-Born {w} xs = record {
  same_callback = refl;
  same_current = refl;
  same_main = refl;
  same_capacity = refl;
  same_control = refl;
  same_watched = refl;
  same_destroyed = refl;
  one_more = refl;
  started = refl;
  counted = λ c. omega (arith, count-append c w.runtime.task_list (w.next_coro ∷ []));
}

module _ {batch : ℕ} {env : Outside} {lost : Coro → Bool} {w w' : World} (v : Inv batch env lost w)
    (ys : List Coro) (q : Represents w'.thread.task_queue ys) (n : Born w w' v.balance.xs ys) where
  born-Inv : Inv batch env lost w'
  born-Inv = record {
    balance =
        subst (λ x. Balance batch env lost w' x)
          (ap₂ runs (sym n.same_control) (sym n.same_current)) (born-Balance v.balance ys q n);
    idle = λ out.
        IsIdle-kept w w' n.same_current n.same_main n.same_callback
          (v.idle (λ e. out (n.same_control ∙ e)));
    main_saved = born-IsSaved v.balance ys q n v.main_saved;
    others_saved = born-OthersSaved v.balance ys q n v.others_saved;
  }

-- A coroutine that is created outside the worker, whatever the worker does.
module _ {batch : ℕ} {env : Outside} {lost : Coro → Bool} {w : World} {r : Option Coro}
    (b : Balance batch env lost w r) where
  pub start_outside-Balance :
      Balance batch env lost (smart_routine_start_outside w) r
      × (IsSaved w → IsSaved (smart_routine_start_outside w))
      × (OthersSaved env w → OthersSaved env (smart_routine_start_outside w))
  unfolding smart_routine_start_outside Runtime.push_task
  start_outside-Balance =
      let n = outside-Born b.xs in
      (
        born-Balance b b.xs b.queued n,
        born-IsSaved b b.xs b.queued n,
        born-OthersSaved b b.xs b.queued n,
      )

module _ {batch : ℕ} {env : Outside} {lost : Coro → Bool} {w : World}
    (v : Inv batch env lost w) where
  pub start-Inv : Inv batch env lost (smart_routine_start w)
  unfolding smart_routine_start
  start-Inv =
      let p = push_task-Pushed w.thread w.runtime w.next_coro v.balance.xs v.balance.queued in
      born-Inv v p.ys p.queued (record {
        same_callback = p.same.callback_kept;
        same_current = p.same.current_kept;
        same_main = p.same.main_kept;
        same_capacity = p.same.capacity_kept;
        same_control = refl;
        same_watched = refl;
        same_destroyed = refl;
        one_more = refl;
        started = refl;
        counted = λ c. Pushed-count c w.next_coro p;
      })

  pub start_outside-Inv : Inv batch env lost (smart_routine_start_outside w)
  unfolding smart_routine_start_outside Runtime.push_task
  start_outside-Inv = born-Inv v v.balance.xs v.balance.queued (outside-Born v.balance.xs)

remove-count :
    (c d : Coro) (xs : List Coro) → 0 < count d xs → count c (remove d xs) + one_if c d ≡ count c xs
unfolding remove
remove-count c d [] h = absurd (omega arith)
remove-count c d (x ∷ xs) h = ground (arith, remove-count c d xs)

-- A coroutine that is resumed goes from the watched ones to the shared list.
pub resume-Balance :
    {batch : ℕ} {env : Outside} {lost : Coro → Bool} {w : World} {r : Option Coro} (c : Coro)
    → 0 < count c w.watched
    → Balance batch env lost w r
    → Balance batch env lost (resume_coro c w) r
unfolding resume_coro Runtime.push_task
resume-Balance {w} c watched b =
    let kept : SameCoros w (resume_coro c w) = record {
      main_kept = refl;
      current_kept = refl;
      context_kept = refl;
      next_kept = refl;
      control_kept = refl;
    } in
    Balance-of b b.xs b.queued refl kept λ d.
      omega (arith, remove-count d c w.watched watched, count-append d w.runtime.task_list (c ∷ []))

module _ {batch : ℕ} {env : Outside} {lost : Coro → Bool} {w : World} (v : Inv batch env lost w)
    (c : Coro) (watched : 0 < count c w.watched) where
  pub resume-Inv : Inv batch env lost (resume_coro c w)
  unfolding resume_coro
  resume-Inv = record {
    balance = resume-Balance c watched v.balance;
    idle = v.idle;
    main_saved = v.main_saved;
    others_saved = v.others_saved;
  }
