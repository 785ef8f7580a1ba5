-- ===== src/Scheduler/Round.antt =====
-- One round of `main_loop` of src/smart_thread.cpp with a coroutine that has not started and whose
-- function returns without suspending it.
use smart_routine.Prelude.{
  count, one_if, count-append, Bool, ℕ, ◌+◌, ◌<◌, ◌≡◌, ◌≢◌, refl, sym, ap, ap₂, subst, ◌∙◌, inl,
  inr, Option, none, some, List, ◌∷◌, ◌++◌, arith, length, ◌==◌, Bool-cases, ==→eq, ==_refl,
}
use smart_routine.BoundedQueue.Refine.{Represents}
use smart_routine.BoundedQueue.Unique.{Represents-unique}
use smart_routine.Runtime.{Coro}
use smart_routine.Thread.{DelayCallback, destroy_coro}
use smart_routine.Thread.Take.{Takes, nothing, next, get_task-Got}
use smart_routine.Scheduler.{
  World, looping, user, runner, in_main_loop, arrive, leave, switch_to, run_delayed, delayed, call,
  set_callback, fetch, turn, turn_to, finish,
}
use smart_routine.Scheduler.Balance.{Outside, dead, callback_dead}
use smart_routine.Scheduler.Steps.{on_watched, round, return}
use smart_routine.Scheduler.Arrive.{Inv, IsIdle, IsIdle-kept}
use smart_routine.Scheduler.Moves.{Step-Inv, at_rest}

-- No coroutine of `cs` has started.
abbrev pub NotStarted : List Coro → World → Type 0
NotStarted cs w = (c : Coro) → 0 < count c cs → (w.context c).point ≡ runner

-- `u` after `c` has run on `w`, from its start to its end.
record Ran (c : Coro) (w u : World) : Type 0 where
  queue_kept : u.thread.task_queue ≡ w.thread.task_queue
  list_kept : u.runtime.task_list ≡ w.runtime.task_list
  watched_kept : u.watched ≡ w.watched
  next_kept : u.next_coro ≡ w.next_coro
  others_kept : (d : Coro) → d ≢ w.thread.current_coro → u.context d ≡ w.context d
  dying : (d : Coro) → dead d u ≡ dead d w + one_if d c

module _ (w : World) (c : Coro) where
  abbrev pub left : World
  left = leave in_main_loop c w

  other_context : (d : Coro) → d ≢ w.thread.current_coro → (left).context d ≡ w.context d
  unfolding leave
  other_context d ne = elim (Bool-cases (w.thread.current_coro == d)) [
    | inl e ↦ absurd (ne (sym (==→eq _ _ e)))
    | inr e ↦ rw e refl
  ]

  abbrev pub started : Option DelayCallback → World
  started cb = record (delayed cb left) { control = user }

  nothing_delayed : w.thread.delay_callback ≡ none → Ran c w (finish (started none))
  unfolding finish set_callback delayed leave
  nothing_delayed e = record {
    queue_kept = refl;
    list_kept = refl;
    watched_kept = refl;
    next_kept = refl;
    others_kept = other_context;
    dying = λ d. omega (arith, ap (callback_dead d) e);
  }

  destroy_delayed :
      (x : Coro)
      → w.thread.delay_callback ≡ some (destroy_coro x)
      → Ran c w (finish (started (some (destroy_coro x))))
  unfolding finish set_callback delayed call leave
  destroy_delayed x e = record {
    queue_kept = refl;
    list_kept = refl;
    watched_kept = refl;
    next_kept = refl;
    others_kept = other_context;
    dying = λ d. omega (arith, ap (callback_dead d) e);
  }

  pub turn_starts :
      {cb : Option DelayCallback}
      → (w.context c).point ≡ runner
      → w.thread.delay_callback ≡ cb
      → turn_to (some c) w ≡ started cb
  unfolding turn_to switch_to arrive run_delayed leave
  turn_starts point cb =
      ap (λ p. arrive p (w.context c).saved_errno left) point
      ∙ ap (λ k. record (delayed k left) { control = user }) cb

  -- A coroutine that a round fetches and that has not started runs, and leaves the queues alone.
  record Served (u : World) : Type 0 where
    in_user : u.control ≡ user
    current : u.thread.current_coro ≡ c
    ran : Ran c w (finish u)

  turn_to-Served : (w.context c).point ≡ runner → IsIdle w → Served (turn_to (some c) w)
  unfolding delayed call set_callback leave
  turn_to-Served point (inl (main, clear)) =
      subst Served (sym (turn_starts point clear))
        (record { in_user = refl; current = refl; ran = nothing_delayed clear })
  turn_to-Served point (inr dying) =
      subst Served (sym (turn_starts point dying)) (record {
        in_user = refl;
        current = refl;
        ran = destroy_delayed w.thread.current_coro dying;
      })

pub Takes-head :
    {c : Coro} {all left rest : List Coro} {o : Option Coro}
    → Takes all left o
    → all ≡ c ∷ rest
    → (o ≡ some c) × (left ≡ rest)
Takes-head (nothing e f) h = absurd (omega (arith, ap length e, ap length h))
Takes-head (next d e) h = (cc, cc)

-- What is left of the tasks `all` in the thread's queue and the shared list.
abbrev pub tasks :
    {batch : ℕ} {env : Outside} {lost : Coro → Bool} {w : World} → Inv batch env lost w → List Coro
tasks {w} v = v.balance.xs ++ w.runtime.task_list

module _ {batch : ℕ} {env : Outside} {lost : Coro → Bool} {w : World} (v : Inv batch env lost w)
    (head : w.control ≡ looping) where
  -- One round and the end of the coroutine it runs.
  pub record Round (c : Coro) (rest : List Coro) (w' : World) : Type 0 where
    pub runs_user : w'.control ≡ user
    pub runs_it : w'.thread.current_coro ≡ c
    pub after : Inv batch env lost (finish w')
    pub left_over : tasks after ≡ rest
    pub unstarted : NotStarted rest (finish w')
    pub destroys : (d : Coro) → dead d (finish w') ≡ dead d w + one_if d c
    pub watches : (finish w').watched ≡ w.watched
    pub counts : (finish w').next_coro ≡ w.next_coro

  -- The current coroutine is not among the tasks.
  not_here :
      {c : Coro} {rest : List Coro}
      → tasks v ≡ c ∷ rest
      → (d : Coro) → 0 < count d rest
      → d ≢ w.thread.current_coro
  not_here {c} {rest} e d later same =
      let apart = at_rest v.balance (v.idle (λ out. cc)) in
      let counted = count-append w.thread.current_coro v.balance.xs w.runtime.task_list in
      let among : 0 < count w.thread.current_coro rest = subst (λ x. 0 < count x rest) same later in
      omega (arith, apart, counted, ap (count w.thread.current_coro) e)

  pub Round-of :
      (c : Coro) (rest : List Coro)
      → tasks v ≡ c ∷ rest
      → NotStarted (c ∷ rest) w
      → Round c rest (turn batch w)
  unfolding turn fetch on_watched
  Round-of c rest e fresh =
      let w' = (fetch batch w).1 in
      let b = v.balance in
      let g = get_task-Got w.thread w.runtime batch b.xs b.some_batch b.batch_fits b.queued in
      let (got, kept) = Takes-head g.taken e in
      let idle : IsIdle w' =
        IsIdle-kept w w' g.same.current_kept g.same.main_kept g.same.callback_kept
          (v.idle (λ out. cc)) in
      let starts : (w.context c).point ≡ runner = fresh c (ground (arith, ==_refl c)) in
      let s : Served w' c (turn batch w) =
        subst (Served w' c) (ap (λ task. turn_to task w') (sym got))
          (turn_to-Served w' c starts idle) in
      let after = Step-Inv (return s.in_user) refl (Step-Inv (round head) refl v) in
      record {
        runs_user = s.in_user;
        runs_it = s.current;
        after = after;
        left_over =
            ap₂ (◌++◌)
              (Represents-unique after.balance.queued
                (subst (λ q. Represents q g.ys) (sym s.ran.queue_kept) g.queued))
              s.ran.list_kept
            ∙ kept;
        unstarted = λ d later.
            ap (λ k. k.point)
              (s.ran.others_kept d (λ same. not_here e d later (same ∙ g.same.current_kept)))
            ∙ fresh d (omega arith);
        destroys = λ d. omega (arith, s.ran.dying d, ap (callback_dead d) g.same.callback_kept);
        watches = s.ran.watched_kept;
        counts = s.ran.next_kept;
      }
