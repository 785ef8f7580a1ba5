-- ===== src/Api/Awaited.antt =====
-- What a suspended call of src/smart_routine.cpp gives its caller.
use smart_routine.Prelude.{
  ℕ, ◌≡◌, refl, ap, Bool, true, false, Option, none, some, List, [], ◌∷◌, ◌++◌, length,
  length-append, ltb, lt→ltb, le→ltb, arith, if◌then◌else◌,
}
use smart_routine.Callbacks.{callbacks}
use smart_routine.Runtime.{Coro, SmartRuntime}
use smart_routine.EPoller.{Epoll}
use smart_routine.Suspension.{Direction}
use smart_routine.Suspension.Once.{results, flag, on_events-Ended}
use smart_routine.Api.{Called, awaited}

module _ (E : Epoll) {R C A : Type 0} (step : R → C → Option (C × Bool)) (coro : Coro) (fd : ℕ)
    (k : E.K) (runtime : SmartRuntime) (vacant : E.interest k fd ≡ none) (end : C → A × ℕ) where
  -- The caller gets its result exactly if the callback resumed it. Then it is on the shared list,
  -- behind those that were there, and the descriptor is not registered; else the list is as it was,
  -- and the descriptor is registered for what the call waits for.
  pub record Settled (d : Direction) (out : C × Bool) (a : Called E A) : Type 0 where
    pub outcome : a.outcome ≡ (if out.1 then some (end out.0) else none)
    pub tasks :
        a.runtime.task_list ≡ (if out.1 then runtime.task_list ++ coro ∷ [] else runtime.task_list)
    pub interest : E.interest a.k fd ≡ (if out.1 then none else some (flag d))

  on_list :
      (resumed : Bool) (tasks : List Coro)
      → tasks ≡ (if resumed then runtime.task_list ++ coro ∷ [] else runtime.task_list)
      → ltb (length runtime.task_list) (length tasks) ≡ resumed
  on_list true tasks e =
      lt→ltb _ _ (omega (arith, ap length e, length-append runtime.task_list (coro ∷ [])))
  on_list false tasks e = le→ltb _ _ (omega (arith, ap length e))

  pub awaited-Settled :
      (d : Direction) (es : List (ℕ × R)) (c : C) (out : C × Bool)
      → callbacks step (results d es) c ≡ some out
      → (a : Called E A) × (awaited E step d coro fd es c end k runtime ≡ some a) × Settled d out a
  unfolding awaited
  awaited-Settled d es c out e =
      let (s, ran, v) = on_events-Ended E step coro fd k runtime vacant d es c out e in
      let scheduled = on_list out.1 s.runtime.task_list v.tasks in
      (
        record {
          outcome = if out.1 then some (end s.context) else none;
          k = s.k;
          runtime = s.runtime;
        },
        rw (ran, scheduled) refl,
        record {
          outcome = ap (λ x. if out.1 then some (end x) else none) v.context_lem;
          tasks = v.tasks;
          interest = v.interest;
        },
      )
