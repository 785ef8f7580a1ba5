-- ===== src/Suspension/Once.antt =====
-- What the events for a suspended coroutine of src/smart_routine.cpp lead to.
use smart_routine.Prelude.{
  ℕ, ◌≡◌, refl, ap, subst, Bool, true, false, ◌&&◌, ◌||◌, Option, none, some, List, [], ◌∷◌, ◌++◌,
  if◌then◌else◌, Bool-cases, inl, inr, arith,
}
use smart_routine.DynamicBuffer.{◌>>=◌}
use smart_routine.Callbacks.{callbacks}
use smart_routine.Runtime.{Coro, SmartRuntime}
use smart_routine.Runtime
use smart_routine.EPoller.{
  Epoll, EPollItem, epollin, epollpri, epollrdhup, epollout, has, when, on_close, on_error, on_read,
  on_write, handle_events, enable_reading, disable_reading, enable_writing, disable_writing,
  watch_event,
}
use smart_routine.EPoller
use smart_routine.Suspension.{
  Direction, reading, writing, new_item, is_called, Suspended, enable, disable, suspend, resume,
  after, on_event, on_events,
}

-- The flag that the call waits for.
abbrev pub flag : Direction → ℕ
flag reading = epollin
flag writing = epollout

-- The events that call the callback.
abbrev pub wakes : Direction → ℕ → Bool
wakes reading revents = has epollin revents || has epollpri revents || has epollrdhup revents
wakes writing revents = has epollout revents

-- What the system calls of the callback return, when all those events are handled.
abbrev pub results {ℓ} : {R : Type ℓ} → Direction → List (ℕ × R) → List R
results d [] = []
results d ((revents, r) ∷ es) =
    let rest = results d es in if wakes d revents then r ∷ rest else rest

abbrev pub watched : Direction → ℕ → ℕ → EPollItem
watched reading fd revents = record (EPoller.new fd) {
  read_callback = true;
  events = 1;
  watching = true;
  revents = revents;
}
watched writing fd revents = record (EPoller.new fd) {
  write_callback = true;
  events = 4;
  watching = true;
  revents = revents;
}

set_revents :
    (d : Direction) (fd old revents : ℕ)
    → record (watched d fd old) { revents = revents } ≡ watched d fd revents
set_revents reading fd old revents = refl
set_revents writing fd old revents = refl

one_reader :
    (h e r w : Bool)
    → is_called reading (
        when (h && false) on_close
        ++ when (e && false) on_error
        ++ when (r && true) on_read
        ++ when (w && false) on_write)
      ≡ r
one_reader h e r w = ground arith

one_writer :
    (h e r w : Bool)
    → is_called writing (
        when (h && false) on_close
        ++ when (e && false) on_error
        ++ when (r && false) on_read
        ++ when (w && true) on_write)
      ≡ w
one_writer h e r w = ground arith

called_lem :
    (d : Direction) (fd revents : ℕ)
    → is_called d (handle_events (watched d fd revents)) ≡ wakes d revents
unfolding handle_events EPoller.new
called_lem reading fd revents = one_reader _ _ _ _
called_lem writing fd revents = one_writer _ _ _ _

module _ (E : Epoll) {R C : Type 0} (step : R → C → Option (C × Bool)) (coro : Coro) where
  -- No event is reported for a descriptor that is not registered.
  pub silent :
      (d : Direction) (es : List (ℕ × R)) (s : Suspended E step d coro)
      → E.interest s.k s.item.fd ≡ none
      → on_events E step d coro es s ≡ some s
  unfolding on_events
  silent d [] s gone = refl
  silent d ((revents, r) ∷ es) s gone = rw (gone, on_events) (silent d es s gone)

  module _ (fd : ℕ) (k : E.K) (runtime : SmartRuntime) (vacant : E.interest k fd ≡ none) where
    abbrev pub start : (d : Direction) → C → Suspended E step d coro
    start d c = record { item = new_item d fd; k = k; context = c; runtime = runtime }

    abbrev pub waiting : (d : Direction) → ℕ → C → Suspended E step d coro
    waiting d revents c = record {
      item = watched d fd revents;
      k = E.add fd (flag d) k;
      context = c;
      runtime = runtime;
    }

    pub suspend_lem : (d : Direction) (c : C) → suspend E step d coro (start d c) ≡ waiting d 0 c
    unfolding suspend enable enable_reading enable_writing watch_event new_item EPoller.new
    suspend_lem reading c = refl
    suspend_lem writing c = refl

    registered : (d : Direction) → E.interest (E.add fd (flag d) k) fd ≡ some (flag d)
    registered d = E.add_lem fd (flag d) k vacant

    -- How a call ends for what its callback gave: the coroutine is put on the shared list and the
    -- descriptor is no longer registered, or both are as they were.
    pub record Ended (d : Direction) (out : C × Bool) (s : Suspended E step d coro) : Type 0 where
      pub context_lem : s.context ≡ out.0
      pub tasks :
          s.runtime.task_list
          ≡ (if out.1 then runtime.task_list ++ coro ∷ [] else runtime.task_list)
      pub interest : E.interest s.k fd ≡ (if out.1 then none else some (flag d))

    abbrev resumed : (d : Direction) → ℕ → C → Suspended E step d coro
    resumed d revents c = resume E step d coro (waiting d revents c)

    resumed_lem :
        (d : Direction) (revents : ℕ) (c : C)
        → ((resumed d revents c).context ≡ c)
          × ((resumed d revents c).runtime.task_list ≡ runtime.task_list ++ coro ∷ [])
          × ((resumed d revents c).item.fd ≡ fd)
          × (E.interest (resumed d revents c).k fd ≡ none)
    unfolding resume after disable disable_reading disable_writing watch_event EPoller.new
        Runtime.push_task
    resumed_lem reading revents c = (refl, refl, refl, E.delete_lem fd _ _ (registered reading))
    resumed_lem writing revents c = (refl, refl, refl, E.delete_lem fd _ _ (registered writing))

    pub fd_lem : (d : Direction) (revents : ℕ) → (watched d fd revents).fd ≡ fd
    unfolding EPoller.new
    fd_lem reading revents = refl
    fd_lem writing revents = refl

    registered_lem :
        (d : Direction) (revents : ℕ)
        → E.interest (E.add fd (flag d) k) (watched d fd revents).fd ≡ some (flag d)
    registered_lem d revents = rw (fd_lem d revents) (registered d)

    abbrev Ends : (d : Direction) → C × Bool → Option (Suspended E step d coro) → Type 0
    Ends d out o = (s : Suspended E step d coro) × (o ≡ some s) × Ended d out s

    -- One call of the callback, with what follows it if it does not resume.
    followed :
        (d : Direction) (revents : ℕ) (rs : List R) (es : List (ℕ × R)) (old : C)
        (o : Option (C × Bool)) {out : C × Bool}
        → ((c : C)
            → callbacks step rs c ≡ some out
            → Ends d out (on_events E step d coro es (waiting d revents c)))
        → (o >>= λ x. if x.1 then some (x.0, true) else callbacks step rs x.0) ≡ some out
        → Ends d out (
            (o >>= λ out. some (after E step d coro out (waiting d revents old))) >>= λ s.
            on_events E step d coro es s)
    unfolding after
    followed d revents rs es old none next e = absurd cc
    followed d revents rs es old (some (c, true)) {out} next e =
        let (context, tasks, at_fd, gone) = resumed_lem d revents c in
        let same : (c, true) ≡ out = cc in
        subst (λ out. Ends d out (on_events E step d coro es (resumed d revents c))) same
          (
            resumed d revents c,
            silent d es (resumed d revents c) (rw at_fd gone),
            record { context_lem = context; tasks = tasks; interest = gone },
          )
    followed d revents rs es old (some (c, false)) next e = next c e

    abbrev delivered : (d : Direction) → ℕ → R → C → Option (Suspended E step d coro)
    delivered d revents r c =
        step r c >>= λ out. some (after E step d coro out (waiting d revents c))

    on_event_lem :
        (d : Direction) (old revents : ℕ) (r : R) (c : C)
        → on_event E step d coro revents r (waiting d old c)
          ≡ (if wakes d revents then delivered d revents r c else some (waiting d revents c))
    unfolding on_event
    on_event_lem reading old revents r c =
        ap (λ b. if b then delivered reading revents r c else some (waiting reading revents c))
          (called_lem reading fd revents)
    on_event_lem writing old revents r c =
        ap (λ b. if b then delivered writing revents r c else some (waiting writing revents c))
          (called_lem writing fd revents)

    on_events_lem :
        (d : Direction) (es : List (ℕ × R)) (revents : ℕ) (c : C) {out : C × Bool}
        → callbacks step (results d es) c ≡ some out
        → Ends d out (on_events E step d coro es (waiting d revents c))
    unfolding callbacks on_events
    on_events_lem d [] revents c {out} e =
        let same : (c, false) ≡ out = cc in
        subst (λ out. Ends d out (some (waiting d revents c))) same
          (
            waiting d revents c,
            refl,
            record { context_lem = refl; tasks = refl; interest = registered d },
          )
    on_events_lem d ((revents', r) ∷ es) revents c {out} e =
        rw (registered_lem d revents, on_events, on_event_lem d revents revents' r c)
          (elim (Bool-cases (wakes d revents')) [
            | inl woken ↦ rw woken (
                followed d revents' (results d es) es c (step r c)
                  (λ c'. on_events_lem d es revents' c') (rw woken at e))
            | inr other ↦ rw other (on_events_lem d es revents' c (rw other at e))
          ])

    -- A suspended call is resumed once, while every round has events. The descriptor not being registered before, let the
    -- coroutine suspend itself in a call for it, and let any events follow, of which epoll reports
    -- those of a registered descriptor. What the callback makes of the events that are for it (its
    -- calls up to the first that resumes) is what the whole machinery makes of all of them: the
    -- context is the callback's last; the coroutine is put at the end of the shared list once if
    -- the callback resumed it, and else not; and the descriptor is registered, for the flag that
    -- the call waits for, exactly as long as the callback has not resumed it.
    pub on_events-Ended :
        (d : Direction) (es : List (ℕ × R)) (c : C) (out : C × Bool)
        → callbacks step (results d es) c ≡ some out
        → (s : Suspended E step d coro) × (on_events E step d coro es (
              suspend E step d coro
                (record { item = new_item d fd; k = k; context = c; runtime = runtime }))
            ≡ some s)
          × Ended d out s
    on_events-Ended d es c out e = rw (suspend_lem d c) (on_events_lem d es 0 c e)
