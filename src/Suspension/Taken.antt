-- ===== src/Suspension/Taken.antt =====
-- A call of src/smart_routine.cpp for a descriptor that another coroutine is suspended for.
use smart_routine.Prelude.{ℕ, ◌≡◌, refl, ap, subst, sym, ◌∙◌, Bool, true, Option, none, some, List}
use smart_routine.Runtime.{Coro, SmartRuntime}
use smart_routine.EPoller.{
  Epoll, enable_reading, enable_writing, disable_reading, disable_writing, watch_event,
}
use smart_routine.EPoller
use smart_routine.Suspension.{
  Direction, reading, writing, new_item, Suspended, suspend, enable, disable, resume, on_events,
}
use smart_routine.Suspension.Once.{flag, watched, silent}

module _ (E : Epoll) (fd : ℕ) {R C : Type 0} (step : R → C → Option (C × Bool)) (coro : Coro)
    (runtime : SmartRuntime) (c : C) where
  abbrev begun : (d : Direction) → E.K → Suspended E step d coro
  begun d k =
      suspend E step d coro (record { item = new_item d fd; k = k; context = c; runtime = runtime })

  begun-adds :
      (d : Direction) (k : E.K)
      → ((begun d k).item ≡ watched d fd 0) × ((begun d k).k ≡ E.add fd (flag d) k)
  unfolding suspend enable enable_reading enable_writing watch_event new_item EPoller.new
  begun-adds reading k = (refl, refl)
  begun-adds writing k = (refl, refl)

  resume-deletes :
      (d : Direction) (s : Suspended E step d coro)
      → s.item ≡ watched d fd 0
      → (resume E step d coro s).k ≡ E.delete fd s.k
  unfolding resume disable disable_reading disable_writing watch_event EPoller.new
  resume-deletes reading s e = ap (λ item. (disable_reading E item s.k).1) e
  resume-deletes writing s e = ap (λ item. (disable_writing E item s.k).1) e

watched-is_watching :
    (d : Direction) (fd : ℕ) → ((watched d fd 0).watching ≡ true) × ((watched d fd 0).fd ≡ fd)
unfolding EPoller.new
watched-is_watching reading fd = (refl, refl)
watched-is_watching writing fd = (refl, refl)

module _ (E : Epoll) (fd : ℕ) (k : E.K) (vacant : E.interest k fd ≡ none) {R C : Type 0}
    (step : R → C → Option (C × Bool)) (d : Direction) (coro : Coro) (c : C)
    (runtime : SmartRuntime) {R' C' : Type 0} (step' : R' → C' → Option (C' × Bool))
    (d' : Direction) (coro' : Coro) (c' : C') where
  abbrev pub first : Suspended E step d coro
  first =
      suspend E step d coro (record { item = new_item d fd; k = k; context = c; runtime = runtime })

  abbrev pub second : Suspended E step' d' coro'
  second =
      suspend E step' d' coro'
        (record { item = new_item d' fd; k = first.k; context = c'; runtime = runtime })

  -- The first coroutine is resumed.
  abbrev pub first_resumed : Suspended E step d coro
  first_resumed = resume E step d coro (record first { k = second.k })

  abbrev pub left : Suspended E step' d' coro'
  left = record second { k = first_resumed.k; runtime = first_resumed.runtime }

  -- Let one coroutine be suspended for a descriptor, which was not registered before, and let another
  -- suspend itself in a call for the same descriptor. Then the epoll instance is as it was, though
  -- the second item says that it is watched; and when the first coroutine has been resumed, no event
  -- is reported to the second call, whatever events come: it stays as it is, and its coroutine is not
  -- resumed.
  pub second-unregistered :
      (es : List (ℕ × R'))
      → (second.k ≡ first.k)
        × (second.item.watching ≡ true)
        × (on_events E step' d' coro' es left ≡ some left)
  second-unregistered es =
      let (item, added) = begun-adds E fd step coro runtime c d k in
      let (item', added') = begun-adds E fd step' coro' runtime c' d' first.k in
      let registered : E.interest first.k fd ≡ some (flag d) =
        subst (λ x. E.interest x fd ≡ some (flag d)) (sym added) (E.add_lem fd (flag d) k vacant) in
      let same : second.k ≡ first.k =
        added' ∙ E.add_taken fd (flag d') (flag d) first.k registered in
      let deleted : first_resumed.k ≡ E.delete fd second.k =
        resume-deletes E fd step coro runtime c d (record first { k = second.k }) item in
      let gone : E.interest first_resumed.k fd ≡ none =
        subst (λ x. E.interest x fd ≡ none) (sym deleted)
          (E.delete_lem fd (flag d) second.k
            (subst (λ x. E.interest x fd ≡ some (flag d)) (sym same) registered)) in
      let (watching, at_fd) = watched-is_watching d' fd in
      (
        same,
        ap (λ i. i.watching) item' ∙ watching,
        silent E step' coro' d' es left (
            subst (λ x. E.interest first_resumed.k x ≡ none) (sym (ap (λ i. i.fd) item' ∙ at_fd))
              gone),
      )
