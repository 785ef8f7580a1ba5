-- ===== src/Suspension/Rounds.antt =====
-- The rounds of `eventloop` of src/smart_epoller.cpp for the item of a suspended coroutine, with
-- those in which epoll_wait is interrupted or times out.
use smart_routine.Prelude.{
  ℕ, ◌≡◌, ap, Bool, true, false, Option, none, some, List, [], ◌∷◌, if◌then◌else◌,
}
use smart_routine.DynamicBuffer.{◌>>=◌}
use smart_routine.Callbacks.{callbacks}
use smart_routine.Runtime.{Coro, SmartRuntime}
use smart_routine.EPoller.{Epoll}
use smart_routine.Suspension.{Direction, new_item, Suspended, suspend, on_event, on_events}
use smart_routine.Suspension.Once.{results, Ended, on_events-Ended}

-- epoll_wait reports an event for the item, if its descriptor is registered, or events for other
-- items only, or returns no event (EINTR, or a timeout). `R` is what the system call of the readiness
-- callback returns, if the callback is called.
pub data LoopRound (R : Type 0) : Type 0 where
  reports : ℕ → R → LoopRound R
  elsewhere : LoopRound R
  repeats : R → LoopRound R

module _ (E : Epoll) {R C : Type 0} (step : R → C → Option (C × Bool)) (d : Direction)
    (coro : Coro) where
  abbrev listed_after : Option (Suspended E step d coro) → Option (Suspended E step d coro × Bool)
  listed_after none = none
  listed_after (some s) = some (s, true)

  -- The Boolean says whether the item is in `ready_list_`, which is cleared only when there are
  -- events; else what it has is handled again.
  unfoldable pub on_round :
      LoopRound R → Suspended E step d coro × Bool → Option (Suspended E step d coro × Bool)
  unfolding on_event
  on_round (reports revents r) (s, listed) = elim (E.interest s.k s.item.fd) [
    | none ↦ some (s, false)
    | some events ↦ listed_after (on_event E step d coro revents r s)
  ]
  on_round elsewhere (s, listed) = some (s, false)
  on_round (repeats r) (s, listed) =
      if listed then listed_after (on_event E step d coro s.item.revents r s) else some (s, false)

  unfoldable pub on_rounds :
      List (LoopRound R) → Suspended E step d coro × Bool → Option (Suspended E step d coro × Bool)
  unfolding on_round
  on_rounds [] s = some s
  on_rounds (r ∷ rs) s = on_round r s >>= λ s'. on_rounds rs s'

-- The events for the item.
abbrev pub events_of : {R : Type 0} → List (LoopRound R) → List (ℕ × R)
events_of [] = []
events_of (reports revents r ∷ rs) = (revents, r) ∷ events_of rs
events_of (elsewhere ∷ rs) = events_of rs
events_of (repeats r ∷ rs) = events_of rs

abbrev pub uninterrupted : {R : Type 0} → List (LoopRound R) → Bool
uninterrupted [] = true
uninterrupted (reports revents r ∷ rs) = uninterrupted rs
uninterrupted (elsewhere ∷ rs) = uninterrupted rs
uninterrupted (repeats r ∷ rs) = false

module _ (E : Epoll) {R C : Type 0} (step : R → C → Option (C × Bool)) (d : Direction)
    (coro : Coro) where
  abbrev Follows :
      List (LoopRound R) → Suspended E step d coro × Bool → Suspended E step d coro → Type 0
  Follows rs before s = (listed : Bool) × (on_rounds E step d coro rs before ≡ some (s, listed))

  abbrev map_listed :
      Bool → Option (Suspended E step d coro) → Option (Suspended E step d coro × Bool)
  map_listed listed none = none
  map_listed listed (some s) = some (s, listed)

  reported :
      (rs : List (LoopRound R)) (es : List (ℕ × R)) (s' : Suspended E step d coro)
      (o : Option (Suspended E step d coro))
      → ((s : Suspended E step d coro)
          → on_events E step d coro es s ≡ some s'
          → Follows rs (s, true) s')
      → (o >>= λ s. on_events E step d coro es s) ≡ some s'
      → (listed : Bool) × ((listed_after E step d coro o >>= λ s. on_rounds E step d coro rs s)
          ≡ some (s', listed))
  reported rs es s' none next e = absurd cc
  reported rs es s' (some s) next e = next s e

  by_interest :
      (rs : List (LoopRound R)) (es : List (ℕ × R)) (s s' : Suspended E step d coro)
      (handled : Option (Suspended E step d coro))
      → ((t : Suspended E step d coro) (listed : Bool)
          → on_events E step d coro es t ≡ some s'
          → Follows rs (t, listed) s')
      → (interest : Option ℕ)
      → (elim interest [
        | none ↦ on_events E step d coro es s
        | some events ↦ handled >>= λ t. on_events E step d coro es t
      ])
        ≡ some s'
      → (listed : Bool) × ((elim interest [
        | none ↦ some (s, false)
        | some events ↦ listed_after E step d coro handled
      ]
            >>= λ t. on_rounds E step d coro rs t)
          ≡ some (s', listed))
  by_interest rs es s s' handled next none e = next s false e
  by_interest rs es s s' handled next (some events) e =
      reported rs es s' handled (λ t ran. next t true ran) e

  events_lem :
      (rs : List (LoopRound R)) (s s' : Suspended E step d coro) (listed : Bool)
      → uninterrupted rs ≡ true
      → on_events E step d coro (events_of rs) s ≡ some s'
      → Follows rs (s, listed) s'
  unfolding on_rounds on_round on_events
  events_lem [] s s' listed calm e = (listed, ap (λ t. map_listed listed t) e)
  events_lem (elsewhere ∷ rs) s s' listed calm e = events_lem rs s s' false calm e
  events_lem (repeats r ∷ rs) s s' listed calm e = absurd cc
  events_lem (reports revents r ∷ rs) s s' listed calm e =
      by_interest rs (events_of rs) s s' (on_event E step d coro revents r s)
        (λ t listed' ran. events_lem rs t s' listed' calm ran) (E.interest s.k s.item.fd) e

  -- A suspended call is resumed once, while no epoll_wait is interrupted or times out and no event
  -- is handled before `set_watching`. The descriptor not being registered before, let the coroutine
  -- suspend itself in a call for it, and let any rounds with events follow, for the item (of which
  -- epoll reports those of a registered descriptor) or for others. What the readiness callback
  -- makes of the events that are for it (its calls up to the first that resumes) is what the whole
  -- machinery makes of all of them: the context is the callback's last; the coroutine is put at the
  -- end of the shared list once if the callback resumed it, and else not; and the descriptor is
  -- registered, for the flag that the call waits for, exactly as long as the callback has not
  -- resumed it.
  pub on_rounds-Ended :
      (fd : ℕ) (k : E.K) (runtime : SmartRuntime) (vacant : E.interest k fd ≡ none)
      (rs : List (LoopRound R)) (c : C) (out : C × Bool)
      → uninterrupted rs ≡ true
      → callbacks step (results d (events_of rs)) c ≡ some out
      → (s : Suspended E step d coro) × (listed : Bool) × (on_rounds E step d coro rs (
        suspend E step d coro
            (record { item = new_item d fd; k = k; context = c; runtime = runtime }),
        false,
      )
          ≡ some (s, listed))
        × Ended E step coro fd k runtime vacant d out s
  on_rounds-Ended fd k runtime vacant rs c out calm e =
      let (s, ran, ended) =
        on_events-Ended E step coro fd k runtime vacant d (events_of rs) c out e in
      let (listed, same) = events_lem rs _ s false calm ran in (s, listed, same, ended)
