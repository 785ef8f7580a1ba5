-- ===== src/Suspension.antt =====
-- A coroutine that is suspended in a call of src/smart_routine.cpp: the delayed callback
-- `enable_epoll_reading` or `enable_epoll_writing`, the events that the epoll thread handles for
-- the item, the readiness callback, and `resume_read_coro` or `resume_write_coro` of
-- src/internal/smart_routine_impl.cpp. `step` is the readiness callback, as for `callbacks`.
pub mod Once
pub mod Taken
pub mod Rounds
mod Tests
use smart_routine.Prelude.{
  ℕ, Bool, true, false, ◌||◌, Option, none, some, List, [], ◌∷◌, if◌then◌else◌,
}
use smart_routine.DynamicBuffer.{◌>>=◌}
use smart_routine.Runtime.{Coro, SmartRuntime}
use smart_routine.Runtime
use smart_routine.EPoller.{
  Epoll, EPollItem, epollin, epollpri, epollrdhup, epollout, has, enable_reading, disable_reading,
  enable_writing, disable_writing, Callback, on_close, on_error, on_read, on_write, handle_events,
}
use smart_routine.EPoller

pub data Direction : Type 0 where
  reading writing : Direction

-- `EPollItem item(fd, &epoller)` with the one callback that the call sets.
unfoldable pub new_item : Direction → ℕ → EPollItem
unfolding EPoller.new
new_item reading fd = record (EPoller.new fd) { read_callback = true }
new_item writing fd = record (EPoller.new fd) { write_callback = true }

-- Whether the callback that the call sets is called.
abbrev pub is_called : Direction → List Callback → Bool
is_called d [] = false
is_called reading (on_read ∷ cs) = true
is_called writing (on_write ∷ cs) = true
is_called d (c ∷ cs) = is_called d cs

module _ (E : Epoll) {R C : Type 0} (step : R → C → Option (C × Bool)) (d : Direction)
    (coro : Coro) where
  pub record Suspended : Type 0 where
    pub item : EPollItem
    pub k : E.K
    pub context : C
    pub runtime : SmartRuntime

  unfoldable pub enable : EPollItem → E.K → EPollItem × E.K
  unfolding enable_reading enable_writing
  enable item k = elim d [ reading ↦ enable_reading E item k | writing ↦ enable_writing E item k ]

  unfoldable pub disable : EPollItem → E.K → EPollItem × E.K
  unfolding disable_reading disable_writing
  disable item k = elim d [
    | reading ↦ disable_reading E item k
    | writing ↦ disable_writing E item k
  ]

  -- The delayed callback, when the coroutine has left its stack; no event is handled between
  -- `epoll_ctl` and `set_watching` in it.
  unfoldable pub suspend : Suspended → Suspended
  unfolding enable
  suspend s = let (item, k) = enable s.item s.k in record s { item = item; k = k }

  -- On the epoll thread `smart_routine_resume` goes to the shared list.
  unfoldable pub resume : Suspended → Suspended
  unfolding disable
  resume s =
      let (item, k) = disable s.item s.k in
      record s { item = item; k = k; runtime = Runtime.push_task s.runtime coro }

  unfoldable pub after : C × Bool → Suspended → Suspended
  unfolding resume
  after (context, true) s = resume (record s { context = context })
  after (context, false) s = record s { context = context }

  -- An event for the item: its flags, and what the system call will return.
  unfoldable pub on_event : ℕ → R → Suspended → Option Suspended
  unfolding handle_events after
  on_event revents r s =
      let ready = record s { item = record (s.item) { revents = revents } } in
      if is_called d (handle_events ready.item)
      then (do out ← step r s.context; some (after out ready))
      else some ready

  -- Rounds with events, of which the epoll instance reports those of a descriptor that is registered,
  -- and no others. Suspension/Rounds has those without.
  unfoldable pub on_events : List (ℕ × R) → Suspended → Option Suspended
  unfolding on_event
  on_events [] s = some s
  on_events ((revents, r) ∷ es) s = elim (E.interest s.k s.item.fd) [
    | none ↦ on_events es s
    | some events ↦ on_event revents r s >>= λ s'. on_events es s'
  ]
