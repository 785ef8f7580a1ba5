-- ===== src/EPoller.antt =====
-- src/smart_epoller.cpp and src/epoll_item.cpp with include/epoll_item.h: which events a descriptor
-- is watched for, and which callbacks a round of the event loop calls. The epoll instance is the
-- interface `Epoll`, with what epoll_ctl(2) documents of success, and of EEXIST; items are named by
-- numbers, as pointers are.

pub mod Watches
pub mod Rounds
pub mod Loop
pub mod Batches
pub mod Served
pub mod Lifetime
pub mod Outlived
pub mod Table
mod Tests
use smart_routine.Prelude.{
  ℕ, ◌+◌, ◌-◌, ◌*◌, ◌/◌, ◌%◌, ◌≡◌, ◌≢◌, Bool, true, false, not, ◌&&◌, ◌||◌, Option, none, some,
  List, [], ◌∷◌, ◌++◌, ◌==◌, if◌then◌else◌,
}

abbrev pub epollin : ℕ
epollin = 1

abbrev pub epollpri : ℕ
epollpri = 2

abbrev pub epollout : ℕ
epollout = 4

abbrev pub epollerr : ℕ
epollerr = 8

abbrev pub epollhup : ℕ
epollhup = 16

abbrev pub epollrdhup : ℕ
epollrdhup = 8192

-- `events & flag`, `events | flag` and `events & ~flag` for a power of two.
abbrev pub has : ℕ → ℕ → Bool
has flag events = events / flag % 2 == 1

abbrev pub set_flag : ℕ → ℕ → ℕ
set_flag flag events = if has flag events then events else events + flag

abbrev pub clear_flag : ℕ → ℕ → ℕ
clear_flag flag events = if has flag events then events - flag else events

-- An epoll instance `K` by its interest list.
pub record Epoll : Type 1 where
  pub K : Type 0
  pub interest : K → ℕ → Option ℕ
  pub add : ℕ → ℕ → K → K
  pub modify : ℕ → ℕ → K → K
  pub delete : ℕ → K → K
  pub add_lem :
      (fd events : ℕ) (k : K) → interest k fd ≡ none → interest (add fd events k) fd ≡ some events
  pub modify_lem :
      (fd events old : ℕ) (k : K)
      → interest k fd ≡ some old
      → interest (modify fd events k) fd ≡ some events
  pub delete_lem :
      (fd old : ℕ) (k : K) → interest k fd ≡ some old → interest (delete fd k) fd ≡ none
  -- EEXIST
  pub add_taken : (fd events old : ℕ) (k : K) → interest k fd ≡ some old → add fd events k ≡ k

-- A callback is there or not.
pub record EPollItem : Type 0 where
  pub fd : ℕ
  pub events : ℕ
  pub revents : ℕ
  pub read_callback : Bool
  pub write_callback : Bool
  pub close_callback : Bool
  pub error_callback : Bool
  pub watching : Bool

-- The constructor.
unfoldable pub new : ℕ → EPollItem
new fd = record {
  fd = fd;
  events = 0;
  revents = 0;
  read_callback = false;
  write_callback = false;
  close_callback = false;
  error_callback = false;
  watching = false;
}

module _ (E : Epoll) where
  -- `SmartEPoller::watch_event`, which `update` calls.
  unfoldable pub watch_event : EPollItem → E.K → EPollItem × E.K
  watch_event item k =
      if item.watching
      then (if item.events == 0
          then (record item { watching = false }, E.delete item.fd k)
          else (item, E.modify item.fd item.events k))
      else (record item { watching = true }, E.add item.fd item.events k)

  unfoldable pub enable_reading : EPollItem → E.K → EPollItem × E.K
  unfolding watch_event
  enable_reading item = watch_event (record item { events = set_flag epollin item.events })

  unfoldable pub disable_reading : EPollItem → E.K → EPollItem × E.K
  unfolding watch_event
  disable_reading item = watch_event (record item { events = clear_flag epollin item.events })

  unfoldable pub enable_writing : EPollItem → E.K → EPollItem × E.K
  unfolding watch_event
  enable_writing item = watch_event (record item { events = set_flag epollout item.events })

  unfoldable pub disable_writing : EPollItem → E.K → EPollItem × E.K
  unfolding watch_event
  disable_writing item = watch_event (record item { events = clear_flag epollout item.events })

  unfoldable pub disable_all : EPollItem → E.K → EPollItem × E.K
  unfolding watch_event
  disable_all item = watch_event (record item { events = 0 })

pub data Callback : Type 0 where
  on_close on_error on_read on_write : Callback

abbrev pub when : Bool → Callback → List Callback
when true c = c ∷ []
when false c = []

-- The callbacks that `handle_events` calls, in order.
unfoldable pub handle_events : EPollItem → List Callback
handle_events item =
    when (has epollhup item.revents && item.close_callback) on_close
    ++ when (has epollerr item.revents && item.error_callback) on_error
    ++ when
        ((has epollin item.revents || has epollpri item.revents || has epollrdhup item.revents)
          && item.read_callback)
        on_read
    ++ when (has epollout item.revents && item.write_callback) on_write

-- What `epoll_wait` returns: events with the pointers given for them, a timeout, or -1.
pub data Waited : Type 0 where
  ready : Option ℕ × ℕ → List (Option ℕ × ℕ) → Waited
  timeout interrupted broken : Waited

-- `items` is the memory of the items. `evlist_` is told by the number of its entries; `none` is a
-- null pointer, or a descriptor of -1. `maxevents_` is kept modulo 2 ^ 32.
pub record SmartEPoller : Type 0 where
  pub items : ℕ → EPollItem
  pub ready_list : List ℕ
  pub epoll_fd : Option ℕ
  pub maxevents : ℕ
  pub evlist : Option ℕ

-- The loop over `evlist_`.
unfoldable pub collect : List (Option ℕ × ℕ) → SmartEPoller → SmartEPoller
collect [] e = e
collect ((none, events) ∷ evs) e = collect evs e
collect ((some p, events) ∷ evs) e = collect evs (record e {
  items = λ q. if q == p then record (e.items p) { revents = events } else e.items q;
  ready_list = e.ready_list ++ p ∷ [];
})

-- The loop over `ready_list_`: which callbacks of which items are called.
unfoldable pub handle_all : List ℕ → (ℕ → EPollItem) → List (ℕ × List Callback)
unfolding handle_events
handle_all [] items = []
handle_all (p ∷ ps) items = (p, handle_events (items p)) ∷ handle_all ps items

-- One round of `eventloop`; `none` is its return.
unfoldable pub round : Waited → SmartEPoller → Option (List (ℕ × List Callback) × SmartEPoller)
unfolding collect handle_all
round (ready ev evs) e =
    let e' = collect (ev ∷ evs) (record e { ready_list = [] }) in
    some (handle_all e'.ready_list e'.items, e')
round timeout e = some (handle_all e.ready_list e.items, e)
round interrupted e = some (handle_all e.ready_list e.items, e)
round broken e = none
