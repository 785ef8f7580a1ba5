-- ===== src/EPoller/Loop.antt =====
-- `SmartEPoller::init`, its destructor and the whole of `eventloop` in src/smart_epoller.cpp, as
-- `run_epoller` of src/smart_runtime.cpp calls them on the epoll thread.
use smart_routine.Prelude.{
  ℕ, suc, ◌^◌, ◌&&◌, Option, none, some, List, [], ◌∷◌, length, ltb, leb, if◌then◌else◌, u32,
}
use smart_routine.EPoller.{
  EPollItem, Callback, SmartEPoller, Waited, ready, timeout, interrupted, broken, round,
}

abbrev pub Memory : Type 0
Memory = ℕ → EPollItem

abbrev pub default_evlist_size : ℕ
default_evlist_size = 10000

-- The constructor. `epoll_fd_` is not set by it.
unfoldable pub new_epoller : Memory → SmartEPoller
new_epoller memory = record {
  items = memory;
  ready_list = [];
  epoll_fd = none;
  maxevents = default_evlist_size;
  evlist = none;
}

-- How `init` ends: with 0, with -1, or by an exception, for `new` of a negative number of entries.
pub data InitResult : Type 0 where
  initialised no_epoll bad_length : InitResult

-- `evlist_size` is the value of the flag, an int64 kept modulo 2 ^ 64; `created` is what
-- `epoll_create` returns.
unfoldable pub init : Option ℕ → ℕ → SmartEPoller → SmartEPoller × InitResult
init none evlist_size e = (record e { epoll_fd = none }, no_epoll)
init (some fd) evlist_size e =
    let is_positive = ltb 0 evlist_size && ltb evlist_size (2 ^ 63) in
    let entries = if is_positive then u32 evlist_size else e.maxevents in
    let e' : SmartEPoller = record e { epoll_fd = some fd; maxevents = entries } in
    if leb (2 ^ 31) entries
    then (e', bad_length)
    else (record e' { evlist = some entries }, initialised)

-- The destructor: the arrays that it deletes, by their entries. The descriptor stays open.
unfoldable pub destroy_epoller : SmartEPoller → List ℕ
destroy_epoller e = elim e.evlist [ none ↦ [] | some entries ↦ entries ∷ [] ]

-- Where `eventloop` is: in the next `epoll_wait`, returned with -1, or reading past `evlist_`.
pub data Loop : Type 0 where
  waiting : SmartEPoller → Loop
  returned overrun : Loop

-- The entries of `evlist_` that a round reads, and those that there are.
unfoldable pub entries_read : Waited → ℕ
entries_read (ready ev evs) = suc (length evs)
entries_read timeout = 0
entries_read interrupted = 0
entries_read broken = 0

unfoldable pub entries_there : SmartEPoller → ℕ
entries_there e = elim e.evlist [ none ↦ 0 | some entries ↦ entries ]

-- `eventloop` over what its calls of `epoll_wait` return, each with the items as the other threads
-- have left them by then: the callbacks of each round.
unfoldable pub eventloop :
    List (Memory × Waited) → SmartEPoller → List (List (ℕ × List Callback)) × Loop
unfolding round entries_read entries_there
eventloop [] e = ([], waiting e)
eventloop ((memory, w) ∷ ws) e =
    if leb (entries_read w) (entries_there e)
    then elim (round w (record e { items = memory })) [
      | none ↦ ([], returned)
      | some (calls, e') ↦ let (later, end) = eventloop ws e' in (calls ∷ later, end)
    ]
    else ([], overrun)

-- What follows `init` in `run_epoller`: its result is not looked at. `none` is its exception.
unfoldable pub after_init :
    List (Memory × Waited)
    → SmartEPoller × InitResult
    → Option (List (List (ℕ × List Callback)) × Loop)
unfolding eventloop
after_init ws (e, initialised) = some (eventloop ws e)
after_init ws (e, no_epoll) = some (eventloop ws e)
after_init ws (e, bad_length) = none

unfoldable pub run_epoller :
    Option ℕ
    → ℕ
    → List (Memory × Waited)
    → SmartEPoller
    → Option (List (List (ℕ × List Callback)) × Loop)
unfolding init after_init
run_epoller created evlist_size ws e = after_init ws (init created evlist_size e)
