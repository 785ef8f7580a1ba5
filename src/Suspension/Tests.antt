-- ===== src/Suspension/Tests.antt =====
-- A suspended `smart_read` of src/smart_routine.cpp over a few events.
use smart_routine.Prelude.{ℕ, ◌≡◌, refl, Bool, false, true, Option, some, none, List, [], ◌∷◌}
use mathlib.Core.Option
use smart_routine.Runtime.{SmartRuntime, push_task}
use smart_routine.DynamicBuffer.{store}
use smart_routine.Callbacks.{callbacks}
use smart_routine.ReadUntil.{ReadResult, received, failed, ewouldblock}
use smart_routine.Io.{
  ReadContext, smart_read_impl, WriteContext, new_write, smart_write_impl, returned,
}
use smart_routine.EPoller.{epollin, epollout, epollhup}
use smart_routine.EPoller.Table.{table}
use smart_routine.Suspension.{Suspended, reading, writing, new_item, suspend, on_events}
use smart_routine.Suspension.Taken.{first, second, left, second-unregistered}
use smart_routine.Suspension.Once.{results, Ended}
use smart_routine.Suspension.Rounds.{
  LoopRound, reports, elsewhere, repeats, on_rounds, on_rounds-Ended,
}

abbrev begun : ReadContext
begun = record { buf = none ∷ none ∷ []; count = 2; ret = 0; errno = 0 }

abbrev filled : ReadContext
filled = record { buf = some 7 ∷ some 8 ∷ []; count = 2; ret = 2; errno = 0 }

-- The third event is not for the callback, and the last one comes when the descriptor is no longer
-- registered.
abbrev events : List (ℕ × ReadResult)
events =
    (epollin, received (7 ∷ []))
    ∷ (epollin, failed ewouldblock)
    ∷ (epollhup, received [])
    ∷ (epollin, received (8 ∷ []))
    ∷ (epollin, received (9 ∷ []))
    ∷ []

read_runs : callbacks smart_read_impl (results reading events) begun ≡ some (filled, true)
unfolding callbacks smart_read_impl store
read_runs = refl

-- The same events in rounds, with one for another item.
abbrev rounds : List (LoopRound ReadResult)
rounds =
    reports epollin (received (7 ∷ []))
    ∷ reports epollin (failed ewouldblock)
    ∷ elsewhere
    ∷ reports epollhup (received [])
    ∷ reports epollin (received (8 ∷ []))
    ∷ reports epollin (received (9 ∷ []))
    ∷ []

abbrev reader : ReadContext → Suspended table smart_read_impl reading 5
reader context = suspend table smart_read_impl reading 5 (record {
  item = new_item reading 3;
  k = λ fd. none;
  context = context;
  runtime = record { task_list = 4 ∷ [] };
})

on_rounds-Ended_example :
    (s : Suspended table smart_read_impl reading 5) × (listed : Bool) × (on_rounds table
        smart_read_impl reading 5 rounds
        (reader begun, false)
      ≡ some (s, listed))
    × Ended table smart_read_impl 5 3
        (λ fd. none)
        (record { task_list = 4 ∷ [] })
        refl
        reading
        (filled, true)
        s
on_rounds-Ended_example =
    on_rounds-Ended table smart_read_impl reading 5 3 (λ fd. none) (record { task_list = 4 ∷ [] })
      refl rounds begun (filled, true) refl read_runs

-- Both bytes come at once, and then epoll_wait is interrupted: the item is handled again, and reads
-- no bytes, which is taken for the end of file. The coroutine is on the list twice.
interrupted_twice :
    Option.map
      (λ (s : Suspended table smart_read_impl reading 5 × Bool). s.0.runtime.task_list)
      (on_rounds table smart_read_impl reading 5
        (reports epollin (received (7 ∷ 8 ∷ [])) ∷ repeats (received []) ∷ [])
        (reader begun, false))
    ≡ some (4 ∷ 5 ∷ 5 ∷ [])
unfolding on_rounds suspend new_item smart_read_impl store push_task
interrupted_twice = refl

-- A write of one byte while a read of the same descriptor waits.
abbrev no_runtime : SmartRuntime
no_runtime = record { task_list = [] }

abbrev sent : WriteContext
sent = new_write (1 ∷ []) 1

second-unregistered_example :
    (let unwatched : ℕ → Option ℕ = λ fd. none in
      let writer =
        second table 3 unwatched refl smart_read_impl reading 5 begun no_runtime smart_write_impl
          writing 6 sent in
      let reader =
        first table 3 unwatched refl smart_read_impl reading 5 begun no_runtime smart_write_impl
          writing 6 sent in
      let waits =
        left table 3 unwatched refl smart_read_impl reading 5 begun no_runtime smart_write_impl
          writing 6 sent in
      (writer.k ≡ reader.k)
      × (writer.item.watching ≡ true)
      × (on_events table smart_write_impl writing 6 ((epollout, returned 1) ∷ []) waits
          ≡ some waits))
second-unregistered_example =
    second-unregistered table 3 (λ fd. none) refl smart_read_impl reading 5 begun no_runtime
      smart_write_impl writing 6 sent ((epollout, returned 1) ∷ [])
