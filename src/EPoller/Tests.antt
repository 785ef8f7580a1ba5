-- ===== src/EPoller/Tests.antt =====
-- src/smart_epoller.cpp over an interest list that is a function.
use smart_routine.Prelude.{◌↔◌, ◌≡◌, ◌^◌, refl, arith, inr, true, false, none, some, List, [], ◌∷◌}
use smart_routine.EPoller.{
  epollin, EPollItem, new, on_read, SmartEPoller, Waited, ready, interrupted, broken, collect,
  handle_events, handle_all, round,
}
use smart_routine.EPoller.Table.{table}
use smart_routine.EPoller.Watches.{
  read_on, read_off, write_on, Change, wants_all, change_all, Shown, changes-Shown,
}
use smart_routine.EPoller.Loop.{
  Memory, new_epoller, init, waiting, returned, destroy_epoller, after_init, run_epoller,
}
use smart_routine.EPoller.Batches.{no_event, new_item}
use smart_routine.EPoller.Lifetime.{
  Moment, called_at, start_handling, tests, returns, any_of, make_test, moment, run,
}
use smart_routine.EPoller.Outlived.{early, run-outlived}
use smart_routine.EPoller.Served.{
  AllDocumented, done, also, events, signal, bad_number, started, expected, run_epoller-serves,
  run_epoller-ends,
}

abbrev changes : List Change
changes = read_on ∷ write_on ∷ read_off ∷ []

changes-Shown_example :
    Shown table 7 (wants_all changes (false, false)) (change_all table changes (new 7) (λ fd. none))
changes-Shown_example = changes-Shown table 7 (λ fd. none) changes refl

-- Item 1 has a read callback.
abbrev watcher : SmartEPoller
watcher = record {
  items = λ p. record {
    fd = p;
    events = epollin;
    revents = 0;
    read_callback = true;
    write_callback = false;
    close_callback = false;
    error_callback = false;
    watching = true;
  };
  ready_list = [];
  epoll_fd = some 5;
  maxevents = 10;
  evlist = some 10;
}

abbrev handled : SmartEPoller
handled = collect ((some 1, epollin) ∷ []) watcher

one_event_runs : round (ready (some 1, epollin) []) watcher ≡ some ((1, on_read ∷ []) ∷ [], handled)
unfolding round collect handle_all handle_events
one_event_runs = refl

-- The item is ready, then a signal comes.
abbrev history : List (Memory × Waited)
history = (watcher.items, ready (some 1, epollin) []) ∷ (handled.items, interrupted) ∷ []

history-AllDocumented :
    AllDocumented
      (started (some 5) 0 watcher.items).maxevents
      (started (some 5) 0 watcher.items).epoll_fd
      history
unfolding init new_epoller
history-AllDocumented =
    also watcher.items
      (events 5 (some 1, epollin) [] (omega arith) (new_item 1 epollin refl no_event))
      (also handled.items (signal 5 (omega arith)) done)

run_epoller-serves_example :
    (e : SmartEPoller) × (run_epoller (some 5) 0 history (new_epoller watcher.items)
      ≡ some (expected [] history, waiting e))
run_epoller-serves_example =
    run_epoller-serves 5 0 watcher.items history (omega arith) (omega arith) history-AllDocumented

calls_repeat : expected [] history ≡ ((1, on_read ∷ []) ∷ []) ∷ ((1, on_read ∷ []) ∷ []) ∷ []
unfolding collect handle_all handle_events
calls_repeat = refl

-- A value of 2 ^ 32 of the flag is cut to 0; one of 2 ^ 31 is negative as an int.
cut_to_zero-AllDocumented :
    AllDocumented
      (started (some 5) (2 ^ 32) watcher.items).maxevents
      (started (some 5) (2 ^ 32) watcher.items).epoll_fd
      ((watcher.items, broken) ∷ [])
unfolding init new_epoller
cut_to_zero-AllDocumented = also watcher.items (bad_number 5 refl) done

run_epoller-ends_example :
    run_epoller (some 5) (2 ^ 32) ((watcher.items, broken) ∷ []) (new_epoller watcher.items)
    ≡ some ([], returned)
run_epoller-ends_example =
    run_epoller-ends (some 5) (2 ^ 32) watcher.items watcher.items broken [] (inr refl)
      cut_to_zero-AllDocumented

negative_throws : run_epoller (some 5) (2 ^ 31) [] (new_epoller watcher.items) ≡ none
unfolding run_epoller after_init init new_epoller
negative_throws = refl

unstarted_deletes_nothing : destroy_epoller (started none 0 watcher.items) ≡ []
unfolding destroy_epoller init new_epoller
unstarted_deletes_nothing = refl

started_deletes : destroy_epoller (started (some 5) 8 watcher.items) ≡ 8 ∷ []
unfolding destroy_epoller init new_epoller
started_deletes = refl

-- What smart_read watches, with an event for reading.
abbrev readable : EPollItem
readable = record {
  fd = 7;
  events = epollin;
  revents = epollin;
  read_callback = true;
  write_callback = false;
  close_callback = false;
  error_callback = false;
  watching = true;
}

run-outlived_example :
    ((ts : List Moment) × (run ts (start_handling readable) ≡ none))
    ↔ (any_of (early readable) ≡ true)
run-outlived_example = run-outlived readable

-- The worker is there before the test for writing.
readable_goes :
    run
      (tests false ∷ tests false ∷ tests true ∷ returns ∷ tests false ∷ [])
      (start_handling readable)
    ≡ none
unfolding run moment make_test start_handling called_at
readable_goes = refl
