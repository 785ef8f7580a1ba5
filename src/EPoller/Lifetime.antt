-- ===== src/EPoller/Lifetime.antt =====
-- `handle_events` of src/epoll_item.cpp, test by test, for an item on the stack of a coroutine that
-- its callbacks may resume: a worker may run the coroutine, and the item go, before the next test.
use smart_routine.Prelude.{
  Bool, true, false, ◌&&◌, ◌||◌, Option, none, some, List, [], ◌∷◌, ◌++◌, if◌then◌else◌,
}
use smart_routine.EPoller.{
  epollin, epollpri, epollout, epollerr, epollhup, epollrdhup, has, EPollItem, Callback, on_close,
  on_error, on_read, on_write, when,
}

-- The next test.
pub data Stage : Type 0 where
  at_close at_error at_read at_write at_end : Stage

-- `item` is none when the item is gone. `pushed` says that a callback has put the coroutine on a
-- task list.
pub record Handling : Type 0 where
  pub item : Option EPollItem
  pub stage : Stage
  pub pushed : Bool
  pub called : List Callback

unfoldable pub start_handling : EPollItem → Handling
start_handling item = record { item = some item; stage = at_close; pushed = false; called = [] }

-- A test by the epoll thread, with whether its callback, if it calls one, resumes the coroutine; or
-- a worker that runs the coroutine until the call that has made the item returns, if it can.
pub data Moment : Type 0 where
  tests : Bool → Moment
  returns : Moment

unfoldable pub called_at : Stage → EPollItem → List Callback
called_at at_close item = when (has epollhup item.revents && item.close_callback) on_close
called_at at_error item = when (has epollerr item.revents && item.error_callback) on_error
called_at at_read item =
    when
      ((has epollin item.revents || has epollpri item.revents || has epollrdhup item.revents)
        && item.read_callback)
      on_read
called_at at_write item = when (has epollout item.revents && item.write_callback) on_write
called_at at_end item = []

abbrev pub next_stage : Stage → Stage
next_stage at_close = at_error
next_stage at_error = at_read
next_stage at_read = at_write
next_stage at_write = at_end
next_stage at_end = at_end

abbrev pub any_of : List Callback → Bool
any_of [] = false
any_of (c ∷ cs) = true

-- `none`: the test reads an item that is gone.
unfoldable pub make_test : Bool → Handling → Stage → Option EPollItem → Option Handling
unfolding called_at
make_test resumed h at_end item = some h
make_test resumed h stage none = none
make_test resumed h stage (some item) = some (record h {
  stage = next_stage stage;
  pushed = h.pushed || resumed && any_of (called_at stage item);
  called = h.called ++ called_at stage item;
})

unfoldable pub moment : Moment → Handling → Option Handling
unfolding make_test
moment (tests resumed) h = make_test resumed h h.stage h.item
moment returns h = if h.pushed then some (record h { item = none }) else some h

unfoldable pub run : List Moment → Handling → Option Handling
unfolding moment
run [] h = some h
run (t ∷ ts) h = elim (moment t h) [ none ↦ none | some h' ↦ run ts h' ]
