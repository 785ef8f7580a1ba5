-- ===== src/Scheduler.antt =====
-- src/smart_thread.cpp with src/smart_routine.cpp: one worker thread that runs coroutines, with
-- the epoll thread and other pthreads putting coroutines on the shared list.
-- A coroutine is where its context says: it has not started (`runner`), it left through `yield`,
-- or it left through the `switch_to` in `main_loop` (the main coroutine, or one whose function has
-- returned). A transition runs from one point where the running code is chosen by the environment
-- (the user function of a coroutine, or the next round of `main_loop`) to the next such point.
-- The jump itself (`jump_fcontext`) is the vendored libcontext's; every user function is not null.
mod Tests
pub mod Balance
pub mod Steps
pub mod Arrive
pub mod Start
pub mod Mains
pub mod Moves
pub mod Safety
pub mod Lost
pub mod Round
pub mod Drain
use smart_routine.Prelude.{
  ℕ, zero, suc, ◌+◌, ◌≡◌, ◌<◌, Option, none, some, List, [], ◌∷◌, ◌==◌, if◌then◌else◌,
}
use smart_routine.Runtime.{Coro, SmartRuntime, wait_on_task_list}
use smart_routine.Runtime
use smart_routine.Thread.{
  SmartThread, DelayCallback, add_back_to_queue, enable_epoll_reading, enable_epoll_writing,
  destroy_coro, get_task, push_task,
}
use smart_routine.Thread

-- Where a saved context goes on: the entry of `coro_runner`, the end of `yield`, or the line after
-- `switch_to` in `main_loop`.
pub data Point : Type 0 where
  runner in_yield in_main_loop : Point

-- `context_`, with the `saved_errno` on the coroutine's stack.
pub record CoroContext : Type 0 where
  pub point : Point
  pub saved_errno : ℕ

-- What the worker does: `init` waits on the task list, `main_loop` is at its head, or the user
-- function of the current coroutine runs.
pub data Control : Type 0 where
  waiting looping user : Control

pub record World : Type 0 where
  pub thread : SmartThread
  pub runtime : SmartRuntime
  pub control : Control
  pub context : Coro → CoroContext
  pub errno : ℕ
  pub watched : List Coro  -- with an epoll item enabled
  pub destroyed : List Coro
  pub next_coro : Coro  -- no coroutine has this name or a higher one

abbrev pub update {ℓ} : {A : Type ℓ} → (Coro → A) → Coro → A → Coro → A
update f c a d = if c == d then a else f d

-- A call of the delayed callback, in one step. An event that is handled between `epoll_ctl` and
-- `set_watching` of enabling is, in Scheduler/Steps, a `resume` of a coroutine that is not watched.
unfoldable pub call : DelayCallback → World → World
call (add_back_to_queue c) w =
    let (t, r) = push_task w.thread w.runtime c in record w { thread = t; runtime = r }
call (enable_epoll_reading c) w = record w { watched = c ∷ w.watched }
call (enable_epoll_writing c) w = record w { watched = c ∷ w.watched }
call (destroy_coro c) w = record w { destroyed = c ∷ w.destroyed }

unfoldable pub set_callback : Option DelayCallback → World → World
set_callback cb w = record w { thread = record (w.thread) { delay_callback = cb } }

-- `if (delay_callback_) { delay_callback_(delay_callback_args_); delay_callback_ = nullptr; … }`
unfoldable pub delayed : Option DelayCallback → World → World
unfolding call set_callback
delayed none w = w
delayed (some cb) w = set_callback none (call cb w)

unfoldable pub run_delayed : World → World
unfolding delayed
run_delayed w = delayed w.thread.delay_callback w

-- What runs at the point that was jumped to, up to the next choice. `errno` is put back by the end
-- of `switch_to`, which a coroutine that starts does not pass. `yield` does not look at the
-- delayed callback.
unfoldable pub arrive : Point → ℕ → World → World
unfolding run_delayed
arrive runner saved_errno w = record (run_delayed w) { control = user }
arrive in_yield saved_errno w = record w { control = user; errno = saved_errno }
arrive in_main_loop saved_errno w = record (run_delayed (record w { errno = saved_errno })) {
  control = looping;
}

-- `switch_to`, called from `point`: what is saved, who is current, and the jump.
unfoldable pub leave : Point → Coro → World → World
leave point next_coro w = record w {
  context =
      update w.context w.thread.current_coro (record { point = point; saved_errno = w.errno });
  thread = record (w.thread) { current_coro = next_coro };
}

unfoldable pub switch_to : Point → Coro → World → World
unfolding arrive leave
switch_to point next_coro w =
    let next = w.context next_coro in arrive next.point next.saved_errno (leave point next_coro w)

-- `get_task` on the worker's thread.
unfoldable pub fetch : ℕ → World → Option Coro × World
fetch batch w =
    let (task, t, r) = get_task batch w.thread w.runtime in
    (task, record w { thread = t; runtime = r })

-- The end of `yield` and of a round of `main_loop`; without a task the latter sleeps.
unfoldable pub yield_to : Option Coro → World → World
unfolding switch_to
yield_to (some coro) w = switch_to in_yield coro w
yield_to none w = switch_to in_yield w.thread.main_coro w

unfoldable pub turn_to : Option Coro → World → World
unfolding switch_to
turn_to (some coro) w = switch_to in_main_loop coro w
turn_to none w = w

-- `yield`; in every call of it `with_callback` is true.
unfoldable pub yield : ℕ → DelayCallback → World → World
unfolding fetch yield_to set_callback
yield batch callback w =
    let (task, w') = fetch batch (set_callback (some callback) w) in yield_to task w'

-- One round of `main_loop`.
unfoldable pub turn : ℕ → World → World
unfolding fetch turn_to
turn batch w = let (task, w') = fetch batch w in turn_to task w'

-- The end of `coro_runner`, when the user function has returned.
unfoldable pub finish : World → World
unfolding set_callback
finish w = record (set_callback (some (destroy_coro w.thread.current_coro)) w) { control = looping }

-- `new SmartCoro` and `smart_routine_resume`, on the worker or on another pthread.
unfoldable pub create : World → World
create w = record w {
  context = update w.context w.next_coro (record { point = runner; saved_errno = 0 });
  next_coro = w.next_coro + 1;
}

unfoldable pub smart_routine_start : World → World
unfolding create
smart_routine_start w =
    let (t, r) = push_task w.thread w.runtime w.next_coro in
    record (create w) { thread = t; runtime = r }

unfoldable pub smart_routine_start_outside : World → World
unfolding create
smart_routine_start_outside w = record (create w) {
  runtime = Runtime.push_task w.runtime w.next_coro;
}

unfoldable pub remove : Coro → List Coro → List Coro
remove c [] = []
remove c (x ∷ xs) = if c == x then xs else x ∷ remove c xs

-- `resume_read_coro` and `resume_write_coro` on the epoll thread: the item is disabled, and the
-- coroutine goes to the shared list.
unfoldable pub resume_coro : Coro → World → World
unfolding remove
resume_coro c w = record w { watched = remove c w.watched; runtime = Runtime.push_task w.runtime c }

-- The worker `main` before `init`, with nothing to run.
unfoldable pub boot : ℕ → Coro → World
unfolding Thread.new
boot queue_length main = record {
  thread = Thread.new queue_length main;
  runtime = record { task_list = [] };
  control = waiting;
  context = λ c. record { point = runner; saved_errno = 0 };
  errno = 0;
  watched = [];
  destroyed = [];
  next_coro = main + 1;
}
