-- ===== src/Thread.antt =====
-- src/smart_thread.cpp and include/smart_thread.h: one worker thread's task queue.
-- The runtime is passed along, since `get_task` and `push_task` fall back on it.
pub mod Take
mod Tests
use smart_routine.Prelude.{ℕ, ◌==◌, Option, none, some, List, [], ◌∷◌, if◌then◌else◌, true, false}
use smart_routine.BoundedQueue
use smart_routine.BoundedQueue.{BoundedQueue}
use smart_routine.Runtime.{Coro, SmartRuntime, get_tasks}
use smart_routine.Runtime

-- `delay_callback_` with `delay_callback_args_`: the callbacks that the library passes to `yield`
-- or sets itself. The epoll item of an operation is named by the coroutine that waits on it.
pub data DelayCallback : Type 0 where
  add_back_to_queue : Coro → DelayCallback
  enable_epoll_reading : Coro → DelayCallback
  enable_epoll_writing : Coro → DelayCallback
  destroy_coro : Coro → DelayCallback

pub record SmartThread : Type 0 where
  pub main_coro : Coro
  pub current_coro : Coro
  pub task_queue : BoundedQueue Coro
  pub delay_callback : Option DelayCallback

-- The default of the flag task_queue_length, and of acquire_tasks_batch_size.
abbrev pub task_queue_length : ℕ
task_queue_length = 25

abbrev pub acquire_tasks_batch_size : ℕ
acquire_tasks_batch_size = 10

-- The constructor, whose main coroutine is `main`.
unfoldable pub new : ℕ → Coro → SmartThread
new queue_length main = record {
  main_coro = main;
  current_coro = main;
  task_queue = BoundedQueue.new Coro queue_length;
  delay_callback = none;
}

unfoldable pub get_current_coro : SmartThread → Coro
get_current_coro t = t.current_coro

-- `for (auto coro : tmp_list) task_queue_.push(coro);`
unfoldable pub push_all : BoundedQueue Coro → List Coro → BoundedQueue Coro
push_all q [] = q
push_all q (coro ∷ rest) = push_all (BoundedQueue.push q coro).1 rest

-- The end of `get_task`.
unfoldable pub take_front : SmartThread → Option Coro × SmartThread
take_front t =
    (BoundedQueue.front t.task_queue, record t { task_queue = (BoundedQueue.pop t.task_queue).1 })

-- `batch` is the flag acquire_tasks_batch_size. The null pointer is `none`.
unfoldable pub get_task : ℕ → SmartThread → SmartRuntime → Option Coro × SmartThread × SmartRuntime
unfolding take_front
get_task batch t r =
    let (r', tmp_list, ret) = get_tasks r batch [] in
    let filled = record t { task_queue = push_all t.task_queue tmp_list } in
    if BoundedQueue.empty t.task_queue
    then (if ret == 0 then (none, t, r') else ((take_front filled).0, (take_front filled).1, r'))
    else ((take_front t).0, (take_front t).1, r)

-- Both paths return 0, which is left out.
unfoldable pub push_task : SmartThread → SmartRuntime → Coro → SmartThread × SmartRuntime
push_task t r coro =
    let (success, q) = BoundedQueue.push t.task_queue coro in
    if success
    then (record t { task_queue = q }, r)
    else (record t { task_queue = q }, Runtime.push_task r coro)
