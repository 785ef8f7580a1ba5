-- ===== src/Scheduler/Mains.antt =====
-- No transition of src/smart_thread.cpp changes `main_coro_`.
use smart_routine.Prelude.{ℕ, ◌≡◌, refl, ◌∙◌, Option, none, some, [], ◌==◌, Bool-cases, inl, inr}
use smart_routine.BoundedQueue
use smart_routine.Runtime.{Coro, SmartRuntime, get_tasks}
use smart_routine.Thread.{
  SmartThread, DelayCallback, add_back_to_queue, enable_epoll_reading, enable_epoll_writing,
  destroy_coro, get_task, push_task, take_front,
}
use smart_routine.Scheduler.{
  World, Point, runner, in_yield, in_main_loop, call, set_callback, delayed, run_delayed, arrive,
  leave, switch_to, fetch, yield_to, yield, turn_to, turn, finish, create, smart_routine_start,
  smart_routine_start_outside, resume_coro,
}
use smart_routine.Scheduler.Steps.{
  Step, begin, round, suspend, return, start, start_outside, resume,
}

pub push_task-main :
    (t : SmartThread) (r : SmartRuntime) (c : Coro) → (push_task t r c).0.main_coro ≡ t.main_coro
unfolding push_task
push_task-main t r c = elim (Bool-cases (BoundedQueue.push t.task_queue c).0) [
  | inl e ↦ rw e refl
  | inr e ↦ rw e refl
]

pub get_task-main :
    (batch : ℕ) (t : SmartThread) (r : SmartRuntime)
    → (get_task batch t r).1.main_coro ≡ t.main_coro
unfolding get_task take_front
get_task-main batch t r = elim (Bool-cases (BoundedQueue.empty t.task_queue)) [
  | inl e ↦ elim (Bool-cases ((get_tasks r batch []).2 == 0)) [
    | inl none_got ↦ rw (e, none_got) refl
    | inr some_got ↦ rw (e, some_got) refl
  ]
  | inr e ↦ rw e refl
]

delayed-main :
    (cb : Option DelayCallback) (w : World) → (delayed cb w).thread.main_coro ≡ w.thread.main_coro
unfolding delayed call set_callback
delayed-main none w = refl
delayed-main (some (add_back_to_queue c)) w = push_task-main w.thread w.runtime c
delayed-main (some (enable_epoll_reading c)) w = refl
delayed-main (some (enable_epoll_writing c)) w = refl
delayed-main (some (destroy_coro c)) w = refl

arrive-main :
    (p : Point) (errno : ℕ) (w : World) → (arrive p errno w).thread.main_coro ≡ w.thread.main_coro
unfolding arrive run_delayed
arrive-main runner errno w = delayed-main w.thread.delay_callback w
arrive-main in_yield errno w = refl
arrive-main in_main_loop errno w = delayed-main w.thread.delay_callback (record w { errno = errno })

switch_to-main :
    (p : Point) (c : Coro) (w : World) → (switch_to p c w).thread.main_coro ≡ w.thread.main_coro
unfolding switch_to leave
switch_to-main p c w =
    let next = w.context c in arrive-main next.point next.saved_errno (leave p c w)

pub yield_to-main :
    (task : Option Coro) (w : World) → (yield_to task w).thread.main_coro ≡ w.thread.main_coro
unfolding yield_to
yield_to-main (some c) w = switch_to-main in_yield c w
yield_to-main none w = switch_to-main in_yield w.thread.main_coro w

pub turn_to-main :
    (task : Option Coro) (w : World) → (turn_to task w).thread.main_coro ≡ w.thread.main_coro
unfolding turn_to
turn_to-main (some c) w = switch_to-main in_main_loop c w
turn_to-main none w = refl

pub Step-main :
    {batch : ℕ} {w w' : World} → Step batch w w' → w'.thread.main_coro ≡ w.thread.main_coro
unfolding yield turn fetch finish set_callback create smart_routine_start
    smart_routine_start_outside resume_coro
Step-main (begin _ _) = refl
Step-main {batch} {w} (round _) =
    turn_to-main (fetch batch w).0 (fetch batch w).1 ∙ get_task-main batch w.thread w.runtime
Step-main {batch} {w} (suspend {cb} _ _) =
    let w' = set_callback (some cb) w in
    yield_to-main (fetch batch w').0 (fetch batch w').1 ∙ get_task-main batch w'.thread w'.runtime
Step-main (return _) = refl
Step-main {w} (start _) = push_task-main w.thread w.runtime w.next_coro
Step-main start_outside = refl
Step-main (resume c) = refl
