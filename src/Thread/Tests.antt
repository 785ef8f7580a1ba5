-- ===== src/Thread/Tests.antt =====
-- The task queue of src/smart_thread.cpp at small inputs.
use smart_routine.Prelude.{◌≡◌, refl, some, [], ◌∷◌, arith}
use smart_routine.BoundedQueue
use smart_routine.BoundedQueue.Refine.{Represents, new-Represents}
use smart_routine.Runtime.{SmartRuntime, get_tasks, walk}
use smart_routine.Thread.{SmartThread, new, get_task, push_task, push_all, take_front}
use smart_routine.Thread.Take.{Got, Pushed, get_task-Got, push_task-Pushed}

abbrev idle : SmartThread
idle = new 4 0

abbrev shared : SmartRuntime
shared = record { task_list = 1 ∷ 2 ∷ 3 ∷ [] }

idle-Represents : Represents idle.task_queue []
unfolding new
idle-Represents = new-Represents 4 (omega arith) (omega arith)

get_task_runs : (get_task 2 idle shared).0 ≡ some 1
unfolding get_task new get_tasks walk push_all take_front BoundedQueue.new BoundedQueue.push
    BoundedQueue.empty BoundedQueue.front
get_task_runs = refl

get_task-Got_example : Got idle shared [] (get_task 2 idle shared)
unfolding new BoundedQueue.new
get_task-Got_example = get_task-Got idle shared 2 [] (omega arith) (omega arith) idle-Represents

push_task-Pushed_example : Pushed idle shared 7 [] (push_task idle shared 7)
push_task-Pushed_example = push_task-Pushed idle shared 7 [] idle-Represents

-- A batch larger than the queue loses tasks: of three tasks two are dropped for want of room.
batch_overflows : (get_task 3 (new 1 0) shared).0 ≡ some 1
unfolding get_task new get_tasks walk push_all take_front BoundedQueue.new BoundedQueue.push
    BoundedQueue.empty BoundedQueue.front
batch_overflows = refl
