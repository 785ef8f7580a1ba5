-- ===== src/Scheduler/Tests.antt =====
-- Two coroutines that yield to each other under src/smart_thread.cpp.
use smart_routine.Prelude.{
  none, true, count, ℕ, zero, suc, get_elem?, length, ◌%◌, ◌+◌, ◌≤◌, ◌<◌, ◌≡◌, ◌≢◌, refl, List, [],
  ◌∷◌, arith,
}
use smart_routine.BoundedQueue
use smart_routine.BoundedQueue.{slot}
use smart_routine.BoundedQueue.Refine.{Represents, new-Represents}
use smart_routine.Runtime
use smart_routine.Runtime.{Coro}
use smart_routine.Thread
use smart_routine.Thread.{add_back_to_queue}
use smart_routine.Scheduler.{
  World, Control, user, boot, create, smart_routine_start_outside, turn, turn_to, yield, finish,
  yield_to, switch_to, arrive, leave, run_delayed, delayed, call, set_callback, fetch,
}
use smart_routine.Scheduler.Balance.{live, dead}
use smart_routine.Scheduler.Steps.{
  Reach, orderly, on_watched, booted, later, begin, round, suspend, start_outside, requeue,
}
use smart_routine.Scheduler.Arrive.{runs}
use smart_routine.Scheduler.Safety.{Reach-once, Reach-current}
use smart_routine.Scheduler.Round.{NotStarted}
use smart_routine.Scheduler.Drain.{serve, Drained, serve-all}

-- Coroutines 1 and 2 are started from outside; 1 runs and yields, and 2 starts.
abbrev two_started : World
two_started = smart_routine_start_outside (smart_routine_start_outside (boot 4 0))

abbrev first_runs : World
first_runs = turn 4 (record two_started { control = Control.looping })

abbrev second_runs : World
second_runs = yield 4 (add_back_to_queue 1) first_runs

-- Everything that a run calls.
abbrev ran : ℕ
unfolding boot create smart_routine_start_outside turn turn_to yield yield_to switch_to arrive leave
    run_delayed delayed call set_callback fetch Thread.new Thread.get_task Thread.push_task
    Thread.push_all Thread.take_front Runtime.push_task Runtime.get_tasks Runtime.walk
    Runtime.wait_on_task_list BoundedQueue.new BoundedQueue.push BoundedQueue.pop BoundedQueue.full
    BoundedQueue.empty BoundedQueue.front
ran = 0

second_state : (second_runs.control ≡ user) × (second_runs.thread.current_coro ≡ 2)
unfolding ran
second_state = (refl, refl)

-- The run, transition by transition.
second-Reach : Reach 4 4 0 second_runs
unfolding ran
second-Reach =
    later
      (later (later (later (later booted start_outside) start_outside) (begin refl refl))
        (round refl))
      (suspend {cb = add_back_to_queue 1} refl requeue)

second-orderly : orderly second-Reach ≡ true
unfolding ran orderly on_watched second-Reach
second-orderly = refl

second_slots :
    (i : ℕ)
    → i < 1
    → slot second_runs.thread.task_queue.items ((second_runs.thread.task_queue.head + i) % 4)
      ≡ get_elem? (1 ∷ []) i
unfolding ran
second_slots zero lt = refl
second_slots (suc k) lt = absurd (omega arith)

second-Represents : Represents second_runs.thread.task_queue (1 ∷ [])
unfolding ran
second-Represents = record {
  positive = omega arith;
  small = omega arith;
  storage = refl;
  head_in = omega arith;
  fits = omega arith;
  tail_at = refl;
  emptiness = refl;
  slots = second_slots;
}

Reach-once_example :
    (xs : List Coro) × Represents second_runs.thread.task_queue xs
    × (live 2 second_runs (runs second_runs.control second_runs.thread.current_coro) xs
          + dead 2 second_runs
        ≤ 1)
Reach-once_example =
    Reach-once (omega arith) (omega arith) (omega arith) second-Reach second-orderly 2

Reach-current_example :
    (count second_runs.thread.current_coro second_runs.destroyed ≡ 0)
    × (second_runs.control ≡ user → second_runs.thread.current_coro ≢ second_runs.thread.main_coro)
Reach-current_example =
    Reach-current (omega arith) (omega arith) (omega arith) second-Reach second-orderly

-- Coroutine 1 left through `yield`. When 2 and then 1 suspend themselves, 2 is lost.
lost_runs :
    (let w = yield 4 (add_back_to_queue 1) (yield 4 (add_back_to_queue 2) second_runs) in
      (w.thread.delay_callback ≡ none) × (w.runtime.task_list ≡ []) × (w.thread.current_coro ≡ 0))
unfolding ran
lost_runs = (refl, refl, refl)

-- The two coroutines, run to their end from the shared list.
abbrev at_head : World
at_head = record two_started { control = Control.looping }

at_head-Reach : Reach 4 4 0 at_head
unfolding ran
at_head-Reach = later (later (later booted start_outside) start_outside) (begin refl refl)

at_head-orderly : orderly at_head-Reach ≡ true
unfolding ran orderly on_watched at_head-Reach
at_head-orderly = refl

at_head-Represents : Represents at_head.thread.task_queue []
unfolding ran
at_head-Represents = new-Represents 4 (omega arith) (omega arith)

at_head_tasks : at_head.runtime.task_list ≡ 1 ∷ 2 ∷ []
unfolding ran
at_head_tasks = refl

at_head_fresh : NotStarted at_head.runtime.task_list at_head
unfolding ran
at_head_fresh zero among = absurd (omega arith)
at_head_fresh (suc zero) among = refl
at_head_fresh (suc (suc zero)) among = refl
at_head_fresh (suc (suc (suc c))) among = absurd (ground arith)

served_two : (serve 4 2 at_head).0 ≡ 1 ∷ 2 ∷ []
unfolding ran serve finish
served_two = refl

serve-all_example :
    Drained 4 at_head at_head.runtime.task_list (serve 4 (length at_head.runtime.task_list) at_head)
serve-all_example =
    serve-all (omega arith) (omega arith) (omega arith) at_head-Reach at_head-orderly refl
      at_head-Represents at_head_fresh
