-- ===== src/Cluster/Tests.antt =====
-- Two workers of src/smart_runtime.cpp, and a coroutine that goes on on the other one.
use smart_routine.Prelude.{
  true, count, ℕ, zero, suc, get_elem?, ◌%◌, ◌+◌, ◌≤◌, ◌<◌, ◌≡◌, ◌≢◌, refl, some, none, List, [],
  ◌∷◌, arith,
}
use smart_routine.BoundedQueue
use smart_routine.BoundedQueue.{slot}
use smart_routine.BoundedQueue.Refine.{Represents}
use smart_routine.Runtime
use smart_routine.Runtime.{Coro}
use smart_routine.Thread
use smart_routine.Thread.{add_back_to_queue, enable_epoll_reading}
use smart_routine.Scheduler.{
  looping, user, runner, create, smart_routine_start_outside, resume_coro, remove, turn, turn_to,
  yield, yield_to, finish, switch_to, arrive, leave, run_delayed, delayed, call, set_callback,
  fetch,
}
use smart_routine.Scheduler.Steps.{begin, return, reading, requeue, Suspends}
use smart_routine.Cluster.{
  Cluster, settled, round_took, yield_took, worker, put, runs_at, start_up, is_return, in_one_step,
  return_elsewhere, act, round_takes, round_goes, yield_takes, yield_goes, started_outside, resumed,
  Reached, started, then_next, orderly, on_watched,
}
use smart_routine.Cluster.Shared.{all_alive, all_dead}
use smart_routine.Cluster.Safety.{Reached-once, Reached-apart}
use smart_routine.Cluster.Lost.{suspended, here, suspended-loses}
use smart_routine.Cluster.Elsewhere.{return_elsewhere-destroys}

abbrev cluster_ran : ℕ
unfolding put runs_at start_up is_return in_one_step return_elsewhere create
    smart_routine_start_outside resume_coro remove turn turn_to yield yield_to finish switch_to
    arrive leave run_delayed delayed call set_callback fetch Thread.new Thread.get_task
    Thread.push_task Thread.push_all Thread.take_front Runtime.push_task Runtime.get_tasks
    Runtime.walk Runtime.wait_on_task_list BoundedQueue.new BoundedQueue.push BoundedQueue.pop
    BoundedQueue.full BoundedQueue.empty BoundedQueue.front
cluster_ran = 0

-- Coroutine 2 starts on worker 0 and waits for a descriptor.
abbrev one_started : Cluster
one_started = put 0 settled (smart_routine_start_outside (worker 0 (start_up 2 4))) (start_up 2 4)

abbrev takes : ℕ → Cluster → Cluster
takes i k = put i (round_took (fetch 4 (worker i k)).0) (fetch 4 (worker i k)).1 k

abbrev loops : ℕ → Cluster → Cluster
loops i k = put i settled (record (worker i k) { control = looping }) k

abbrev first_takes : Cluster
first_takes = takes 0 (loops 0 one_started)

abbrev first_runs : Cluster
first_runs = put 0 settled (turn_to (some 2) (worker 0 first_takes)) first_takes

abbrev first_waits : Cluster
first_waits =
    let w = set_callback (some (enable_epoll_reading 2)) (worker 0 first_runs) in
    put 0 (yield_took (fetch 4 w).0) (fetch 4 w).1 first_runs

abbrev first_sleeps : Cluster
first_sleeps = put 0 settled (yield_to none (worker 0 first_waits)) first_waits

-- It goes on on worker 1.
abbrev again : Cluster
again = put 1 settled (resume_coro 2 (worker 1 first_sleeps)) first_sleeps

abbrev second_takes : Cluster
second_takes = takes 1 (loops 1 again)

abbrev moved : Cluster
moved = put 1 settled (turn_to (some 2) (worker 1 second_takes)) second_takes

moved_state : ((moved.thread 1).current_coro ≡ 2) × (moved.home 2 ≡ 0) × (moved.control 1 ≡ user)
unfolding cluster_ran
moved_state = (refl, refl, refl)

moved-Reached : Reached 4 2 4 moved
unfolding cluster_ran
moved-Reached =
    let r1 = then_next started (started_outside 0 (omega arith)) in
    let r2 = then_next r1 (act 0 (omega arith) refl (begin refl refl) refl (λ e. cc)) in
    let r3 = then_next r2 (round_takes 0 (omega arith) refl refl) in
    let r4 = then_next r3 (round_goes {task = some 2} 0 (omega arith) refl) in
    let r5 =
      then_next r4 (yield_takes {cb = enable_epoll_reading 2} 0 (omega arith) refl refl reading) in
    let r6 = then_next r5 (yield_goes {task = none} 0 (omega arith) refl) in
    let r7 = then_next r6 (resumed 1 2 (omega arith)) in
    let r8 = then_next r7 (act 1 (omega arith) refl (begin refl refl) refl (λ e. cc)) in
    let r9 = then_next r8 (round_takes 1 (omega arith) refl refl) in
    then_next r9 (round_goes {task = some 2} 1 (omega arith) refl)

moved-orderly : orderly moved-Reached ≡ true
unfolding cluster_ran orderly on_watched moved-Reached
moved-orderly = refl

Reached-once_example :
    (xs : ℕ → List Coro) × ((j : ℕ) → j < 2 → Represents (moved.thread j).task_queue (xs j))
    × (all_alive 2 xs moved 2 + all_dead 2 moved 2 ≤ 1)
Reached-once_example =
    Reached-once (omega arith) (omega arith) (omega arith) moved-Reached moved-orderly 2

Reached-apart_example :
    ((moved.thread 0).current_coro ≢ (moved.thread 1).current_coro)
    × (count (moved.thread 0).current_coro moved.destroyed ≡ 0)
Reached-apart_example =
    Reached-apart (omega arith) (omega arith) (omega arith) moved-Reached moved-orderly 0 1
      (omega arith) (omega arith) (λ e. absurd (omega arith))

-- Coroutines 3 and 4 start; 3 runs on worker 0 and returns, and 4 is left in its queue.
abbrev two_created : Cluster
two_created =
    let k = put 0 settled (smart_routine_start_outside (worker 0 moved)) moved in
    put 0 settled (smart_routine_start_outside (worker 0 k)) k

abbrev three_taken : Cluster
three_taken = takes 0 two_created

abbrev three_runs : Cluster
three_runs = put 0 settled (turn_to (some 3) (worker 0 three_taken)) three_taken

abbrev three_done : Cluster
three_done = put 0 settled (finish (worker 0 three_runs)) three_runs

three_done-Reached : Reached 4 2 4 three_done
unfolding cluster_ran
three_done-Reached =
    let r1 = then_next moved-Reached (started_outside 0 (omega arith)) in
    let r2 = then_next r1 (started_outside 0 (omega arith)) in
    let r3 = then_next r2 (round_takes 0 (omega arith) refl refl) in
    let r4 = then_next r3 (round_goes {task = some 3} 0 (omega arith) refl) in
    then_next r4 (act 0 (omega arith) refl (return refl) refl (λ _. refl))

three_done-orderly : orderly three_done-Reached ≡ true
unfolding cluster_ran orderly on_watched three_done-Reached moved-Reached
three_done-orderly = refl

three_done-slots :
    (i : ℕ)
    → i < 1
    → slot (three_done.thread 0).task_queue.items (((three_done.thread 0).task_queue.head + i) % 4)
      ≡ get_elem? (4 ∷ []) i
unfolding cluster_ran
three_done-slots zero lt = refl
three_done-slots (suc i) lt = absurd (omega arith)

three_done-Represents : Represents (three_done.thread 0).task_queue (4 ∷ [])
unfolding cluster_ran
three_done-Represents = record {
  positive = omega arith;
  small = omega arith;
  storage = refl;
  head_in = omega arith;
  fits = omega arith;
  tail_at = refl;
  emptiness = refl;
  slots = three_done-slots;
}

-- Coroutine 2, which started on worker 0, is on worker 1.
two_at_home : three_done.home (three_done.thread 1).current_coro ≡ 0
unfolding cluster_ran
two_at_home = refl

two_settled : three_done.phase 1 ≡ settled
unfolding cluster_ran
two_settled = refl

two_runs : three_done.control 1 ≡ user
unfolding cluster_ran
two_runs = refl

four_new : (three_done.context 4).point ≡ runner
unfolding cluster_ran
four_new = refl

return_elsewhere-destroys_example :
    (let k' = return_elsewhere 1 three_done in
      let after = put 0 settled (turn 4 (worker 0 k')) k' in
      (count (three_done.thread 1).current_coro three_done.destroyed ≡ 0)
      × (count (three_done.thread 1).current_coro after.destroyed ≡ 1)
      × ((after.thread 1).current_coro ≡ (three_done.thread 1).current_coro))
return_elsewhere-destroys_example =
    return_elsewhere-destroys (omega arith) (omega arith) (omega arith) three_done-Reached
      three_done-orderly 1 0 (omega arith) (omega arith) (λ e. absurd (omega arith)) two_settled
      two_runs two_at_home three_done-Represents four_new

-- Coroutines 1 and 2 of one worker: each yields, and 1 goes on while the callback of 2 is pending.
abbrev pair_started : Cluster
pair_started =
    let k = put 0 settled (smart_routine_start_outside (worker 0 (start_up 1 4))) (start_up 1 4) in
    put 0 settled (smart_routine_start_outside (worker 0 k)) k

abbrev one_runs : Cluster
one_runs = let k = takes 0 (loops 0 pair_started) in put 0 settled (turn_to (some 1) (worker 0 k)) k

abbrev goes_to : Coro → Cluster → Cluster
goes_to c k = put 0 settled (yield_to (some c) (worker 0 k)) k

abbrev one_again : Cluster
one_again =
    goes_to 1 (
      suspended 4 0 (add_back_to_queue 2)
        (goes_to 2 (suspended 4 0 (add_back_to_queue 1) one_runs)))

one_again-Reached : Reached 4 1 4 one_again
unfolding cluster_ran
one_again-Reached =
    let r1 = then_next started (started_outside 0 (omega arith)) in
    let r2 = then_next r1 (started_outside 0 (omega arith)) in
    let r3 = then_next r2 (act 0 (omega arith) refl (begin refl refl) refl (λ e. cc)) in
    let r4 = then_next r3 (round_takes 0 (omega arith) refl refl) in
    let r5 = then_next r4 (round_goes {task = some 1} 0 (omega arith) refl) in
    let r6 =
      then_next r5 (yield_takes {cb = add_back_to_queue 1} 0 (omega arith) refl refl requeue) in
    let r7 = then_next r6 (yield_goes {task = some 2} 0 (omega arith) refl) in
    let r8 =
      then_next r7 (yield_takes {cb = add_back_to_queue 2} 0 (omega arith) refl refl requeue) in
    then_next r8 (yield_goes {task = some 1} 0 (omega arith) refl)

one_again-orderly : orderly one_again-Reached ≡ true
unfolding cluster_ran orderly on_watched one_again-Reached
one_again-orderly = refl

one_again_facts :
    (one_again.phase 0 ≡ settled)
    × (one_again.control 0 ≡ user)
    × ((one_again.thread 0).delay_callback ≡ some (add_back_to_queue 2))
    × Suspends (one_again.thread 0).current_coro (add_back_to_queue 1)
unfolding cluster_ran
one_again_facts = (refl, refl, refl, requeue)

suspended-loses_example :
    (let k' = suspended 4 0 (add_back_to_queue 1) one_again in
      (xs : ℕ → List Coro) × ((j : ℕ) → j < 1 → Represents (k'.thread j).task_queue (xs j))
      × (all_alive 1 xs k' 2 ≡ 0))
suspended-loses_example =
    suspended-loses 0 2 (omega arith) (omega arith) (omega arith) one_again-Reached
      one_again-orderly (omega arith) one_again_facts.0 one_again_facts.1 one_again_facts.2 requeue
      one_again_facts.3 here
