-- ===== src/Runtime.antt =====
-- src/smart_runtime.cpp: the list of runnable coroutines that all threads share.
-- A coroutine is named by a number. Each function below is one critical section of
-- `task_list_lock_`, so it is one step. `push_task` returns 0 on every path, which is left out.
pub mod Lifecycle
mod Tests
use smart_routine.Prelude.{
  ℕ, zero, suc, ◌+◌, ◌≡◌, refl, Option, none, some, List, [], ◌∷◌, ◌++◌, append_assoc, arith, ltb,
  if◌then◌else◌, length, take, drop, u32, min, ◌-◌, ◌<◌, ◌^◌,
}

abbrev pub Coro : Type 0
Coro = ℕ

pub record SmartRuntime : Type 0 where
  pub task_list : List Coro

unfoldable pub push_task : SmartRuntime → Coro → SmartRuntime
push_task r coro = record r { task_list = r.task_list ++ coro ∷ [] }

-- The loop of `get_tasks` with its counter: what is spliced out, what stays, and the last `i`.
unfoldable pub walk : List Coro → ℕ → ℕ → List Coro × List Coro × ℕ
walk [] i batch_size = ([], [], i)
walk (x ∷ xs) i batch_size =
    let rest = walk xs (u32 (i + 1)) batch_size in
    if ltb i batch_size then (x ∷ rest.0, rest.1, rest.2) else ([], x ∷ xs, i)

-- The tasks are spliced to the end of `tasks`. The result is the number of them.
unfoldable pub get_tasks : SmartRuntime → ℕ → List Coro → SmartRuntime × List Coro × ℕ
get_tasks r batch_size tasks =
    let (taken, left, i) = walk r.task_list 0 batch_size in
    (record r { task_list = left }, tasks ++ taken, i)

-- `none` while the caller stays blocked on the condition variable, otherwise the 0 returned.
unfoldable pub wait_on_task_list : SmartRuntime → Option ℕ
wait_on_task_list r = elim r.task_list [ [] ↦ none | x ∷ xs ↦ some 0 ]

walk_lem :
    (xs : List Coro) (i n m : ℕ)
    → m ≡ i + n
    → m < 2 ^ 32
    → walk xs i m ≡ (take n xs, drop n xs, i + min n (length xs))
unfolding walk
walk_lem [] i zero m e h = ground arith
walk_lem [] i (suc n) m e h = ground arith
walk_lem (x ∷ xs) i zero m e h = ground arith
walk_lem (x ∷ xs) i (suc n) m e h =
    let next : u32 (i + 1) ≡ i + 1 = omega arith in
    rw (next, walk_lem xs (i + 1) n m (omega arith) h) (ground arith)

-- `get_tasks` moves the oldest `batch_size` tasks, or all if there are fewer, to the end of
-- `tasks` in their order, leaves the others, and returns how many it moved.
pub get_tasks_lem :
    (r : SmartRuntime) (batch_size : ℕ) (tasks : List Coro)
    → batch_size < 2 ^ 32
    → get_tasks r batch_size tasks ≡ (
      record { task_list = drop batch_size r.task_list },
      tasks ++ take batch_size r.task_list,
      min batch_size (length r.task_list),
    )
unfolding get_tasks
get_tasks_lem r batch_size tasks h =
    rw (walk_lem r.task_list 0 batch_size batch_size (omega arith) h) (ground arith)
