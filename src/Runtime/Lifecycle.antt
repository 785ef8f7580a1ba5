-- ===== src/Runtime/Lifecycle.antt =====
-- src/smart_runtime.cpp: the one instance, the threads that it starts, and those that it joins.
-- The flag runtime_threads_num and what `hardware_concurrency` returns are arguments.
use smart_routine.Prelude.{
  ℕ, zero, suc, ◌+◌, ◌≡◌, Bool, true, false, Option, none, some, List, [], ◌∷◌, ◌++◌, ◌==◌,
  if◌then◌else◌, u32, ltb,
}

pub data Pthread : Type 0 where
  worker : ℕ → Pthread
  epoller timer : Pthread

-- `once_control_`, `value_` by its `threads_num_`, the threads created and the handlers of exit.
pub record Process : Type 0 where
  pub once : Bool
  pub value : Option ℕ
  pub created : List Pthread
  pub exit_handlers : ℕ

unfoldable pub fresh_process : Process
fresh_process = record { once = false; value = none; created = []; exit_handlers = 0 }

-- The loop from `i` on, with `rounds` left.
unfoldable pub workers_from : ℕ → ℕ → List Pthread
workers_from i zero = []
workers_from i (suc rounds) = worker i ∷ workers_from (i + 1) rounds

unfoldable pub threads_num : ℕ → ℕ → ℕ
threads_num runtime_threads_num hardware_concurrency =
    if runtime_threads_num == 0 then u32 hardware_concurrency else u32 runtime_threads_num

unfoldable pub init : ℕ → ℕ → Process → Process
unfolding workers_from threads_num
init flag hardware p =
    let n = threads_num flag hardware in
    record p {
      value = some n;
      created = p.created ++ (workers_from 0 n ++ epoller ∷ timer ∷ []);
      exit_handlers = p.exit_handlers + 1;
    }

-- `pthread_once`, and the value.
unfoldable pub get_instance : ℕ → ℕ → Process → Process
unfolding init
get_instance flag hardware p = if p.once then p else init flag hardware (record p { once = true })

-- The threads that `pthread_join` is called for when the destructor runs, one after the other; a
-- call for a thread that does not return is the last.
unfoldable pub joins : (Pthread → Bool) → List Pthread → List Pthread
joins returns [] = []
joins returns (t ∷ ts) = let rest = joins returns ts in if returns t then t ∷ rest else t ∷ []

-- The destructor, for `threads_num_`.
unfoldable pub joined : (Pthread → Bool) → ℕ → List Pthread
unfolding workers_from joins
joined returns n = joins returns (workers_from 0 n ++ timer ∷ timer ∷ [])

unfoldable pub get_instances : ℕ → ℕ → ℕ → Process → Process
unfolding get_instance
get_instances flag hardware zero p = p
get_instances flag hardware (suc calls) p =
    get_instances flag hardware calls (get_instance flag hardware p)

abbrev pub same : Pthread → Pthread → Bool
same (worker i) (worker j) = i == j
same epoller epoller = true
same timer timer = true
same _ _ = false

abbrev pub times : Pthread → List Pthread → ℕ
times t [] = 0
times t (x ∷ xs) = (if same t x then 1 else 0) + times t xs

-- What is there after `get_instance`; `k` is any number.
pub record Started (n k : ℕ) (p : Process) : Type 0 where
  pub built : p.value ≡ some n
  pub one_handler : p.exit_handlers ≡ 1
  pub worker_created : times (worker k) p.created ≡ (if ltb k n then 1 else 0)
  pub epoller_created : times epoller p.created ≡ 1
  pub timer_created : times timer p.created ≡ 1
