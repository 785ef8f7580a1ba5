-- ===== src/Runtime/Tests.antt =====
-- The shared list of src/smart_runtime.cpp at small inputs.
use smart_routine.Prelude.{◌≡◌, refl, some, [], ◌∷◌}
use smart_routine.Runtime.{get_tasks, walk, wait_on_task_list, push_task}

get_two :
    get_tasks (record { task_list = 1 ∷ 2 ∷ 3 ∷ [] }) 2 (9 ∷ [])
    ≡ (record { task_list = 3 ∷ [] }, 9 ∷ 1 ∷ 2 ∷ [], 2)
unfolding get_tasks walk
get_two = refl

wait_ends : wait_on_task_list (push_task (record { task_list = [] }) 5) ≡ some 0
unfolding wait_on_task_list push_task
wait_ends = refl
