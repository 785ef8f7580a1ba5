-- ===== src/Coro/Tests.antt =====
-- The stack size of src/smart_coro.cpp at its default and at another value.
use smart_routine.Prelude.{ℕ, ◌+◌, ◌*◌, ◌≤◌, ◌<◌, ◌≡◌, refl, arith, max, ◌-◌, Option, some, none}
use smart_routine.Coro.{default_stack_size, aligned_stack_size, Libcontext, new_coro, free_stack}
use smart_routine.Coro.Stack.{RunsOn, new_coro-RunsOn}

default_runs : aligned_stack_size 4096 default_stack_size ≡ 131072
unfolding aligned_stack_size
default_runs = refl

-- A context is the stack that it was made with.
abbrev stacks : Libcontext
stacks = record {
  F = ℕ × ℕ;
  make_fcontext = λ bp size. (bp - size, bp);
  lowest = λ f. f.0;
  highest = λ f. f.1;
  stack_lem = λ bp size fits. (omega arith, refl);
}

abbrev malloc : ℕ → Option ℕ
malloc size = some 65536

new_coro-RunsOn_example :
    (bytes : ℕ) × RunsOn stacks 65536 bytes (new_coro stacks malloc 4096 100000 (some 7) 9)
    × ((pages : ℕ) × (bytes ≡ pages * 4096))
    × (2 * 4096 ≤ bytes)
    × (100000 ≤ bytes)
    × (bytes < max 100000 (2 * 4096) + 4096)
new_coro-RunsOn_example =
    new_coro-RunsOn stacks malloc 4096 100000 (some 7) 9 (omega arith) (omega arith) (omega arith)

-- When malloc fails, the stack begins at address 0.
failed_malloc_runs :
    (let c = new_coro stacks (λ size. none) 4096 default_stack_size none 0 in
      (c.context.fcontext.0 ≡ 0) × (c.context.fcontext.1 ≡ 131072) × (free_stack stacks c ≡ 0))
unfolding new_coro free_stack aligned_stack_size
failed_malloc_runs = (refl, refl, refl)
