-- ===== src/BoundedQueue/Tests.antt =====
-- The queue of include/common/bounded_queue.h at small inputs.
use smart_routine.Prelude.{ℕ, ◌≡◌, refl, true, false, some, none, List, [], ◌∷◌, arith}
use smart_routine.BoundedQueue.{new}
use smart_routine.BoundedQueue.Fifo.{
  Call, put, take_front, run, fifo_run, fifo_step, fifo_reply, run-new,
}

abbrev script : List (Call ℕ)
script = put 1 ∷ put 2 ∷ put 3 ∷ take_front ∷ put 4 ∷ take_front ∷ take_front ∷ take_front ∷ []

script_replies :
    fifo_run 2 [] script
    ≡ record { accepted = true; value = none; is_full = false; is_clear = false }
      ∷ record { accepted = true; value = none; is_full = true; is_clear = false }
      ∷ record { accepted = false; value = none; is_full = true; is_clear = false }
      ∷ record { accepted = true; value = some 1; is_full = false; is_clear = false }
      ∷ record { accepted = true; value = none; is_full = true; is_clear = false }
      ∷ record { accepted = true; value = some 2; is_full = false; is_clear = false }
      ∷ record { accepted = true; value = some 4; is_full = false; is_clear = true }
      ∷ record { accepted = false; value = none; is_full = false; is_clear = true }
      ∷ []
unfolding fifo_run fifo_step fifo_reply
script_replies = refl

run-new_example : run (new ℕ 2) script ≡ fifo_run 2 [] script
run-new_example = run-new 2 script (omega arith) (omega arith)
