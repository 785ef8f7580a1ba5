-- ===== src/DynamicBuffer/Tests.antt =====
-- The buffer of src/common/dynamic_buffer.cpp at small inputs.
use smart_routine.Prelude.{◌+◌, ◌≡◌, refl, inr, none, some, [], ◌∷◌, map, arith}
use smart_routine.ErrorCode.{success}
use smart_routine.DynamicBuffer.{
  DynamicBuffer, new, append, consume, move_forward, load, store, write_section, max_writable_bytes,
  writable_bytes,
}
use smart_routine.DynamicBuffer.Holds.{Holds, IsValid}
use smart_routine.DynamicBuffer.Append.{Appended, append-Holds, append-overruns, append-loose}
use smart_routine.DynamicBuffer.Consume.{consume-append}

-- 1 was consumed; 2 and 3 are held; one byte is free at the end.
abbrev partly_read : DynamicBuffer
partly_read = record {
  buffer = some 1 ∷ some 2 ∷ some 3 ∷ none ∷ [];
  read_index = 1;
  write_index = 3;
  capacity = 4;
  max_capacity = 16;
}

abbrev partly_read-Holds : Holds partly_read (2 ∷ 3 ∷ [])
partly_read-Holds = record {
  front = some 1 ∷ [];
  rest = none ∷ [];
  layout = refl;
  read_at = refl;
  write_at = refl;
}

partly_read-IsValid : IsValid partly_read
partly_read-IsValid = omega arith

-- The same after a compaction: `capacity_` says 5, and the block has 4 bytes.
abbrev compacted : DynamicBuffer
compacted = record {
  buffer = some 2 ∷ some 3 ∷ none ∷ none ∷ [];
  read_index = 0;
  write_index = 2;
  capacity = 5;
  max_capacity = 16;
}

abbrev compacted-Holds : Holds compacted (2 ∷ 3 ∷ [])
compacted-Holds = record {
  front = [];
  rest = none ∷ none ∷ [];
  layout = refl;
  read_at = refl;
  write_at = refl;
}

compacted-IsValid : IsValid compacted
compacted-IsValid = omega arith

-- A new buffer of 4 bytes with a bound of 64 takes 4 bytes, and the fifth one overruns it.
append_runs : append 1024 (new 64 4) (1 ∷ 2 ∷ 3 ∷ 4 ∷ 5 ∷ []) success ≡ none
unfolding append new writable_bytes max_writable_bytes move_forward load store write_section
append_runs = refl

append-Holds_example : Appended 1 partly_read-Holds partly_read-IsValid (7 ∷ 8 ∷ []) success
append-Holds_example =
    append-Holds 1 partly_read-Holds partly_read-IsValid (7 ∷ 8 ∷ []) success refl
      (inr (omega arith, omega arith))

append-overruns_example : append 1 partly_read (5 ∷ 6 ∷ 7 ∷ []) success ≡ none
append-overruns_example =
    append-overruns 1 partly_read-Holds partly_read-IsValid (5 ∷ 6 ∷ 7 ∷ []) success refl
      (omega arith) (omega arith)

append-loose_example : append 1 compacted (5 ∷ 6 ∷ 7 ∷ []) success ≡ none
append-loose_example =
    append-loose 1 compacted-Holds compacted-IsValid (5 ∷ 6 ∷ 7 ∷ []) success (omega arith)
      (omega arith) (omega arith)

consume-append_example :
    (b' b'' : DynamicBuffer) × (append 1 partly_read (7 ∷ 8 ∷ []) success ≡ some (b', success))
    × (consume b' (2 + 2) success ≡ some (b'', some (map some (2 ∷ 3 ∷ 7 ∷ 8 ∷ [])), success))
    × Holds b'' []
consume-append_example =
    consume-append 1 (7 ∷ 8 ∷ []) success partly_read-Holds partly_read-IsValid refl
      (inr (omega arith, omega arith))
