-- ===== src/Io/Tests.antt =====
-- The callbacks of src/internal/smart_routine_impl.cpp at small inputs.
use smart_routine.Prelude.{ℕ, ◌≡◌, refl, Bool, true, some, none, List, [], ◌∷◌}
use smart_routine.DynamicBuffer.{Byte}
use smart_routine.ReadUntil.{ReadResult, received, failed, ewouldblock}
use smart_routine.ReadUntil.Resumes
use smart_routine.ReadUntil.Resumes.{arrived}
use smart_routine.Callbacks.{callbacks}
use smart_routine.Io.{
  WriteContext, returned, refused, new_write, smart_write_impl, minus_one, end_transfer,
}
use mathlib.Core.Option

abbrev memory : List Byte
memory = none ∷ none ∷ none ∷ none ∷ []

abbrev reads : List ReadResult
reads = received (7 ∷ []) ∷ failed ewouldblock ∷ received (8 ∷ 9 ∷ []) ∷ []

reads-IsFlowing : Resumes.IsFlowing reads
reads-IsFlowing =
    Resumes.IsFlowing.some_bytes 7 [] (
      Resumes.IsFlowing.spurious (Resumes.IsFlowing.some_bytes 8 (9 ∷ []) Resumes.IsFlowing.silent))

-- All three bytes go out, in two writes.
writes_run :
    Option.map {B = ℕ × Bool}
      (λ (out : WriteContext × Bool). (out.0.ret, out.1))
      (callbacks smart_write_impl
        (returned 1 ∷ refused ewouldblock ∷ returned 2 ∷ [])
        (new_write (5 ∷ 6 ∷ 7 ∷ []) 3))
    ≡ some (3, true)
unfolding callbacks smart_write_impl new_write
writes_run = refl

-- A failed read: the caller gets -1, and `errno` is not the failure's.
read_errno_lost : end_transfer minus_one 104 0 ≡ (minus_one, 0)
unfolding end_transfer
read_errno_lost = refl
