-- ===== src/Io/Ints.antt =====
-- The counts that the readiness callbacks of src/internal/smart_routine_impl.cpp keep in an `int`.
use smart_routine.Prelude.{
  ℕ, ◌<◌, ◌^◌, ◌≡◌, refl, Bool, true, ◌&&◌, some, List, [], ◌∷◌, arith, length, length-append, ltb,
  lt→ltb,
}
use smart_routine.ReadUntil.{ReadResult, received, failed}
use smart_routine.ReadUntil.Resumes.{arrived}
use smart_routine.Io.{CallResult, returned, refused, int_of}

-- Each read brings fewer than 2 ^ 31 bytes.
abbrev pub short_reads : List ReadResult → Bool
short_reads [] = true
short_reads (received xs ∷ rs) = ltb (length xs) (2 ^ 31) && short_reads rs
short_reads (failed errno ∷ rs) = short_reads rs

-- Each write takes fewer than 2 ^ 31 bytes.
abbrev pub short_writes : List CallResult → Bool
short_writes [] = true
short_writes (returned n ∷ rs) = ltb n (2 ^ 31) && short_writes rs
short_writes (refused errno ∷ rs) = short_writes rs

pub int_of_lem : (n : ℕ) → n < 2 ^ 31 → int_of n ≡ some n
unfolding int_of
int_of_lem n lt = rw (lt→ltb n (2 ^ 31) lt) refl

pub few_arrived : (rs : List ReadResult) → length (arrived rs) < 2 ^ 31 → short_reads rs ≡ true
few_arrived [] lt = refl
few_arrived (received xs ∷ rs) lt =
    let both = length-append xs (arrived rs) in
    rw (lt→ltb (length xs) (2 ^ 31) (omega (arith, both))) (few_arrived rs (omega (arith, both)))
few_arrived (failed errno ∷ rs) lt = few_arrived rs lt
