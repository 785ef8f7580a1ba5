-- ===== src/Search.antt =====
-- `partial_search` of src/internal/smart_routine_impl.cpp: where a delimiter stands in the bytes
-- read so far, or may begin at their end. A pointer into a buffer is the rest of its bytes.
pub mod Spec
pub mod Chunks
mod Tests
use smart_routine.Prelude.{ℕ, ◌+◌, Option, none, some, List, [], ◌∷◌, ◌==◌, if◌then◌else◌, u32}

pub data PartialSearchResult : Type 0 where
  match_at partial_match not_match : PartialSearchResult

-- The two `return`s of the loop over `j` once the bytes agree, or the `rest` of the loop.
unfoldable pub stop : List ℕ → List ℕ → Option PartialSearchResult → Option PartialSearchResult
stop bs [] rest = some match_at
stop [] (c ∷ cs) rest = some partial_match
stop (b ∷ bs) (c ∷ cs) rest = rest

-- The loop over `j`, from `search_buffer[test_i]` and `search_str[j]` on. `none` is where the loop
-- ends or breaks without a `return`; it reads no byte past the buffer.
unfoldable pub test_from : List ℕ → List ℕ → Option PartialSearchResult
unfolding stop
test_from bs [] = none
test_from [] (c ∷ cs) = none
test_from (b ∷ bs) (c ∷ cs) = let rest = test_from bs cs in if b == c then stop bs cs rest else none

unfoldable pub answer :
    Option PartialSearchResult → ℕ → PartialSearchResult × ℕ → PartialSearchResult × ℕ
answer none i later = later
answer (some r) i later = (r, i)

-- The loop over `i`.
unfoldable pub search_from : List ℕ → List ℕ → ℕ → PartialSearchResult × ℕ
unfolding test_from answer
search_from [] search_str i = (not_match, 0)
search_from (b ∷ bs) search_str i =
    let later = search_from bs search_str (u32 (i + 1)) in
    answer (test_from (b ∷ bs) search_str) i later

unfoldable pub partial_search : List ℕ → List ℕ → PartialSearchResult × ℕ
unfolding search_from
partial_search search_buffer search_str = search_from search_buffer search_str 0
