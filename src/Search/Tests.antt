-- ===== src/Search/Tests.antt =====
-- `partial_search` of src/internal/smart_routine_impl.cpp at small inputs.
use smart_routine.Prelude.{ℕ, ◌≡◌, refl, List, [], ◌∷◌, arith}
use smart_routine.Search.{
  match_at, partial_match, not_match, stop, answer, test_from, search_from, partial_search,
}
use smart_routine.Search.Spec.{Found, partial_search-Found}

abbrev sample : List ℕ
sample = 7 ∷ 13 ∷ 13 ∷ 10 ∷ 7 ∷ 13 ∷ []

match_runs : partial_search sample (13 ∷ 10 ∷ []) ≡ (match_at, 2)
unfolding partial_search search_from answer test_from stop
match_runs = refl

partial_runs : partial_search sample (13 ∷ 9 ∷ []) ≡ (partial_match, 5)
unfolding partial_search search_from answer test_from stop
partial_runs = refl

absent_runs : partial_search sample (9 ∷ []) ≡ (not_match, 0)
unfolding partial_search search_from answer test_from stop
absent_runs = refl

partial_search-Found_example : Found (13 ∷ 10 ∷ []) 0 sample (partial_search sample (13 ∷ 10 ∷ []))
partial_search-Found_example = partial_search-Found sample (13 ∷ 10 ∷ []) (λ e. cc) (omega arith)
