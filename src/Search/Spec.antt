-- ===== src/Search/Spec.antt =====
-- What `partial_search` of src/internal/smart_routine_impl.cpp finds, said by prefixes.
use smart_routine.Prelude.{
  ℕ, zero, suc, ◌+◌, ◌<◌, ◌^◌, ◌≡◌, ◌≢◌, refl, ap, subst, inl, inr, false, Option, none, some, List,
  [], ◌∷◌, ◌++◌, arith, length, drop, length-append, length-drop, ◌==◌, ==→eq, ==-ne, Bool-cases,
  u32,
}
use smart_routine.Search.{
  PartialSearchResult, match_at, partial_match, not_match, stop, test_from, answer, search_from,
  partial_search,
}

abbrev pub IsPrefix : List ℕ → List ℕ → Type 0
IsPrefix xs ys = (zs : List ℕ) × (ys ≡ xs ++ zs)

-- Neither is a prefix of the other: `s` does not begin where `bs` begins.
abbrev pub Differ : List ℕ → List ℕ → Type 0
Differ s bs = ¬ IsPrefix s bs × ¬ IsPrefix bs s

-- What the loop over `j` may return.
data Tested (bs s : List ℕ) : Option PartialSearchResult → Type 0 where
  whole : IsPrefix s bs → Tested bs s (some match_at)
  begun : IsPrefix bs s → length bs < length s → Tested bs s (some partial_match)
  differ : Differ s bs → Tested bs s none

head_differs : (b c : ℕ) (bs cs : List ℕ) → (b == c) ≡ false → Differ (c ∷ cs) (b ∷ bs)
head_differs b c bs cs e =
    (λ (zs, p). absurd (==-ne b c e (cc)), λ (zs, p). absurd (==-ne b c e (cc)))

Tested-cons :
    (b : ℕ) {bs s : List ℕ} {r : Option PartialSearchResult}
    → Tested bs s r
    → Tested (b ∷ bs) (b ∷ s) r
Tested-cons b (whole (zs, e)) = whole (zs, ap (λ l. b ∷ l) e)
Tested-cons b (begun (zs, e) lt) = begun (zs, ap (λ l. b ∷ l) e) (omega arith)
Tested-cons b (differ (p, q)) = differ (λ (zs, e). p (zs, cc), λ (zs, e). q (zs, cc))

stop_lem :
    (b : ℕ) (bs cs : List ℕ)
    → (bs ≢ [] → cs ≢ [] → Tested bs cs (test_from bs cs))
    → Tested (b ∷ bs) (b ∷ cs) (stop bs cs (test_from bs cs))
unfolding stop
stop_lem b bs [] rest = whole (bs, refl)
stop_lem b [] (c ∷ cs) rest = begun (c ∷ cs, refl) (omega arith)
stop_lem b (b' ∷ bs) (c ∷ cs) rest = Tested-cons b (rest (λ e. cc) (λ e. cc))

test_from_lem : (bs s : List ℕ) → bs ≢ [] → s ≢ [] → Tested bs s (test_from bs s)
unfolding test_from
test_from_lem [] s some_bytes some_str = absurd (some_bytes refl)
test_from_lem (b ∷ bs) [] some_bytes some_str = absurd (some_str refl)
test_from_lem (b ∷ bs) (c ∷ cs) some_bytes some_str = elim (Bool-cases (b == c)) [
  | inl e ↦ rw (e, ==→eq b c e) (stop_lem c bs cs (test_from_lem bs cs))
  | inr e ↦ rw e (differ (head_differs b c bs cs e))
]

-- What a search for `s` in `bs`, which stands `i` bytes from the start, answers.
pub data Found (s : List ℕ) (i : ℕ) (bs : List ℕ) : PartialSearchResult × ℕ → Type 0 where
  matched :
      (j : ℕ)
      → j < length bs
      → IsPrefix s (drop j bs)
      → ((k : ℕ) → k < j → Differ s (drop k bs))
      → Found s i bs (match_at, i + j)
  begins :
      (j : ℕ)
      → j < length bs
      → IsPrefix (drop j bs) s
      → ((k : ℕ) → ¬ IsPrefix s (drop k bs))
      → ((k : ℕ) → k < j → Differ s (drop k bs))
      → Found s i bs (partial_match, i + j)
  absent : ((k : ℕ) → k < length bs → Differ s (drop k bs)) → Found s i bs (not_match, 0)

pub no_room : (s ys : List ℕ) → length ys < length s → ¬ IsPrefix s ys
no_room s ys lt (zs, e) = absurd (omega (arith, ap length e, length-append s zs))

module _ (s : List ℕ) (b : ℕ) (bs : List ℕ) where
  before :
      (j : ℕ)
      → Differ s (b ∷ bs)
      → ((k : ℕ) → k < j → Differ s (drop k bs))
      → (k : ℕ) → k < suc j
      → Differ s (drop k (b ∷ bs))
  before j first others zero lt = first
  before j first others (suc k) lt = others k (omega arith)

  nowhere :
      Differ s (b ∷ bs)
      → ((k : ℕ) → ¬ IsPrefix s (drop k bs))
      → (k : ℕ) → ¬ IsPrefix s (drop k (b ∷ bs))
  nowhere first others zero = first.0
  nowhere first others (suc k) = others k

  later_lem :
      (i : ℕ) {r : PartialSearchResult × ℕ}
      → Differ s (b ∷ bs)
      → Found s (i + 1) bs r
      → Found s i (b ∷ bs) r
  later_lem i first (matched j lt p others) =
      subst (λ n. Found s i (b ∷ bs) (match_at, n)) (omega arith)
        (matched (suc j) (omega arith) p (before j first others))
  later_lem i first (begins j lt p none_here others) =
      subst (λ n. Found s i (b ∷ bs) (partial_match, n)) (omega arith)
        (begins (suc j) (omega arith) p (nowhere first none_here) (before j first others))
  later_lem i first (absent others) = absent (before (length bs) first others)

  answer_lem :
      (i : ℕ) (t : Option PartialSearchResult) (r : PartialSearchResult × ℕ)
      → Tested (b ∷ bs) s t
      → Found s (i + 1) bs r
      → Found s i (b ∷ bs) (answer t i r)
  unfolding answer
  answer_lem i _ r (whole p) rest =
      subst (λ n. Found s i (b ∷ bs) (match_at, n)) (omega arith)
        (matched 0 (omega arith) p (λ k lt. absurd (omega arith)))
  answer_lem i _ r (begun p lt) rest =
      subst (λ n. Found s i (b ∷ bs) (partial_match, n)) (omega arith)
        (begins 0 (omega arith) p
          (λ k. no_room s (drop k (b ∷ bs)) (omega (arith, length-drop k (b ∷ bs))))
          (λ k lt. absurd (omega arith)))
  answer_lem i _ r (differ p) rest = later_lem i p rest

search_from_lem :
    (bs s : List ℕ) (i : ℕ) → s ≢ [] → i + length bs < 2 ^ 32 → Found s i bs (search_from bs s i)
unfolding search_from
search_from_lem [] s i some_str small = absent (λ k lt. absurd (omega arith))
search_from_lem (b ∷ bs) s i some_str small =
    let next : u32 (i + 1) ≡ i + 1 = omega arith in
    answer_lem s b bs i (test_from (b ∷ bs) s) (search_from bs s (u32 (i + 1)))
      (test_from_lem (b ∷ bs) s (λ e. cc) some_str)
      (rw next (search_from_lem bs s (i + 1) some_str (omega arith)))

-- For a delimiter that is not empty and a buffer shorter than 2 ^ 32: `Match` comes with the first
-- position where the delimiter stands; `PartialMatch` says that it stands nowhere in the buffer,
-- and comes with the first position from which the rest of the buffer begins it; `NotMatch` says
-- that it neither stands nor begins anywhere in the buffer.
pub partial_search-Found :
    (search_buffer search_str : List ℕ)
    → search_str ≢ []
    → length search_buffer < 2 ^ 32
    → Found search_str 0 search_buffer (partial_search search_buffer search_str)
unfolding partial_search
partial_search-Found search_buffer search_str some_str small =
    search_from_lem search_buffer search_str 0 some_str (omega arith)
