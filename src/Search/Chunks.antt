-- ===== src/Search/Chunks.antt =====
-- A search that goes on where the last one stopped, as in `smart_read_until_impl` of
-- src/internal/smart_routine_impl.cpp: bytes arrive in chunks behind those searched.
use native.Mathlib.Decide.{dec_lt}
use smart_routine.Prelude.{
  ℕ, ◌+◌, ◌-◌, ◌≤◌, ◌<◌, ◌^◌, ◌≡◌, ◌≢◌, refl, sym, ap, subst, ◌∙◌, ◌⊎◌, inl, inr, List, [], ◌∷◌,
  ◌++◌, arith, length, drop, length-append, length-drop, append_assoc, drop-drop,
  drop-append_within,
}
use smart_routine.Search.{PartialSearchResult, match_at, partial_match, not_match, partial_search}
use smart_routine.Search.Spec.{
  IsPrefix, Differ, Found, matched, begins, absent, no_room, partial_search-Found,
}

abbrev pub Occurs : List ℕ → List ℕ → Type 0
Occurs s bs = (k : ℕ) × IsPrefix s (drop k bs)

-- However the bytes go on, `s` does not stand before position `n`.
pub record SearchedTo (s bs : List ℕ) (n : ℕ) : Type 0 where
  pub within : n ≤ length bs
  pub clear : (more : List ℕ) (k : ℕ) → k < n → ¬ IsPrefix s (drop k (bs ++ more))

-- Of two prefixes of a list one is a prefix of the other.
prefixes : (s bs zs more : List ℕ) → bs ++ more ≡ s ++ zs → IsPrefix s bs ⊎ IsPrefix bs s
prefixes [] bs zs more e = inl (bs, refl)
prefixes (c ∷ s) [] zs more e = inr (c ∷ s, refl)
prefixes (c ∷ s) (b ∷ bs) zs more e =
    let head : b ≡ c = cc in
    elim (prefixes s bs zs more cc) [ inl (ys, p) ↦ inl (ys, cc) | inr (ys, p) ↦ inr (ys, cc) ]

Differ-extends : (s bs more : List ℕ) → Differ s bs → ¬ IsPrefix s (bs ++ more)
Differ-extends s bs more (p, q) (zs, e) = elim (prefixes s bs zs more e) [
  | inl h ↦ p h
  | inr h ↦ q h
]

module _ {s bs : List ℕ} {n : ℕ} (v : SearchedTo s bs n) (ys : List ℕ) where
  -- `m` more positions are clear.
  extend :
      (m : ℕ)
      → n + m ≤ length (bs ++ ys)
      → ((k : ℕ) → k < m → Differ s (drop k (drop n (bs ++ ys))))
      → SearchedTo s (bs ++ ys) (n + m)
  extend m fits others = record {
    within = fits;
    clear = λ more k lt. elim (dec_lt k n) [
      | yes p ↦
          subst (λ l. ¬ IsPrefix s (drop k l)) (sym (append_assoc bs ys more))
            (v.clear (ys ++ more) k p)
      | no p ↦
          subst (λ l. ¬ IsPrefix s l) (sym (at_position k more (omega arith) (omega arith)))
            (Differ-extends s (drop k (bs ++ ys)) more (
              subst (Differ s)
                (drop-drop n (k - n) (bs ++ ys) ∙ ap (λ i. drop i (bs ++ ys)) (omega arith))
                (others (k - n) (omega arith))))
    ];
  }
    where
      at_position :
          (k : ℕ) (more : List ℕ)
          → n ≤ k
          → k < n + m
          → drop k ((bs ++ ys) ++ more) ≡ drop k (bs ++ ys) ++ more
      at_position k more ge lt = drop-append_within k (bs ++ ys) more (omega (arith, fits))

  nowhere : ((k : ℕ) → ¬ IsPrefix s (drop k (drop n (bs ++ ys)))) → ¬ Occurs s (bs ++ ys)
  nowhere others (k, p) = elim (dec_lt k n) [
    | yes lt ↦ v.clear ys k lt p
    | no ge ↦ others (k - n) (
        subst (IsPrefix s)
          (ap (λ i. drop i (bs ++ ys)) (omega arith) ∙ sym (drop-drop n (k - n) (bs ++ ys))) p)
  ]

  -- What the answer of the search tells of all bytes.
  pub data Continues : PartialSearchResult × ℕ → Type 0 where
    complete : (j : ℕ) → Occurs s (bs ++ ys) → Continues (match_at, j)
    go_on :
        (j : ℕ)
        → ¬ Occurs s (bs ++ ys)
        → SearchedTo s (bs ++ ys) (n + j)
        → Continues (partial_match, j)
    start_over :
        ¬ Occurs s (bs ++ ys)
        → SearchedTo s (bs ++ ys) (length (bs ++ ys))
        → Continues (not_match, 0)

  outside :
      s ≢ [] → (k : ℕ) → length (drop n (bs ++ ys)) ≤ k → ¬ IsPrefix s (drop k (drop n (bs ++ ys)))
  outside some_str k ge =
      no_room s (drop k (drop n (bs ++ ys)))
        (omega (arith, length-drop k (drop n (bs ++ ys)), positive s some_str))
    where
      positive : (t : List ℕ) → t ≢ [] → 0 < length t
      positive [] e = absurd (e refl)
      positive (c ∷ t) e = omega arith

  Found-Continues :
      s ≢ [] → {r : PartialSearchResult × ℕ} → Found s 0 (drop n (bs ++ ys)) r → Continues r
  Found-Continues some_str (matched j lt p others) =
      complete (0 + j) (n + j, subst (IsPrefix s) (drop-drop n j (bs ++ ys)) p)
  Found-Continues some_str (begins j lt p none_here others) = go_on (0 + j) (nowhere none_here) (
      subst (λ i. SearchedTo s (bs ++ ys) (n + i)) (omega arith)
        (extend j (omega (arith, length-drop n (bs ++ ys))) others))
  Found-Continues some_str (absent others) =
      let size = length-drop n (bs ++ ys) in
      let fits = v.within in
      start_over
        (nowhere λ k. elim (dec_lt k (length (drop n (bs ++ ys)))) [
          | yes lt ↦ (others k lt).0
          | no ge ↦ outside some_str k (omega arith)
        ])
        (subst (SearchedTo s (bs ++ ys)) (omega (arith, length-append bs ys))
          (extend (length (drop n (bs ++ ys))) (omega (arith, length-append bs ys)) others))

  -- One search of the bytes from position `n` on.
  pub continue_lem :
      s ≢ [] → length (bs ++ ys) < 2 ^ 32 → Continues (partial_search (drop n (bs ++ ys)) s)
  continue_lem some_str small = Found-Continues some_str (
      partial_search-Found (drop n (bs ++ ys)) s some_str (omega (arith, length-drop n (bs ++ ys))))

pub Occurs-append : (s bs ys : List ℕ) → Occurs s bs → Occurs s (bs ++ ys)
Occurs-append [] bs ys _ = (0, (bs ++ ys, refl))
Occurs-append (c ∷ s) bs ys (k, (zs, e)) = elim (dec_lt (length bs) k) [
  | yes past ↦ absurd (omega (arith, ap length e, length-drop k bs))
  | no within ↦ (
    k,
    (
      zs ++ ys,
      drop-append_within k bs ys (omega arith) ∙ ap (λ l. l ++ ys) e ∙ append_assoc (c ∷ s) zs ys,
    ),
  )
]
