-- ===== src/Cluster/Sums.antt =====
-- Sums over the workers of src/smart_runtime.cpp, and over all of them but one.
use smart_routine.Prelude.{
  ℕ, zero, suc, ◌+◌, ◌≤◌, ◌<◌, ◌≡◌, ◌≢◌, refl, arith, ◌==◌, if◌then◌else◌, Bool-cases, inl, inr, ap,
  sym, ==→eq, ==-ne, ne-==,
}

abbrev pub sum : ℕ → (ℕ → ℕ) → ℕ
sum zero f = 0
sum (suc n) f = sum n f + f n

abbrev pub others : ℕ → ℕ → (ℕ → ℕ) → ℕ
others i n f = sum n (λ j. if j == i then 0 else f j)

module _ (i : ℕ) (f : ℕ → ℕ) where
  others-below : (n : ℕ) → n ≤ i → others i n f ≡ sum n f
  others-below zero h = refl
  others-below (suc n) h = ground (arith, others-below n (omega arith))

  -- A worker and the others are all.
  pub others-sum : (n : ℕ) → i < n → f i + others i n f ≡ sum n f
  others-sum zero lt = absurd (omega arith)
  others-sum (suc n) lt = elim (Bool-cases (n == i)) [
    | inl e ↦
        let same : f i ≡ f n = ap f (sym (==→eq n i e)) in
        rw e (omega (arith, same, others-below n (omega (arith, ==→eq n i e))))
    | inr e ↦
        let below : i < n = ground (arith, ==-ne n i e) in rw e (omega (arith, others-sum n below))
  ]

pub others-cong :
    (i n : ℕ) {f g : ℕ → ℕ} → ((j : ℕ) → j ≢ i → f j ≡ g j) → others i n f ≡ others i n g
others-cong i zero h = refl
others-cong i (suc n) {f} {g} h =
    let rest = others-cong i n h in
    elim (Bool-cases (n == i)) [
      | inl e ↦ rw e (omega (arith, rest))
      | inr e ↦ let same = h n (==-ne n i e) in rw e (omega (arith, rest, same))
    ]

pub sum-zero : (n : ℕ) {f : ℕ → ℕ} → ((j : ℕ) → j < n → f j ≡ 0) → sum n f ≡ 0
sum-zero zero h = refl
sum-zero (suc n) h = omega (arith, sum-zero n (λ j lt. h j (omega arith)), h n (omega arith))

-- Two different workers are part of the sum.
pub two-sum : (i j n : ℕ) (f : ℕ → ℕ) → i < n → j < n → i ≢ j → f i + f j ≤ sum n f
two-sum i j n f lt lt' ne =
    let masked : ℕ → ℕ = λ m. if m == i then 0 else f m in
    let seen : masked j ≡ f j = rw (ne-== j i (λ e. ne (sym e))) refl in
    omega (arith, others-sum i f n lt, others-sum j masked n lt')

pub one-sum : (i n : ℕ) (f : ℕ → ℕ) → i < n → f i ≤ sum n f
one-sum i n f lt = omega (arith, others-sum i f n lt)
