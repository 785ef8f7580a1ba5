-- ===== src/BoundedQueue/Unique.antt =====
-- A ring of include/common/bounded_queue.h determines the values it holds.
use mathlib.Core.Option.{some-injective}
use smart_routine.Prelude.{
  ℕ, suc, ◌+◌, ◌%◌, ◌<◌, ◌≡◌, refl, sym, ap₂, ◌∙◌, List, [], ◌∷◌, arith, length, get_elem?, ◌==◌,
}
use smart_routine.BoundedQueue.{BoundedQueue}
use smart_routine.BoundedQueue.Refine.{Represents, mod-cases}

module _ {ℓ} {T : Type ℓ} where
  same_values :
      (xs ys : List T)
      → length xs ≡ length ys
      → ((i : ℕ) → i < length xs → get_elem? xs i ≡ get_elem? ys i)
      → xs ≡ ys
  same_values [] [] e h = refl
  same_values [] (y ∷ ys) e h = absurd (omega arith)
  same_values (x ∷ xs) [] e h = absurd (omega arith)
  same_values (x ∷ xs) (y ∷ ys) e h =
      ap₂ (λ v vs. v ∷ vs) (some-injective x y (h 0 (omega arith)))
        (same_values xs ys (omega arith) (λ i lt. h (suc i) (omega arith)))

  module _ {q : BoundedQueue T} {xs ys : List T} (r : Represents q xs) (r' : Represents q ys) where
    same_length : length xs ≡ length ys
    same_length =
        let cases = mod-cases (q.head + length xs) q.capacity (omega (arith, r.head_in, r.fits)) in
        let cases' =
          mod-cases (q.head + length ys) q.capacity (omega (arith, r.head_in, r'.fits)) in
        let tails : (q.head + length xs) % q.capacity ≡ (q.head + length ys) % q.capacity =
          sym r.tail_at ∙ r'.tail_at in
        let both : (length xs == 0) ≡ (length ys == 0) = sym r.emptiness ∙ r'.emptiness in
        ground (arith, r.fits, r'.fits, r.head_in)

    pub Represents-unique : xs ≡ ys
    Represents-unique =
        same_values xs ys same_length
          λ i lt. sym (r.slots i lt) ∙ r'.slots i (omega (arith, same_length))
