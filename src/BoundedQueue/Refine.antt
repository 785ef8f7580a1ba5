-- ===== src/BoundedQueue/Refine.antt =====
-- include/common/bounded_queue.h as a first-in first-out queue of at most `capacity_` values.
use native.Mathlib.Nat.{add-zero, mod-eq_of_lt, mod-eq-sub-mod, mod-add-mod, mod-lt}
use native.Mathlib.Decide.{dec_lt}
use smart_routine.Prelude.{
  ℕ, suc, ◌+◌, ◌-◌, ◌%◌, ◌^◌, ◌≤◌, ◌<◌, ◌≡◌, ◌≢◌, ◌⊎◌, inl, inr, refl, sym, ap, ◌∙◌, true, false,
  Option, none, some, List, [], ◌∷◌, ◌++◌, arith, length, get_elem?, set, length-set, length-append,
  length-replicate, get_elem?-set_self, get_elem?-set_ne, get_elem?-append_left,
  get_elem?-append_last, ◌==◌, u32,
}
use smart_routine.BoundedQueue.{BoundedQueue, slot, new, full, empty, front, push, pop}

-- Reduction modulo `c` of a number below `2 * c`.
pub mod-cases : (a c : ℕ) → a < c + c → ((a < c) × (a % c ≡ a)) ⊎ ((c ≤ a) × (a % c ≡ a - c))
mod-cases a c h = elim (dec_lt a c) [
  | yes p ↦ inl (p, mod-eq_of_lt p)
  | no p ↦ inr (
    omega arith,
    omega (
      arith,
      mod-eq-sub-mod {n = a} {m = c} (omega arith),
      mod-eq_of_lt {n = a - c} {m = c} (omega arith),
    ),
  )
]

-- One step of an index round the ring; the 32-bit increment does not wrap.
pub next_index : (n c : ℕ) → 0 < c → c < 2 ^ 32 → n < c + c → u32 (n % c + 1) % c ≡ (n + 1) % c
next_index n c p h lt =
    let step : (n % c + 1) % c ≡ (n + 1) % c = rw mod-add-mod in
    let room : n % c < c = mod-lt n p in
    rw (mod-eq_of_lt {n = n % c + 1} {m = 2 ^ 32} (omega arith)) step

-- `q` holds the values `xs`, oldest first, in the slots from `head_` on, round the end.
pub record Represents {ℓ} {T : Type ℓ} (q : BoundedQueue T) (xs : List T) : Type ℓ where
  pub positive : 0 < q.capacity
  pub small : q.capacity < 2 ^ 32
  pub storage : length q.items ≡ q.capacity
  pub head_in : q.head < q.capacity
  pub fits : length xs ≤ q.capacity
  pub tail_at : q.tail ≡ (q.head + length xs) % q.capacity
  pub emptiness : q.is_empty ≡ (length xs == 0)
  pub slots : (i : ℕ) → i < length xs → slot q.items ((q.head + i) % q.capacity) ≡ get_elem? xs i

module _ {ℓ} {T : Type ℓ} where
  slot-set_self :
      (xs : List (Option T)) (i : ℕ) (v : T) → i < length xs → slot (set xs i (some v)) i ≡ some v
  slot-set_self xs i v h = ground (arith, get_elem?-set_self xs i (some v) h)

  slot-set_ne :
      (xs : List (Option T)) (i j : ℕ) (v : T) → i ≢ j → slot (set xs i (some v)) j ≡ slot xs j
  slot-set_ne xs i j v h = ground (arith, get_elem?-set_ne xs i j (some v) h)

  pub new-Represents :
      (capacity : ℕ) → 0 < capacity → capacity < 2 ^ 32 → Represents (new T capacity) []
  unfolding new
  new-Represents capacity p h = record {
    positive = p;
    small = h;
    storage = length-replicate capacity none;
    head_in = p;
    fits = omega arith;
    tail_at = omega (arith, mod-eq_of_lt p);
    emptiness = refl;
    slots = λ i lt. absurd (omega arith);
  }

module _ {ℓ} {T : Type ℓ} {q : BoundedQueue T} {xs : List T} (r : Represents q xs) where
  open r use {positive, small, storage, head_in, fits, tail_at, emptiness, slots}

  pub full_lem : full q ≡ (length xs == q.capacity)
  unfolding full
  full_lem = ground (arith, mod-cases (q.head + length xs) q.capacity (omega arith))

  pub empty_lem : empty q ≡ (length xs == 0)
  unfolding empty
  empty_lem = emptiness

  pub push-full : (x : T) → length xs ≡ q.capacity → push q x ≡ (false, q)
  unfolding push
  push-full x h = ground (arith, full_lem)

  tail_in : q.tail < q.capacity
  tail_in = ground (arith, mod-cases (q.head + length xs) q.capacity (omega arith))

  push_slots :
      (x : T)
      → length xs < q.capacity
      → (i : ℕ) → i < length (xs ++ x ∷ [])
      → slot (set q.items q.tail (some x)) ((q.head + i) % q.capacity) ≡ get_elem? (xs ++ x ∷ []) i
  push_slots x lt i h = elim (dec_lt i (length xs)) [
    | yes old ↦ ground (
      arith,
      slots i old,
      get_elem?-append_left xs (x ∷ []) i old,
      slot-set_ne q.items q.tail ((q.head + i) % q.capacity) x,
      mod-cases (q.head + length xs) q.capacity (omega arith),
      mod-cases (q.head + i) q.capacity (omega arith),
    )
    | no past ↦
        let last : i ≡ length xs = omega (arith, length-append xs (x ∷ [])) in
        rw (last, ← tail_at, slot-set_self q.items q.tail x (omega (arith, tail_in)))
          (sym (get_elem?-append_last xs x))
  ]

  push-accepts :
      (x : T)
      → length xs < q.capacity
      → push q x ≡ (
        true,
        record q {
          items = set q.items q.tail (some x);
          tail = u32 (q.tail + 1) % q.capacity;
          is_empty = false;
        },
      )
  unfolding push
  push-accepts x lt = rw (full_lem) (ground arith)

  -- A queue with room takes the value at its end.
  pub push-Represents :
      (x : T)
      → length xs < q.capacity
      → ((push q x).0 ≡ true) × Represents (push q x).1 (xs ++ x ∷ [])
  push-Represents x lt = rw (push-accepts x lt) (
    refl,
    record {
      positive = positive;
      small = small;
      storage = omega (arith, length-set q.items q.tail (some x));
      head_in = head_in;
      fits = omega (arith, length-append xs (x ∷ []));
      tail_at =
          ap (λ t. u32 (t + 1) % q.capacity) tail_at
          ∙ next_index (q.head + length xs) q.capacity positive small (omega arith)
          ∙ ap (λ k. k % q.capacity) (omega (arith, length-append xs (x ∷ [])));
      emptiness = ground (arith, length-append xs (x ∷ []));
      slots = push_slots x lt;
    },
  )

module _ {ℓ} {T : Type ℓ} {q : BoundedQueue T} {x : T} {xs : List T}
    (r : Represents q (x ∷ xs)) where
  open r use {positive, small, storage, head_in, fits, tail_at, emptiness, slots}

  -- The head of the queue is its oldest value.
  pub front_lem : front q ≡ some x
  unfolding front
  front_lem =
      let start : (q.head + 0) % q.capacity ≡ q.head =
        ap (λ k. k % q.capacity) (add-zero q.head) ∙ mod-eq_of_lt head_in in
      rw start at (slots 0 (omega arith))

  next_head : u32 (q.head + 1) % q.capacity ≡ (q.head + 1) % q.capacity
  next_head = rw (mod-eq_of_lt {n = q.head + 1} {m = 2 ^ 32} (omega arith))

  shift : (n : ℕ) → ((q.head + 1) % q.capacity + n) % q.capacity ≡ (q.head + suc n) % q.capacity
  shift n = rw mod-add-mod (ap (λ k. k % q.capacity) (omega arith))

  pop_emptiness : (pop q).1.is_empty ≡ (length xs == 0)
  unfolding pop
  pop_emptiness = rw (next_head) (
      ground (
        arith,
        tail_at,
        mod-cases (q.head + 1) q.capacity (omega arith),
        mod-cases (q.head + suc (length xs)) q.capacity (omega arith),
      ))

  -- A call of `pop` takes the oldest value off.
  pub pop-Represents : ((pop q).0 ≡ true) × Represents (pop q).1 xs
  unfolding pop
  pop-Represents = (
    refl,
    record {
      positive = positive;
      small = small;
      storage = storage;
      head_in = mod-lt _ positive;
      fits = omega arith;
      tail_at = tail_at ∙ rw next_head (sym (shift (length xs)));
      emptiness = pop_emptiness;
      slots = λ i lt. rw (next_head, shift i) (slots (suc i) (omega arith));
    },
  )
