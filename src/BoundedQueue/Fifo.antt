-- ===== src/BoundedQueue/Fifo.antt =====
-- What a client of include/common/bounded_queue.h can do and see, and the specification of it:
-- a list of at most `capacity` values, oldest first.
use smart_routine.Prelude.{
  ℕ, ◌<◌, ◌^◌, ◌≡◌, refl, ap₂, ◌∙◌, Bool, true, false, Option, none, some, List, [], ◌∷◌, ◌++◌,
  arith, length, ◌==◌, ltb, if◌then◌else◌, Bool-cases, inl, inr, ltb→lt, ltb→le,
}
use smart_routine.BoundedQueue.{BoundedQueue, new, full, empty, front, push, pop}
use smart_routine.BoundedQueue.Refine.{
  Represents, new-Represents, full_lem, empty_lem, push-full, push-Represents, front_lem,
  pop-Represents,
}

pub data Call {ℓ} (T : Type ℓ) : Type ℓ where
  put : T → Call T
  take_front : Call T

-- What a call returns, with the answers of `full` and `empty` after it.
pub record Reply {ℓ} (T : Type ℓ) : Type ℓ where
  pub accepted : Bool
  pub value : Option T
  pub is_full : Bool
  pub is_clear : Bool

module _ {ℓ} {T : Type ℓ} where
  unfoldable pub reply : Bool → Option T → BoundedQueue T → Reply T
  reply b v q = record { accepted = b; value = v; is_full = full q; is_clear = empty q }

  -- Clients take a value by `if (!q.empty()) { v = q.front(); q.pop(); }`.
  unfoldable pub step : BoundedQueue T → Call T → BoundedQueue T × Reply T
  step q (put x) = let (b, r) = push q x in (r, reply b none r)
  step q take_front =
      if empty q then (q, reply false none q) else (let (b, r) = pop q in (r, reply b (front q) r))

  unfoldable pub run : BoundedQueue T → List (Call T) → List (Reply T)
  run q [] = []
  run q (c ∷ cs) = (step q c).1 ∷ run (step q c).0 cs

module _ {ℓ} {T : Type ℓ} (capacity : ℕ) where
  unfoldable pub fifo_reply : Bool → Option T → List T → Reply T
  fifo_reply b v xs = record {
    accepted = b;
    value = v;
    is_full = length xs == capacity;
    is_clear = length xs == 0;
  }

  unfoldable pub fifo_step : List T → Call T → List T × Reply T
  fifo_step xs (put x) =
      if ltb (length xs) capacity
      then (xs ++ x ∷ [], fifo_reply true none (xs ++ x ∷ []))
      else (xs, fifo_reply false none xs)
  fifo_step [] take_front = ([], fifo_reply false none [])
  fifo_step (x ∷ xs) take_front = (xs, fifo_reply true (some x) xs)

  unfoldable pub fifo_run : List T → List (Call T) → List (Reply T)
  fifo_run xs [] = []
  fifo_run xs (c ∷ cs) = (fifo_step xs c).1 ∷ fifo_run (fifo_step xs c).0 cs

module _ {ℓ} {T : Type ℓ} where
  -- One call gives the reply of the specification, and keeps the representation.
  abbrev pub Refines : BoundedQueue T → List T → Call T → Type ℓ
  Refines q xs c =
      ((step q c).1 ≡ (fifo_step q.capacity xs c).1)
      × Represents (step q c).0 (fifo_step q.capacity xs c).0
      × ((step q c).0.capacity ≡ q.capacity)

  pub capacity-push : (q : BoundedQueue T) (x : T) → (push q x).1.capacity ≡ q.capacity
  unfolding push
  capacity-push q x = ground arith

  pub capacity-pop : (q : BoundedQueue T) → (pop q).1.capacity ≡ q.capacity
  unfolding pop
  capacity-pop q = refl

  reply_lem :
      (b : Bool) (v : Option T) (c : ℕ) {q : BoundedQueue T} {xs : List T}
      → Represents q xs
      → q.capacity ≡ c
      → reply b v q ≡ fifo_reply c b v xs
  unfolding reply fifo_reply
  reply_lem b v c r e = ground (arith, full_lem r, empty_lem r)

  put-Refines : (x : T) {q : BoundedQueue T} {xs : List T} → Represents q xs → Refines q xs (put x)
  unfolding step fifo_step
  put-Refines x {q} {xs} r = elim (Bool-cases (ltb (length xs) q.capacity)) [
    | inl room ↦
        let p = push-Represents r x (ltb→lt _ _ room) in
        rw (room, p.0) (reply_lem true none _ p.1 (capacity-push q x), p.1, capacity-push q x)
    | inr over ↦
        let at_limit = push-full r x (omega (arith, r.fits, ltb→le _ _ over)) in
        rw (over, at_limit) (reply_lem false none _ r refl, r, refl)
  ]

  take_front-Refines :
      (q : BoundedQueue T) (xs : List T) → Represents q xs → Refines q xs take_front
  unfolding step fifo_step
  take_front-Refines q [] r = rw (empty_lem r) (reply_lem false none _ r refl, r, refl)
  take_front-Refines q (x ∷ xs) r =
      let p = pop-Represents r in
      let vacant : empty q ≡ false = empty_lem r ∙ ground arith in
      rw (vacant, p.0, front_lem r)
        (reply_lem true (some x) _ p.1 (capacity-pop q), p.1, capacity-pop q)

  pub step-Refines :
      (c : Call T) {q : BoundedQueue T} {xs : List T} → Represents q xs → Refines q xs c
  step-Refines (put x) r = put-Refines x r
  step-Refines take_front {q} {xs} r = take_front-Refines q xs r

  run_refines :
      (cs : List (Call T)) {q : BoundedQueue T} {xs : List T}
      → Represents q xs
      → run q cs ≡ fifo_run q.capacity xs cs
  unfolding run fifo_run
  run_refines [] r = refl
  run_refines (c ∷ cs) r =
      let (answer, kept, size) = step-Refines c r in
      ap₂ ◌∷◌ answer (rw size at (run_refines cs kept))

  -- A queue built with `capacity` slots, 0 < capacity < 2 ^ 32, answers every sequence of `push`
  -- and guarded `front`/`pop` calls, and `full` and `empty` after each, as a list of at most
  -- `capacity` values does, oldest first: a push is refused exactly when the list is full, and the
  -- indices never leave the array, wrap-around included.
  pub run-new :
      (capacity : ℕ) (cs : List (Call T))
      → 0 < capacity
      → capacity < 2 ^ 32
      → run (new T capacity) cs ≡ fifo_run capacity [] cs
  unfolding new
  run-new capacity cs p h = run_refines cs (new-Represents capacity p h)
