-- ===== src/BoundedQueue.antt =====
-- include/common/bounded_queue.h: a ring of `capacity_` slots with 32-bit indices.
-- `items` is `data_`, where `none` is a slot that nothing was written to; `front` hands the slot on.
pub mod Refine
pub mod Fifo
pub mod Unique
mod Tests
use smart_routine.Prelude.{
  ℕ, ◌+◌, ◌%◌, Bool, true, false, not, ◌&&◌, Option, none, some, List, u32, ◌==◌, if◌then◌else◌,
  get_elem?, set, replicate,
}

pub record BoundedQueue {ℓ} (T : Type ℓ) : Type ℓ where
  pub items : List (Option T)
  pub capacity : ℕ
  pub head : ℕ
  pub tail : ℕ
  pub is_empty : Bool

-- The value of a slot; a slot out of range or never written has none.
abbrev pub slot {ℓ} : {T : Type ℓ} → List (Option T) → ℕ → Option T
slot xs i = elim (get_elem? xs i) [ none ↦ none | some v ↦ v ]

-- The constructor.
unfoldable pub new {ℓ} : (T : Type ℓ) → ℕ → BoundedQueue T
new T capacity = record {
  items = replicate capacity none;
  capacity = capacity;
  head = 0;
  tail = 0;
  is_empty = true;
}

module _ {ℓ} {T : Type ℓ} where
  unfoldable pub full : BoundedQueue T → Bool
  full q = q.tail == q.head && not q.is_empty

  unfoldable pub empty : BoundedQueue T → Bool
  empty q = q.is_empty

  unfoldable pub front : BoundedQueue T → Option T
  front q = slot q.items q.head

  -- `data_[tail_++] = value; tail_ %= capacity_;`
  unfoldable pub push : BoundedQueue T → T → Bool × BoundedQueue T
  unfolding full
  push q value = if full q then (false, q) else (
    true,
    record q {
      items = set q.items q.tail (some value);
      tail = u32 (q.tail + 1) % q.capacity;
      is_empty = false;
    },
  )

  -- There is no guard: a client calls it on a queue that is not empty.
  unfoldable pub pop : BoundedQueue T → Bool × BoundedQueue T
  pop q =
      let next = u32 (q.head + 1) % q.capacity in
      (true, record q { head = next; is_empty = if q.tail == next then true else q.is_empty })
