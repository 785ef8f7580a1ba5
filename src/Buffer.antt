-- ===== src/Buffer.antt =====
-- include/common/mutable_buffer.h, include/common/const_buffer.h and src/common/buffer.cpp: memory
-- that is lent to a call. A pointer is the bytes from it on; `none` is a null pointer.
use smart_routine.Prelude.{ℕ, Option, none, List}

-- `A` is what a byte of the memory is.
pub record MutableBuffer (A : Type 0) : Type 0 where
  pub data_of : Option (List A)
  pub size : ℕ

pub record ConstBuffer (A : Type 0) : Type 0 where
  pub data_of : Option (List A)
  pub size : ℕ

module _ {A : Type 0} where
  -- The constructors without arguments.
  unfoldable pub no_mutable_buffer : MutableBuffer A
  no_mutable_buffer = record { data_of = none; size = 0 }

  unfoldable pub no_const_buffer : ConstBuffer A
  no_const_buffer = record { data_of = none; size = 0 }

  -- `buffer` of a pointer to bytes that may be changed, and of one to bytes that may not.
  unfoldable pub mutable_buffer : Option (List A) → ℕ → MutableBuffer A
  mutable_buffer data_of size_in_bytes = record { data_of = data_of; size = size_in_bytes }

  unfoldable pub const_buffer : Option (List A) → ℕ → ConstBuffer A
  const_buffer data_of size_in_bytes = record { data_of = data_of; size = size_in_bytes }

  -- The constructor of a `ConstBuffer` from a `MutableBuffer`.
  unfoldable pub from_mutable : MutableBuffer A → ConstBuffer A
  unfolding const_buffer
  from_mutable b = const_buffer b.data_of b.size
