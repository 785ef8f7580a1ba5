-- ===== src/DynamicBuffer.antt =====
-- src/common/dynamic_buffer.cpp and include/common/dynamic_buffer.h.
-- The block that `buffer_` points to is the list of its bytes; `none` is a byte that nothing was
-- written to. A call that reads or writes outside the block has no result (`none`). `malloc` is
-- taken to succeed. `size_t` arithmetic wraps at 2 ^ 64.
pub mod Holds
pub mod Append
pub mod Consume
mod Tests
use smart_routine.Prelude.{
  ℕ, ◌+◌, ◌*◌, Option, none, some, List, ◌++◌, map, ltb, leb, if◌then◌else◌, u64, sub_u64, length,
  take, drop, replicate,
}
use smart_routine.ErrorCode.{ErrorCode, exceed_buffer_bound}

abbrev pub Byte : Type 0
Byte = Option ℕ

pub record DynamicBuffer : Type 0 where
  pub buffer : List Byte
  pub read_index : ℕ
  pub write_index : ℕ
  pub capacity : ℕ
  pub max_capacity : ℕ

infixl 5 ◌>>=◌
abbrev pub ◌>>=◌ {ℓ κ} : {A : Type ℓ} {B : Type κ} → Option A → (A → Option B) → Option B
none >>= f = none
some a >>= f = f a

-- `malloc(n)`
abbrev pub malloc : ℕ → List Byte
malloc n = replicate n none

-- The reads and writes of `memcpy` and `memmove`.
unfoldable pub load : List Byte → ℕ → ℕ → Option (List Byte)
load block at_index n =
    if leb (at_index + n) (length block) then some (take n (drop at_index block)) else none

unfoldable pub store : List Byte → ℕ → List Byte → Option (List Byte)
store block at_index bytes =
    if leb (at_index + length bytes) (length block)
    then some (take at_index block ++ (bytes ++ drop (at_index + length bytes) block))
    else none

-- The defaults of the flags max_dynamic_buffer_size, initial_dynamic_buffer_size and
-- move_forward_threshold.
abbrev pub max_dynamic_buffer_size : ℕ
max_dynamic_buffer_size = 1024 * 1024 * 64

abbrev pub initial_dynamic_buffer_size : ℕ
initial_dynamic_buffer_size = 1024

abbrev pub move_forward_threshold : ℕ
move_forward_threshold = 1024 * 1024

unfoldable pub new : ℕ → ℕ → DynamicBuffer
new max_capacity init_capacity = record {
  buffer = malloc init_capacity;
  read_index = 0;
  write_index = 0;
  capacity = init_capacity;
  max_capacity = max_capacity;
}

unfoldable pub readable_bytes : DynamicBuffer → ℕ
readable_bytes b = sub_u64 b.write_index b.read_index

unfoldable pub writable_bytes : DynamicBuffer → ℕ
writable_bytes b = sub_u64 b.capacity b.write_index

unfoldable pub prependable_bytes : DynamicBuffer → ℕ
prependable_bytes b = b.read_index

-- `threshold` is the value of the flag move_forward_threshold.
unfoldable pub max_writable_bytes : ℕ → DynamicBuffer → ℕ
unfolding writable_bytes prependable_bytes
max_writable_bytes threshold b =
    let prependable_length =
      if leb threshold (prependable_bytes b) then prependable_bytes b else 0 in
    u64 (sub_u64 b.max_capacity b.capacity + writable_bytes b + prependable_length)

unfoldable pub expand_capacity : DynamicBuffer → Option DynamicBuffer
expand_capacity b = do
  let doubled = u64 (b.capacity * 2)
  let new_capacity = if ltb b.max_capacity doubled then b.max_capacity else doubled
  bytes ← load b.buffer 0 b.capacity
  new_buffer ← store (malloc new_capacity) 0 bytes
  some (record b { buffer = new_buffer; capacity = new_capacity })

unfoldable pub move_forward : DynamicBuffer → Option DynamicBuffer
unfolding prependable_bytes
move_forward b = do
  let prependable_length = prependable_bytes b
  bytes ← load b.buffer b.read_index (sub_u64 b.capacity prependable_length)
  moved ← store b.buffer 0 bytes
  some (record b {
    buffer = moved;
    write_index = sub_u64 b.write_index prependable_length;
    read_index = 0;
    capacity = u64 (b.capacity + prependable_length);
  })

-- The end of `append`: the copy into the write section.
unfoldable pub write_section : DynamicBuffer → List ℕ → Option DynamicBuffer
write_section b bytes = do
  stored ← store b.buffer b.write_index (map some bytes)
  some (record b { buffer = stored; write_index = u64 (b.write_index + length bytes) })

-- `bytes` are the `data_length` bytes at `data`. An error code is assigned only on failure.
unfoldable pub append : ℕ → DynamicBuffer → List ℕ → ErrorCode → Option (DynamicBuffer × ErrorCode)
append threshold b bytes ec =
    let direct : Option (DynamicBuffer × ErrorCode) = do
      written ← write_section b bytes
      some (written, ec)
    in let compacting : Option (DynamicBuffer × ErrorCode) = do
      moved ← move_forward b
      roomy ←
          if ltb (max_writable_bytes threshold moved) (length bytes)
          then expand_capacity moved
          else some moved
      written ← write_section roomy bytes
      some (written, ec)
      in if ltb (writable_bytes b) (length bytes)
        then (if ltb (max_writable_bytes threshold b) (length bytes)
            then some (b, exceed_buffer_bound)
            else compacting)
        else direct

-- The bytes copied to `data`, or none on failure, with the new state and error code.
unfoldable pub consume :
    DynamicBuffer → ℕ → ErrorCode → Option (DynamicBuffer × Option (List Byte) × ErrorCode)
consume b data_length ec =
    let copying : Option (DynamicBuffer × Option (List Byte) × ErrorCode) = do
      bytes ← load b.buffer b.read_index data_length
      some (record b { read_index = u64 (b.read_index + data_length) }, some bytes, ec)
    in if ltb (readable_bytes b) data_length then some (b, none, exceed_buffer_bound) else copying

-- `read_buffer`: the bytes that the returned `ConstBuffer` spans.
unfoldable pub read_buffer : DynamicBuffer → Option (List Byte)
read_buffer b = load b.buffer b.read_index (readable_bytes b)
