-- ===== src/DynamicBuffer/Holds.antt =====
-- What a DynamicBuffer of src/common/dynamic_buffer.cpp holds, and its reads and writes seen so.
use smart_routine.Prelude.{
  ℕ, ◌+◌, ◌-◌, ◌^◌, ◌≤◌, ◌<◌, ◌≡◌, refl, sym, ap, ◌∙◌, none, some, List, [], ◌++◌, true, map,
  map-append, append-nil, append_assoc, arith, leb, length, drop, length-append, length-map,
  length-drop, take-append, drop-append, drop-append_add, replicate, u64, sub_u64,
}
use smart_routine.DynamicBuffer.{
  DynamicBuffer, Byte, load, store, new, readable_bytes, writable_bytes, move_forward,
  write_section, read_buffer,
}

-- `bytes` stand between the read index and the write index.
pub record Holds (b : DynamicBuffer) (bytes : List ℕ) : Type 0 where
  pub front : List Byte
  pub rest : List Byte
  pub layout : b.buffer ≡ front ++ (map some bytes ++ rest)
  pub read_at : b.read_index ≡ length front
  pub write_at : b.write_index ≡ length front + length bytes

-- The block is at most `capacity_` long and numbers are far from 2 ^ 64.
pub record IsValid (b : DynamicBuffer) : Type 0 where
  pub covers : length b.buffer ≤ b.capacity
  pub bounded : length b.buffer ≤ b.max_capacity
  pub small : b.capacity < 2 ^ 63
  pub max_small : b.max_capacity < 2 ^ 62

-- What a copy into the write section leaves alone.
pub record SameBlock (b b' : DynamicBuffer) : Type 0 where
  pub size : length b'.buffer ≡ length b.buffer
  pub read_kept : b'.read_index ≡ b.read_index
  pub capacity_kept : b'.capacity ≡ b.capacity
  pub max_kept : b'.max_capacity ≡ b.max_capacity

-- What compaction does to the sizes: `capacity_` grows and the block does not.
pub record Compacted (b b' : DynamicBuffer) : Type 0 where
  pub size : length b'.buffer ≡ length b.buffer
  pub zeroed : b'.read_index ≡ 0
  pub grown : b'.capacity ≡ b.capacity + b.read_index
  pub max_kept : b'.max_capacity ≡ b.max_capacity

pub load-append :
    (front bytes rest : List Byte) (i n : ℕ)
    → i ≡ length front
    → n ≡ length bytes
    → load (front ++ (bytes ++ rest)) i n ≡ some bytes
unfolding load
load-append front bytes rest i n e h =
    let fits : leb (i + n) (length (front ++ (bytes ++ rest))) ≡ true =
      ground (arith, length-append front (bytes ++ rest), length-append bytes rest) in
    rw (fits, drop-append i front (bytes ++ rest) e, take-append n bytes rest h)

pub store-append :
    (front old bytes : List Byte) (i : ℕ)
    → i ≡ length front
    → length bytes ≤ length old
    → store (front ++ old) i bytes ≡ some (front ++ (bytes ++ drop (length bytes) old))
unfolding store
store-append front old bytes i e h =
    let fits : leb (i + length bytes) (length (front ++ old)) ≡ true =
      ground (arith, length-append front old) in
    let kept : drop (i + length bytes) (front ++ old) ≡ drop (length bytes) old =
      drop-append_add (i + length bytes) (length bytes) front old (omega arith) in
    rw (fits, take-append i front old e, kept)

pub store-outside :
    (block bytes : List Byte) (i : ℕ) → length block < i + length bytes → store block i bytes ≡ none
unfolding store
store-outside block bytes i h = ground arith

pub load-outside : (block : List Byte) (i n : ℕ) → length block < i + n → load block i n ≡ none
unfolding load
load-outside block i n h = ground arith

pub Holds-new : (max init : ℕ) → Holds (new max init) []
unfolding new
Holds-new max init = record {
  front = [];
  rest = replicate init none;
  layout = refl;
  read_at = refl;
  write_at = refl;
}

module _ {b : DynamicBuffer} {xs : List ℕ} (h : Holds b xs) (v : IsValid b) where
  open h use {front, rest, layout, read_at, write_at}

  -- The block is the bytes before the read index, those held, and the free ones.
  pub length-buffer : length b.buffer ≡ length front + (length xs + length rest)
  length-buffer =
      ap length layout
      ∙ omega (
        arith,
        length-append front (map some xs ++ rest),
        length-append (map some xs) rest,
        length-map (λ (x : ℕ). some x) xs,
      )

  pub readable_lem : readable_bytes b ≡ length xs
  unfolding readable_bytes
  readable_lem = omega (arith, length-buffer, v.covers, v.small)

  pub writable_lem : writable_bytes b ≡ b.capacity - b.write_index
  unfolding writable_bytes
  writable_lem = omega (arith, length-buffer, v.covers, v.small)

  -- The `ConstBuffer` of `read_buffer` spans exactly the bytes held.
  pub read_buffer_lem : read_buffer b ≡ some (map some xs)
  unfolding read_buffer
  read_buffer_lem =
      rw (readable_lem, layout)
        (load-append front (map some xs) rest b.read_index (length xs) read_at
          (sym (length-map (λ (x : ℕ). some x) xs)))

  -- A copy past the end of the block.
  pub write_section-outside :
      (ys : List ℕ) → length b.buffer < b.write_index + length ys → write_section b ys ≡ none
  unfolding write_section
  write_section-outside ys lt = rw (
      store-outside b.buffer (map some ys) b.write_index
        (omega (arith, length-map (λ (x : ℕ). some x) ys)))

  stored : (ys : List ℕ) → List Byte
  stored ys = front ++ (map some (xs ++ ys) ++ drop (length ys) rest)

  store_lem :
      (ys : List ℕ)
      → b.write_index + length ys ≤ length b.buffer
      → store b.buffer b.write_index (map some ys) ≡ some (stored ys)
  unfolding stored
  store_lem ys le =
      let sized : length (map some ys) ≡ length ys = length-map (λ (x : ℕ). some x) ys in
      let split : b.buffer ≡ (front ++ map some xs) ++ rest =
        layout ∙ sym (append_assoc front (map some xs) rest) in
      let index : b.write_index ≡ length (front ++ map some xs) =
        omega
          (arith, write_at, length-append front (map some xs), length-map (λ (x : ℕ). some x) xs) in
      let written =
        store-append (front ++ map some xs) rest (map some ys) b.write_index index
          (omega (arith, length-buffer, sized, write_at)) in
      rw split (written ∙ simp (sized, map-append, append_assoc))

  length-stored :
      (ys : List ℕ)
      → b.write_index + length ys ≤ length b.buffer
      → length (stored ys) ≡ length b.buffer
  unfolding stored
  length-stored ys le = omega (
    arith,
    length-buffer,
    write_at,
    length-append front (map some (xs ++ ys) ++ drop (length ys) rest),
    length-append (map some (xs ++ ys)) (drop (length ys) rest),
    length-map (λ (x : ℕ). some x) (xs ++ ys),
    length-append xs ys,
    length-drop (length ys) rest,
  )

  -- A copy that stays inside the block puts the bytes behind those held.
  pub write_section-Holds :
      (ys : List ℕ)
      → b.write_index + length ys ≤ length b.buffer
      → (b' : DynamicBuffer) × (write_section b ys ≡ some b') × Holds b' (xs ++ ys) × SameBlock b b'
  unfolding write_section stored
  write_section-Holds ys le = (
    record b { buffer = stored ys; write_index = u64 (b.write_index + length ys) },
    rw (store_lem ys le),
    record {
      front = front;
      rest = drop (length ys) rest;
      layout = refl;
      read_at = read_at;
      write_at = omega (arith, write_at, length-append xs ys, v.covers, v.small);
    },
    record { size = length-stored ys le; read_kept = refl; capacity_kept = refl; max_kept = refl },
  )

  abbrev live : List Byte
  live = map some xs ++ rest

  length-live : b.read_index + length live ≡ length b.buffer
  length-live = omega (
    arith,
    length-buffer,
    read_at,
    length-append (map some xs) rest,
    length-map (λ (x : ℕ). some x) xs,
  )

  load-live :
      (n : ℕ) → n + b.read_index ≡ length b.buffer → load b.buffer b.read_index n ≡ some live
  load-live n e =
      let taken = load-append front live [] b.read_index n read_at (omega (arith, length-live)) in
      rw layout (rw (append-nil live) at taken)

  store-live : store b.buffer 0 live ≡ some (live ++ drop (length live) b.buffer)
  store-live = store-append [] b.buffer live 0 refl (omega (arith, length-live))

  length-moved : length (live ++ drop (length live) b.buffer) ≡ length b.buffer
  length-moved = omega (
    arith,
    length-live,
    length-append live (drop (length live) b.buffer),
    length-drop (length live) b.buffer,
  )

  -- Compaction of a buffer whose capacity is its block: the bytes held move to the start, and
  -- `capacity_` grows by the bytes that stood before them although the block does not.
  pub move_forward-Holds :
      b.capacity ≡ length b.buffer
      → (b' : DynamicBuffer) × (move_forward b ≡ some b') × Holds b' xs × Compacted b b'
  unfolding move_forward
  move_forward-Holds tight =
      let count : sub_u64 b.capacity b.read_index + b.read_index ≡ length b.buffer =
        omega (arith, length-buffer, read_at, v.small) in
      let index : sub_u64 b.write_index b.read_index ≡ length xs =
        omega (arith, length-buffer, read_at, write_at, v.small, v.covers) in
      (
        record b {
          buffer = live ++ drop (length live) b.buffer;
          write_index = sub_u64 b.write_index b.read_index;
          read_index = 0;
          capacity = u64 (b.capacity + b.read_index);
        },
        rw (load-live (sub_u64 b.capacity b.read_index) count, store-live),
        record {
          front = [];
          rest = rest ++ drop (length live) b.buffer;
          layout = append_assoc (map some xs) rest (drop (length live) b.buffer);
          read_at = refl;
          write_at = omega (arith, index);
        },
        record {
          size = length-moved;
          zeroed = refl;
          grown = omega (arith, length-buffer, read_at, v.small, v.covers, v.bounded, v.max_small);
          max_kept = refl;
        },
      )

  -- With `capacity_` past the end of the block the `memmove` reads outside it.
  pub move_forward-outside : length b.buffer < b.capacity → move_forward b ≡ none
  unfolding move_forward
  move_forward-outside lt = rw (
      load-outside b.buffer b.read_index (sub_u64 b.capacity b.read_index)
        (omega (arith, length-buffer, read_at, v.small)))
