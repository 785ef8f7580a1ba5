-- ===== src/DynamicBuffer/Consume.antt =====
-- `consume` of src/common/dynamic_buffer.cpp, and appending followed by consuming.
use smart_routine.Prelude.{
  ℕ, ◌+◌, ◌≤◌, ◌<◌, ◌≡◌, refl, sym, ap, ◌∙◌, none, some, List, ◌++◌, map, map-append, append_assoc,
  arith, length, take, drop, take-append-drop, length-append, length-map, length-take, length-drop,
  lt→ltb, le→ltb, u64, ◌⊎◌, ◌-◌, take-all, drop-all, [],
}
use smart_routine.ErrorCode.{ErrorCode, exceed_buffer_bound}
use smart_routine.DynamicBuffer.{DynamicBuffer, append, consume, load}
use smart_routine.DynamicBuffer.Holds.{Holds, IsValid, length-buffer, readable_lem, load-append}
use smart_routine.DynamicBuffer.Append.{append-Holds, limit}

module _ {b : DynamicBuffer} {xs : List ℕ} (h : Holds b xs) (v : IsValid b) where
  open h use {front, rest, layout, read_at, write_at}

  -- More bytes than are held: the error code is ExceedBufferBound, nothing is copied, and the
  -- buffer is unchanged.
  pub consume-exceeds :
      (n : ℕ) (ec : ErrorCode)
      → length xs < n
      → consume b n ec ≡ some (b, none, exceed_buffer_bound)
  unfolding consume
  consume-exceeds n ec lt = rw (readable_lem h v, lt→ltb (length xs) n lt)

  consumed : ℕ → DynamicBuffer
  consumed n = record b { read_index = u64 (b.read_index + n) }

  split_layout :
      (n : ℕ) → b.buffer ≡ front ++ (map some (take n xs) ++ (map some (drop n xs) ++ rest))
  split_layout n =
      layout
      ∙ ap (λ (l : List ℕ). front ++ (map some l ++ rest)) (sym (take-append-drop n xs))
      ∙ simp (map-append, append_assoc)

  load_first : (n : ℕ) → n ≤ length xs → load b.buffer b.read_index n ≡ some (map some (take n xs))
  load_first n le = rw (split_layout n) (
      load-append front (map some (take n xs)) (map some (drop n xs) ++ rest) b.read_index n read_at
        (omega (arith, length-map (λ (x : ℕ). some x) (take n xs), length-take n xs)))

  consumed-Holds : (n : ℕ) → n ≤ length xs → Holds (consumed n) (drop n xs)
  unfolding consumed
  consumed-Holds n le = record {
    front = front ++ map some (take n xs);
    rest = rest;
    layout = split_layout n ∙ sym (append_assoc front (map some (take n xs)) _);
    read_at = omega (
      arith,
      read_at,
      length-buffer h v,
      v.bounded,
      v.max_small,
      length-append front (map some (take n xs)),
      length-map (λ (x : ℕ). some x) (take n xs),
      length-take n xs,
    );
    write_at = omega (
      arith,
      write_at,
      length-append front (map some (take n xs)),
      length-map (λ (x : ℕ). some x) (take n xs),
      length-take n xs,
      length-drop n xs,
    );
  }

  -- Otherwise the oldest `n` bytes are copied and taken off, the error code stays, and the block
  -- and its capacity are as before.
  pub consume-Holds :
      (n : ℕ) (ec : ErrorCode)
      → n ≤ length xs
      → (b' : DynamicBuffer) × (consume b n ec ≡ some (b', some (map some (take n xs)), ec))
        × Holds b' (drop n xs)
        × (b'.buffer ≡ b.buffer)
        × (b'.capacity ≡ b.capacity)
  unfolding consume consumed
  consume-Holds n ec le = (
    consumed n,
    rw (readable_lem h v, le→ltb (length xs) n le, load_first n le),
    consumed-Holds n le,
    refl,
    refl,
  )

-- What is appended comes out behind what was held: after an append that fits, consuming as many
-- bytes as were held and appended copies the bytes held and then those appended, with no error,
-- and leaves nothing.
pub consume-append :
    (threshold : ℕ) {b : DynamicBuffer} {xs : List ℕ} (ys : List ℕ) (ec : ErrorCode)
    → Holds b xs
    → IsValid b
    → b.capacity ≡ length b.buffer
    → (length ys ≤ length b.buffer - b.write_index)
      ⊎ ((length ys ≤ limit threshold b) × (length xs + length ys ≤ length b.buffer))
    → (b' b'' : DynamicBuffer) × (append threshold b ys ec ≡ some (b', ec))
      × (consume b' (length xs + length ys) ec ≡ some (b'', some (map some (xs ++ ys)), ec))
      × Holds b'' []
consume-append threshold {b} {xs} ys ec h v tight fits =
    let (b', done, held, valid, _) = append-Holds threshold h v ys ec tight fits in
    let n = length xs + length ys in
    let all : n ≡ length (xs ++ ys) = sym (length-append xs ys) in
    let (b'', copied, left, _, _) = consume-Holds held valid n ec (omega (arith, all)) in
    (
      b',
      b'',
      done,
      rw (take-all n (xs ++ ys) all) at copied,
      rw (drop-all n (xs ++ ys) all) at left,
    )
