-- ===== src/DynamicBuffer/Append.antt =====
-- `append` of src/common/dynamic_buffer.cpp, branch by branch.
use native.Mathlib.Decide.{dec_le}
use smart_routine.Prelude.{
  Bool-cases, ℕ, ◌+◌, ◌-◌, ◌≤◌, ◌<◌, ◌≡◌, ◌⊎◌, inl, inr, ◌∙◌, none, some, List, ◌++◌, arith, true,
  false, ltb, leb, length, lt→ltb, le→ltb, if◌then◌else◌,
}
use smart_routine.ErrorCode.{ErrorCode, exceed_buffer_bound}
use smart_routine.DynamicBuffer.{DynamicBuffer, writable_bytes, max_writable_bytes, append}
use smart_routine.DynamicBuffer.Holds.{
  Holds, IsValid, Compacted, SameBlock, length-buffer, writable_lem, write_section-outside,
  write_section-Holds, move_forward-Holds, move_forward-outside,
}

-- The bytes that `append` accepts at all: the bound of `max_writable_bytes`.
abbrev pub limit : ℕ → DynamicBuffer → ℕ
limit threshold b =
    b.max_capacity - b.write_index + (if leb threshold b.read_index then b.read_index else 0)

module _ (threshold : ℕ) {b : DynamicBuffer} {xs : List ℕ} (h : Holds b xs) (v : IsValid b) where
  max_writable_lem : max_writable_bytes threshold b ≡ limit threshold b
  unfolding max_writable_bytes
  max_writable_lem =
      ground
        (arith, length-buffer h v, h.read_at, h.write_at, v.covers, v.small, v.bounded, v.max_small)

-- A compacted buffer accepts what the uncompacted one did, so `expand_capacity` is not called.
no_expansion :
    (threshold n : ℕ) {b b' : DynamicBuffer} {xs : List ℕ}
    → Holds b xs
    → IsValid b
    → b.capacity ≡ length b.buffer
    → n ≤ limit threshold b
    → Holds b' xs
    → Compacted b b'
    → IsValid b' × (ltb (max_writable_bytes threshold b') n ≡ false)
no_expansion threshold n {b} {b'} h v tight le moved c =
    let v' : IsValid b' = omega (arith, length-buffer h v, h.read_at, v.bounded, v.max_small, c) in
    (
      v',
      le→ltb _ _ (
          ground (
            arith,
            max_writable_lem threshold moved v',
            length-buffer h v,
            h.read_at,
            h.write_at,
            v.bounded,
            c,
            moved.read_at,
            moved.write_at,
          )),
    )

pub kept_IsValid : {b b' : DynamicBuffer} → IsValid b → SameBlock b b' → IsValid b'
kept_IsValid v same = omega (arith, v, same)

module _ (threshold : ℕ) {b : DynamicBuffer} {xs : List ℕ} (h : Holds b xs) (v : IsValid b) where
  abbrev pub Appended : List ℕ → ErrorCode → Type 0
  Appended ys ec =
      (b' : DynamicBuffer) × (append threshold b ys ec ≡ some (b', ec))
      × Holds b' (xs ++ ys)
      × IsValid b'
      × (length b'.buffer ≡ length b.buffer)

  -- Inside the writable bytes nothing moves.
  append_direct :
      (ys : List ℕ) (ec : ErrorCode)
      → b.capacity ≡ length b.buffer
      → length ys ≤ length b.buffer - b.write_index
      → Appended ys ec
  unfolding append
  append_direct ys ec tight le =
      let room : ltb (writable_bytes b) (length ys) ≡ false =
        le→ltb _ _ (omega (arith, writable_lem h v)) in
      let fits : b.write_index + length ys ≤ length b.buffer =
        omega (arith, length-buffer h v, h.write_at) in
      let (b', written, held, same) = write_section-Holds h v ys fits in
      (b', rw (room, written), held, kept_IsValid v same, same.size)

  append_compacting :
      (ys : List ℕ) (ec : ErrorCode)
      → b.capacity ≡ length b.buffer
      → length b.buffer - b.write_index < length ys
      → length ys ≤ limit threshold b
      → length xs + length ys ≤ length b.buffer
      → Appended ys ec
  unfolding append
  append_compacting ys ec tight lt le fits =
      let over : ltb (writable_bytes b) (length ys) ≡ true =
        lt→ltb _ _ (omega (arith, writable_lem h v)) in
      let allowed : ltb (max_writable_bytes threshold b) (length ys) ≡ false =
        le→ltb _ _ (omega (arith, max_writable_lem threshold h v)) in
      let (moved, done, held, c) = move_forward-Holds h v tight in
      let (valid, roomy) = no_expansion threshold (length ys) h v tight le held c in
      let inside : moved.write_index + length ys ≤ length moved.buffer =
        omega (arith, held.write_at, held.read_at, c.zeroed, c.size) in
      let (b', written, final, same) = write_section-Holds held valid ys inside in
      (
        b',
        rw (over, allowed, done, roomy, written),
        final,
        kept_IsValid valid same,
        same.size ∙ c.size,
      )

  -- On a buffer whose capacity is its block, an append that fits the free bytes at the end, or is
  -- within the bound and fits the block once the bytes held are moved to its start, returns with
  -- the bytes put behind those held, the error code as it was and the block of the same length.
  pub append-Holds :
      (ys : List ℕ) (ec : ErrorCode)
      → b.capacity ≡ length b.buffer
      → (length ys ≤ length b.buffer - b.write_index)
        ⊎ ((length ys ≤ limit threshold b) × (length xs + length ys ≤ length b.buffer))
      → Appended ys ec
  append-Holds ys ec tight (inl le) = append_direct ys ec tight le
  append-Holds ys ec tight (inr (le, fits)) =
      elim (dec_le (length ys) (length b.buffer - b.write_index)) [
        | yes p ↦ append_direct ys ec tight p
        | no p ↦ append_compacting ys ec tight (omega arith) le fits
      ]

  -- Past the writable bytes and past the bound the append is refused: the error code is
  -- ExceedBufferBound, and the buffer is unchanged.
  pub append-exceeds :
      (ys : List ℕ) (ec : ErrorCode)
      → b.capacity - b.write_index < length ys
      → limit threshold b < length ys
      → append threshold b ys ec ≡ some (b, exceed_buffer_bound)
  unfolding append
  append-exceeds ys ec lt le = rw (
    lt→ltb (writable_bytes b) (length ys) (omega (arith, writable_lem h v)),
    lt→ltb (max_writable_bytes threshold b) (length ys)
        (omega (arith, max_writable_lem threshold h v)),
  )

  -- The buffer never grows: an append within the bound that does not fit the block even after
  -- compaction writes past the end of the block, for `expand_capacity` is not reached.
  pub append-overruns :
      (ys : List ℕ) (ec : ErrorCode)
      → b.capacity ≡ length b.buffer
      → length ys ≤ limit threshold b
      → length b.buffer < length xs + length ys
      → append threshold b ys ec ≡ none
  unfolding append
  append-overruns ys ec tight le lt =
      let over : ltb (writable_bytes b) (length ys) ≡ true =
        lt→ltb _ _ (omega (arith, writable_lem h v, length-buffer h v, h.write_at)) in
      let allowed : ltb (max_writable_bytes threshold b) (length ys) ≡ false =
        le→ltb _ _ (omega (arith, max_writable_lem threshold h v)) in
      let (moved, done, held, c) = move_forward-Holds h v tight in
      let (valid, roomy) = no_expansion threshold (length ys) h v tight le held c in
      let outside =
        write_section-outside held valid ys
          (omega (arith, held.write_at, held.read_at, c.zeroed, c.size)) in
      rw (over, allowed, done, roomy, outside)

  -- Once a compaction has left `capacity_` larger than the block, every append within the bound
  -- that does not fit the free bytes of the block reads or writes outside the block.
  pub append-loose :
      (ys : List ℕ) (ec : ErrorCode)
      → length b.buffer < b.capacity
      → length ys ≤ limit threshold b
      → length b.buffer - b.write_index < length ys
      → append threshold b ys ec ≡ none
  unfolding append
  append-loose ys ec loose le lt = elim (Bool-cases (ltb (writable_bytes b) (length ys))) [
    | inl over ↦ rw (
      over,
      le→ltb (max_writable_bytes threshold b) (length ys)
          (omega (arith, max_writable_lem threshold h v)),
      move_forward-outside h v loose,
    )
    | inr room ↦
        rw (room, write_section-outside h v ys (omega (arith, length-buffer h v, h.write_at)))
  ]
