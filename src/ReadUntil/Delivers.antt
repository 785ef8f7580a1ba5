-- ===== src/ReadUntil/Delivers.antt =====
-- When `smart_read_until_impl` of src/internal/smart_routine_impl.cpp resumes its coroutine.
use smart_routine.Prelude.{
  ℕ, ◌+◌, ◌-◌, ◌≤◌, ◌<◌, ◌^◌, ◌≡◌, ◌≢◌, refl, ap, subst, ◌∙◌, ◌⊎◌, inl, inr, Bool, true, false,
  some, List, [], ◌∷◌, ◌++◌, map, arith, length, drop, length-append, leb, ltb, le→ltb, u32, u64,
}
use smart_routine.ErrorCode.{success, fail}
use smart_routine.DynamicBuffer.{DynamicBuffer, append, writable_bytes}
use smart_routine.DynamicBuffer.Holds.{
  Holds, IsValid, length-buffer, writable_lem, read_buffer_lem, write_section-Holds,
}
use smart_routine.DynamicBuffer.Append.{kept_IsValid}
use smart_routine.Search.{PartialSearchResult, partial_search}
use smart_routine.Search.Chunks.{
  Occurs, SearchedTo, Continues, complete, go_on, start_over, continue_lem,
}
use smart_routine.ReadUntil.{ReadUntilContext, values, unsearched, searched, take_in}

values_lem : (xs : List ℕ) → values (map some xs) ≡ some xs
unfolding values
values_lem [] = refl
values_lem (x ∷ xs) = rw (values_lem xs) refl

-- A callback's state between two events, with `bytes` the content of the buffer.
pub record Ready (bytes : List ℕ) (c : ReadUntilContext) : Type 0 where
  pub holds : Holds c.buffer bytes
  pub valid : IsValid c.buffer
  pub some_delim : c.delim ≢ []
  pub searching : SearchedTo c.delim bytes c.last_search_end
  pub no_error : c.ec ≡ success

-- Free bytes at the end of the block.
abbrev pub free : DynamicBuffer → ℕ
free b = length b.buffer - b.write_index

-- What the search leaves alone.
record SameButEnd (c c' : ReadUntilContext) : Type 0 where
  buffer_kept : c'.buffer ≡ c.buffer
  delim_kept : c'.delim ≡ c.delim
  ec_kept : c'.ec ≡ c.ec
  ret_kept : c'.ret ≡ c.ret

abbrev pub Answer : List ℕ → List ℕ → ReadUntilContext × Bool → Type 0
Answer delim bytes (c, resumed) =
    ((resumed ≡ true) × Occurs delim bytes)
    ⊎ ((resumed ≡ false) × (¬ Occurs delim bytes) × SearchedTo delim bytes c.last_search_end)

module _ {s bs : List ℕ} {n : ℕ} (v : SearchedTo s bs n) (ys : List ℕ) (c : ReadUntilContext)
    (at_n : c.last_search_end ≡ n) (small : length (bs ++ ys) < 2 ^ 32) where
  searched-Answer :
      {r : PartialSearchResult × ℕ}
      → Continues v ys r
      → Answer s (bs ++ ys) (searched r (length (bs ++ ys)) c false)
  unfolding searched
  searched-Answer (complete j here) = inl (refl, here)
  searched-Answer (go_on j missing w) =
      let e : n + j ≡ u64 (c.last_search_end + j) = omega (arith, w.within) in
      inr (refl, missing, subst (SearchedTo s (bs ++ ys)) e w)
  searched-Answer (start_over missing w) = inr (refl, missing, w)

  searched-SameButEnd :
      {r : PartialSearchResult × ℕ}
      → Continues v ys r
      → SameButEnd c (searched r (length (bs ++ ys)) c false).0
  unfolding searched
  searched-SameButEnd (complete j here) = record {
    buffer_kept = refl;
    delim_kept = refl;
    ec_kept = refl;
    ret_kept = refl;
  }
  searched-SameButEnd (go_on j missing w) = record {
    buffer_kept = refl;
    delim_kept = refl;
    ec_kept = refl;
    ret_kept = refl;
  }
  searched-SameButEnd (start_over missing w) = record {
    buffer_kept = refl;
    delim_kept = refl;
    ec_kept = refl;
    ret_kept = refl;
  }

-- An event that brings the bytes `ys`.
pub record Taken (c : ReadUntilContext) (bytes ys : List ℕ) (out : ReadUntilContext × Bool)
    : Type 0 where
  pub holds : Holds out.0.buffer (bytes ++ ys)
  pub valid : IsValid out.0.buffer
  pub delim_kept : out.0.delim ≡ c.delim
  pub no_error : out.0.ec ≡ success
  pub counted : out.0.ret ≡ u32 (c.ret + length ys)
  pub used : free out.0.buffer + length ys ≡ free c.buffer
  pub answer : Answer c.delim (bytes ++ ys) out

module _ (threshold : ℕ) {bytes : List ℕ} {c : ReadUntilContext} (v : Ready bytes c) where
  abbrev filled : DynamicBuffer → List ℕ → ReadUntilContext
  filled b ys = record c { buffer = b; ec = c.ec; ret = u32 (c.ret + length ys) }

  abbrev outcome : DynamicBuffer → List ℕ → ReadUntilContext × Bool
  outcome b ys =
      searched (partial_search (drop c.last_search_end (bytes ++ ys)) c.delim)
        (length (bytes ++ ys)) (filled b ys) false

  take_in_lem :
      (ys : List ℕ) (b : DynamicBuffer)
      → append threshold c.buffer ys c.ec ≡ some (b, c.ec)
      → Holds b (bytes ++ ys)
      → IsValid b
      → take_in threshold ys c ≡ some (outcome b ys)
  unfolding take_in unsearched fail
  take_in_lem ys b appended h w =
      let inside : leb c.last_search_end (length (bytes ++ ys)) ≡ true =
        ground (arith, v.searching.within, length-append bytes ys) in
      let working : fail c.ec ≡ false = ap fail v.no_error in
      rw (appended, read_buffer_lem h w, values_lem (bytes ++ ys), inside, working) refl

  pub take_in-Taken :
      (ys : List ℕ)
      → length ys ≤ free c.buffer
      → length bytes + length ys < 2 ^ 32
      → (out : ReadUntilContext × Bool) × (take_in threshold ys c ≡ some out) × Taken c bytes ys out
  unfolding append
  take_in-Taken ys le small =
      let sizes = length-buffer v.holds v.valid in
      let room : ltb (writable_bytes c.buffer) (length ys) ≡ false =
        le→ltb _ _
          (omega (arith, writable_lem v.holds v.valid, sizes, v.holds.write_at, v.valid.covers)) in
      let (b, written, h, same) =
        write_section-Holds v.holds v.valid ys (omega (arith, sizes, v.holds.write_at)) in
      let w = kept_IsValid v.valid same in
      let size = length-append bytes ys in
      let found = continue_lem v.searching ys v.some_delim (omega arith) in
      let kept = searched-SameButEnd v.searching ys (filled b ys) refl (omega arith) found in
      (
        outcome b ys,
        take_in_lem ys b (rw (room, written) refl) h w,
        record {
          holds = rw kept.buffer_kept h;
          valid = rw kept.buffer_kept w;
          delim_kept = kept.delim_kept;
          no_error = kept.ec_kept ∙ v.no_error;
          counted = kept.ret_kept;
          used = rw kept.buffer_kept (
              omega (
                arith, h.write_at, h.read_at, v.holds.write_at, v.holds.read_at, same.read_kept,
                same.size,
              ));
          answer = searched-Answer v.searching ys (filled b ys) refl (omega arith) found;
        },
      )
