-- ===== src/Io/Writes.antt =====
-- What `smart_write_impl` of src/internal/smart_routine_impl.cpp hands to `write` over a sequence
-- of readiness events.
use smart_routine.Prelude.{
  ℕ, zero, suc, ◌+◌, ◌-◌, ◌≤◌, ◌<◌, ◌^◌, ◌≡◌, refl, sym, ap, ◌∙◌, inl, inr, Bool, true, false,
  Bool-cases, both_true, ltb→lt, lt→ltb, some, List, [], ◌∷◌, ◌++◌, arith, drop, take, u64, sub_u64,
  ◌==◌, ==→eq, ltb, drop-drop,
}
use smart_routine.ReadUntil.{ewouldblock}
use smart_routine.Callbacks.{callbacks}
use smart_routine.Io.{
  CallResult, returned, refused, WriteContext, new_write, offered, smart_write_impl, int_of,
}
use smart_routine.Io.Ints.{short_writes, int_of_lem}

-- How many bytes a sequence of writes takes.
abbrev pub written : List CallResult → ℕ
written [] = 0
written (returned n ∷ rs) = n + written rs
written (refused errno ∷ rs) = written rs

-- No error, but for writes that would block.
pub data IsSending : List CallResult → Type 0 where
  silent : IsSending []
  some_bytes : (n : ℕ) {rs : List CallResult} → IsSending rs → IsSending (returned (suc n) ∷ rs)
  spurious : {rs : List CallResult} → IsSending rs → IsSending (refused ewouldblock ∷ rs)

-- The bytes that the writes take, each from the front of what it is offered.
unfoldable pub taken : List CallResult → WriteContext → List ℕ
unfolding offered
taken [] c = []
taken (returned n ∷ rs) c = take n (offered c) ++ taken rs (record c { ret = u64 (c.ret + n) })
taken (refused errno ∷ rs) c = taken rs c

take_nil : (k : ℕ) → take {A = ℕ} k [] ≡ []
take_nil zero = refl
take_nil (suc k) = refl

take_add : (n m : ℕ) (xs : List ℕ) → take (n + m) xs ≡ take n xs ++ take m (drop n xs)
take_add zero m xs = ap (λ k. take k xs) {x = 0 + m} {y = m} (omega arith)
take_add (suc n) m [] = take_nil (suc n + m) ∙ sym (take_nil m)
take_add (suc n) m (x ∷ xs) =
    ap (λ k. take k (x ∷ xs)) {x = suc n + m} {y = suc (n + m)} (omega arith)
    ∙ ap (◌∷◌ x) (take_add n m xs)

take-take : (n m : ℕ) (xs : List ℕ) → n ≤ m → take n (take m xs) ≡ take n xs
take-take zero m xs le = refl
take-take (suc n) zero xs le = absurd (omega arith)
take-take (suc n) (suc m) [] le = refl
take-take (suc n) (suc m) (x ∷ xs) le = ap (◌∷◌ x) (take-take n m xs (omega arith))

-- `n` bytes of the caller's are with the system.
pub record Sent (count n : ℕ) (out : WriteContext × Bool) : Type 0 where
  pub counted : out.0.ret ≡ n
  pub count_kept : out.0.count ≡ count
  pub no_error : out.0.errno ≡ 0
  -- The coroutine is resumed exactly when they are all.
  pub resumed : out.1 ≡ (n == count)

abbrev Sends : ℕ → ℕ → List CallResult → WriteContext → Type 0
Sends count k rs c =
    (out : WriteContext × Bool) × (callbacks smart_write_impl rs c ≡ some out)
    × Sent count (k + written rs) out
    × (taken rs c ≡ take (written rs) (drop k c.buf))

taken_none :
    {rs : List CallResult} → IsSending rs → written rs ≡ 0 → (c : WriteContext) → taken rs c ≡ []
unfolding taken
taken_none silent e c = refl
taken_none (some_bytes n flowing) e c = absurd (omega arith)
taken_none (spurious flowing) e c = taken_none flowing e c

-- What one write and those after it take.
joined :
    (count k n m : ℕ) (c : WriteContext) (rest : List ℕ)
    → c.ret ≡ k
    → c.count ≡ count
    → k + n ≤ count
    → count < 2 ^ 64
    → rest ≡ take m (drop (k + n) c.buf)
    → take n (offered c) ++ rest ≡ take (n + m) (drop k c.buf)
unfolding offered
joined count k n m c rest at_k size fits small e =
    let left : sub_u64 c.count c.ret ≡ count - k = omega arith in
    let first : take n (take (count - k) (drop k c.buf)) ≡ take n (drop k c.buf) =
      take-take n (count - k) (drop k c.buf) (omega arith) in
    let next : drop (k + n) c.buf ≡ drop n (drop k c.buf) = sym (drop-drop k n c.buf) in
    rw (left, at_k, first, e, next) (sym (take_add n m (drop k c.buf)))

sends_lem :
    {rs : List CallResult}
    → IsSending rs
    → (count k : ℕ) (c : WriteContext) → Sent count k (c, false)
    → k + written rs ≤ count
    → count < 2 ^ 64
    → short_writes rs ≡ true
    → Sends count k rs c
unfolding callbacks smart_write_impl taken
sends_lem silent count k c v fits small short = (
  (c, false),
  refl,
  record {
    counted = omega (arith, v.counted);
    count_kept = v.count_kept;
    no_error = v.no_error;
    resumed = v.resumed ∙ ap (λ n. n == count) (omega arith);
  },
  refl,
)
sends_lem (spurious flowing) count k c v fits small short =
    sends_lem flowing count k c v fits small short
sends_lem (some_bytes n {rs} flowing) count k c v fits small short =
    let (now, then_on) = both_true (ltb (suc n) (2 ^ 31)) (short_writes rs) short in
    let as_int = int_of_lem (suc n) (ltb→lt (suc n) (2 ^ 31) now) in
    let total : u64 (c.ret + suc n) ≡ k + suc n = omega (arith, v.counted) in
    let c' : WriteContext = record c { ret = u64 (c.ret + suc n) } in
    let positive : ltb 0 (suc n) ≡ true = ground arith in
    let full : (u64 (c.ret + suc n) == c.count) ≡ (k + suc n == count) =
      rw (total, v.count_kept) refl in
    let whole : taken rs c' ≡ take (written rs) (drop (k + suc n) c.buf)
        → take (suc n) (offered c) ++ taken rs c' ≡ take (suc n + written rs) (drop k c.buf) =
      joined count k (suc n) (written rs) c (taken rs c') v.counted v.count_kept (omega arith)
        small in
    elim (Bool-cases (k + suc n == count)) [
      | inl e ↦
          let none_left : written rs ≡ 0 = omega (arith, ==→eq (k + suc n) count e) in
          (
            (c', true),
            rw (as_int, positive, full ∙ e) refl,
            record {
              counted = omega (arith, total);
              count_kept = v.count_kept;
              no_error = v.no_error;
              resumed = sym e ∙ ap (λ i. i == count) (omega arith);
            },
            whole (
                taken_none flowing none_left c'
                ∙ ap (λ i. take i (drop (k + suc n) c.buf)) {x = 0} (sym none_left)),
          )
      | inr e ↦
          let (out, ran, sent, bytes) =
            sends_lem flowing count (k + suc n) c'
              (record {
                counted = total;
                count_kept = v.count_kept;
                no_error = v.no_error;
                resumed = sym e;
              })
              (omega arith) small then_on in
          (
            out,
            rw (as_int, positive, full ∙ e) ran,
            record {
              counted = omega (arith, sent.counted);
              count_kept = sent.count_kept;
              no_error = sent.no_error;
              resumed = sent.resumed ∙ ap (λ i. i == count) (omega arith);
            },
            whole bytes,
          )
    ]

-- `smart_write` of `count` bytes, for writes that take at least one byte and at most what is still
-- to be written, with no error: together they take the first bytes of the caller's, in order and
-- each once, the result counts them, and the coroutine is resumed exactly when they are all.
pub write-Sent :
    (buf : List ℕ) (count : ℕ) (rs : List CallResult)
    → IsSending rs
    → short_writes rs ≡ true
    → 0 < count
    → count < 2 ^ 64
    → written rs ≤ count
    → (out : WriteContext × Bool) × (callbacks smart_write_impl rs (new_write buf count) ≡ some out)
      × Sent count (written rs) out
      × (taken rs (new_write buf count) ≡ take (written rs) buf)
unfolding new_write
write-Sent buf count rs flowing short p small fits =
    let (out, ran, v, bytes) =
      sends_lem flowing count 0 (new_write buf count)
        (record { counted = refl; count_kept = refl; no_error = refl; resumed = ground arith })
        (omega arith) small short in
    (
      out,
      ran,
      record {
        counted = omega (arith, v.counted);
        count_kept = v.count_kept;
        no_error = v.no_error;
        resumed = v.resumed ∙ ap (λ i. i == count) (omega arith);
      },
      bytes,
    )

pub few_written : (rs : List CallResult) → written rs < 2 ^ 31 → short_writes rs ≡ true
few_written [] lt = refl
few_written (returned n ∷ rs) lt =
    rw (lt→ltb n (2 ^ 31) (omega arith)) (few_written rs (omega arith))
few_written (refused errno ∷ rs) lt = few_written rs lt

-- What `write` returns when nothing is asked of it.
pub data IsVoid : List CallResult → Type 0 where
  silent : IsVoid []
  zero_bytes : {rs : List CallResult} → IsVoid rs → IsVoid (returned 0 ∷ rs)
  spurious : {rs : List CallResult} → IsVoid rs → IsVoid (refused ewouldblock ∷ rs)

-- A `smart_write` of no bytes, for which `write` returns 0, never resumes its coroutine, however
-- often the descriptor is ready.
pub write_nothing-waits :
    (buf : List ℕ) (rs : List CallResult)
    → IsVoid rs
    → callbacks smart_write_impl rs (new_write buf 0) ≡ some (new_write buf 0, false)
unfolding callbacks smart_write_impl int_of
write_nothing-waits buf [] silent = refl
write_nothing-waits buf _ (zero_bytes {rs} v) = write_nothing-waits buf rs v
write_nothing-waits buf _ (spurious {rs} v) = write_nothing-waits buf rs v
