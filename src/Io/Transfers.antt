-- ===== src/Io/Transfers.antt =====
-- What `smart_read_impl` of src/internal/smart_routine_impl.cpp brings over a sequence of readiness
-- events.
use smart_routine.Prelude.{
  ℕ, ◌+◌, ◌≤◌, ◌<◌, ◌^◌, ◌≡◌, ◌≢◌, refl, sym, ap, subst, ◌∙◌, inl, inr, Bool, true, false,
  Bool-cases, both_true, ltb, ltb→lt, some, List, [], ◌∷◌, ◌++◌, map, map-append, arith, length,
  drop, length-append, length-map, length-drop, append_assoc, append-nil, drop-drop, u64, ◌==◌,
  ==→eq,
}
use smart_routine.DynamicBuffer.{Byte}
use smart_routine.DynamicBuffer.Holds.{store-append}
use smart_routine.ReadUntil.{ReadResult, received, failed, ewouldblock}
use smart_routine.ReadUntil.Resumes.{IsFlowing, silent, some_bytes, spurious, arrived}
use smart_routine.Callbacks.{callbacks, callbacks-append}
use smart_routine.Io.Ints.{short_reads, int_of_lem}
use smart_routine.Io.{ReadContext, new_read, smart_read_impl, minus_one}

refill :
    (xs ys : List ℕ) (rest : List Byte)
    → map some xs ++ (map some ys ++ drop (length (map some ys)) rest)
      ≡ map some (xs ++ ys) ++ drop (length ys) rest
refill xs ys rest =
    rw (length-map (λ (y : ℕ). some y) ys, map-append)
      (sym (append_assoc (map some xs) (map some ys) (drop (length ys) rest)))

-- `xs` is in the caller's memory, before `rest`.
pub record Filled (count : ℕ) (xs : List ℕ) (rest : List Byte) (out : ReadContext × Bool)
    : Type 0 where
  pub contents : out.0.buf ≡ map some xs ++ rest
  pub counted : out.0.ret ≡ length xs
  pub count_kept : out.0.count ≡ count
  pub no_error : out.0.errno ≡ 0
  -- The coroutine is resumed exactly when all that it asked for is there.
  pub resumed : out.1 ≡ (length xs == count)

received-Filled :
    {count : ℕ} {xs : List ℕ} {rest : List Byte} {c : ReadContext}
    → Filled count xs rest (c, false)
    → (y : ℕ) (ys : List ℕ) → length xs + length (y ∷ ys) ≤ count
    → length (y ∷ ys) ≤ length rest
    → count < 2 ^ 64
    → length (y ∷ ys) < 2 ^ 31
    → (out : ReadContext × Bool) × (smart_read_impl (received (y ∷ ys)) c ≡ some out)
      × Filled count (xs ++ y ∷ ys) (drop (length (y ∷ ys)) rest) out
unfolding smart_read_impl
received-Filled {count} {xs} {rest} {c} v y ys fits room small short =
    let size = length-map (λ (x : ℕ). some x) (y ∷ ys) in
    let at_end : c.ret ≡ length (map some xs) =
      v.counted ∙ sym (length-map (λ (x : ℕ). some x) xs) in
    let total : u64 (c.ret + length (y ∷ ys)) ≡ length (xs ++ y ∷ ys) =
      omega (arith, v.counted, length-append xs (y ∷ ys)) in
    let buf = map some xs ++ (map some (y ∷ ys) ++ drop (length (map some (y ∷ ys))) rest) in
    (
      (
        record c { buf = buf; ret = u64 (c.ret + length (y ∷ ys)) },
        u64 (c.ret + length (y ∷ ys)) == c.count,
      ),
      rw
          (
            int_of_lem (length (y ∷ ys)) short,
            v.contents,
            store-append (map some xs) rest (map some (y ∷ ys)) c.ret at_end (omega arith),
          )
          refl,
      record {
        contents = refill xs (y ∷ ys) rest;
        counted = total;
        count_kept = v.count_kept;
        no_error = v.no_error;
        resumed = rw (total, v.count_kept) refl;
      },
    )

length_zero : (l : List ℕ) → length l ≡ 0 → l ≡ []
length_zero [] e = refl
length_zero (x ∷ l) e = absurd (omega arith)

Filled-as :
    {count : ℕ} {xs : List ℕ} {rest : List Byte} {out : ReadContext × Bool} (b : Bool)
    → out.1 ≡ b
    → Filled count xs rest out
    → Filled count xs rest (out.0, b)
Filled-as b e v = record {
  contents = v.contents;
  counted = v.counted;
  count_kept = v.count_kept;
  no_error = v.no_error;
  resumed = sym e ∙ v.resumed;
}

abbrev pub ReadSo : ReadContext → List ℕ → List Byte → ℕ → List ReadResult → Type 0
ReadSo c xs rest count rs =
    (out : ReadContext × Bool) × (callbacks smart_read_impl rs c ≡ some out)
    × Filled count (xs ++ arrived rs) (drop (length (arrived rs)) rest) out

-- The coroutine has all that it asked for, so nothing is left to arrive.
full_lem :
    (count : ℕ) (xs ys zs : List ℕ) (rest : List Byte) (out : ReadContext × Bool)
    → out.1 ≡ true
    → length xs + length (ys ++ zs) ≤ count
    → Filled count (xs ++ ys) (drop (length ys) rest) out
    → Filled count (xs ++ (ys ++ zs)) (drop (length (ys ++ zs)) rest) (out.0, true)
full_lem count xs ys zs rest out e fits v =
    let all : length (xs ++ ys) ≡ count = ==→eq _ _ (sym v.resumed ∙ e) in
    let none_left : zs ≡ [] =
      length_zero zs (omega (arith, all, length-append xs ys, length-append ys zs)) in
    let whole : ys ≡ ys ++ zs = sym (append-nil ys) ∙ ap (λ l. ys ++ l) (sym none_left) in
    subst (λ l. Filled count (xs ++ l) (drop (length l) rest) (out.0, true)) whole
      (Filled-as true e v)

regroup :
    (count : ℕ) (xs ys zs : List ℕ) (rest : List Byte) (out : ReadContext × Bool)
    → Filled count ((xs ++ ys) ++ zs) (drop (length zs) (drop (length ys) rest)) out
    → Filled count (xs ++ (ys ++ zs)) (drop (length (ys ++ zs)) rest) out
regroup count xs ys zs rest out v =
    let tail : drop (length zs) (drop (length ys) rest) ≡ drop (length (ys ++ zs)) rest =
      drop-drop (length ys) (length zs) rest ∙ ap (λ n. drop n rest) (sym (length-append ys zs)) in
    subst (λ l. Filled count l (drop (length (ys ++ zs)) rest) out) (append_assoc xs ys zs)
      (subst (λ l. Filled count ((xs ++ ys) ++ zs) l out) tail v)

reads_lem :
    {rs : List ReadResult}
    → IsFlowing rs
    → (count : ℕ) (xs : List ℕ) (rest : List Byte) (c : ReadContext)
    → Filled count xs rest (c, false)
    → length xs + length (arrived rs) ≤ count
    → count ≤ length xs + length rest
    → count < 2 ^ 64
    → short_reads rs ≡ true
    → ReadSo c xs rest count rs
unfolding callbacks smart_read_impl
reads_lem silent count xs rest c v fits room small short =
    ((c, false), refl, subst (λ l. Filled count l rest (c, false)) (sym (append-nil xs)) v)
reads_lem (spurious flowing) count xs rest c v fits room small short =
    reads_lem flowing count xs rest c v fits room small short
reads_lem (some_bytes y ys {rs} flowing) count xs rest c v fits room small short =
    let (now, then_on) = both_true (ltb (length (y ∷ ys)) (2 ^ 31)) (short_reads rs) short in
    let sizes = length-append (y ∷ ys) (arrived rs) in
    let (out, done, w) =
      received-Filled v y ys (omega (arith, sizes)) (omega (arith, sizes)) small
        (ltb→lt (length (y ∷ ys)) (2 ^ 31) now) in
    elim (Bool-cases out.1) [
      | inl e ↦ (
        (out.0, true),
        rw (done, e) refl,
        full_lem count xs (y ∷ ys) (arrived rs) rest out e fits w,
      )
      | inr e ↦
          let (end, ran, u) =
            reads_lem flowing count (xs ++ y ∷ ys) (drop (length (y ∷ ys)) rest) out.0
              (Filled-as false e w) (omega (arith, sizes, length-append xs (y ∷ ys)))
              (omega (arith, length-append xs (y ∷ ys), length-drop (length (y ∷ ys)) rest)) small
              then_on in
          (end, rw (done, e) ran, regroup count xs (y ∷ ys) (arrived rs) rest end u)
    ]

-- `smart_read` of `count` bytes into memory of at least that length, for reads that bring at most what is
-- still asked for, with neither an end of file nor an error: the bytes that arrived are at the
-- start of the memory, in order, the rest of it is as before, the result counts them, and the
-- coroutine is resumed exactly when they are all.
pub read-Filled :
    (buf : List Byte) (count : ℕ) (rs : List ReadResult)
    → IsFlowing rs
    → short_reads rs ≡ true
    → 0 < count
    → count ≤ length buf
    → count < 2 ^ 64
    → length (arrived rs) ≤ count
    → (out : ReadContext × Bool) × (callbacks smart_read_impl rs (new_read buf count) ≡ some out)
      × Filled count (arrived rs) (drop (length (arrived rs)) buf) out
unfolding new_read
read-Filled buf count rs flowing short p room small fits =
    reads_lem flowing count [] buf (new_read buf count)
      (record {
        contents = refl;
        counted = refl;
        count_kept = refl;
        no_error = refl;
        resumed = ground arith;
      })
      (omega arith) (omega arith) small short

-- How a `smart_read` ends that has not got all its bytes: at the end of file the coroutine is
-- resumed with the count of the bytes that arrived; at an error other than EWOULDBLOCK
-- it is resumed with -1 and the error's number.
pub read_ends :
    (buf : List Byte) (count : ℕ) (rs : List ReadResult) (errno : ℕ)
    → IsFlowing rs
    → short_reads rs ≡ true
    → 0 < count
    → count ≤ length buf
    → count < 2 ^ 64
    → length (arrived rs) < count
    → errno ≢ ewouldblock
    → ((c : ReadContext) × (callbacks smart_read_impl (rs ++ received [] ∷ []) (new_read buf count)
          ≡ some (c, true))
        × (c.ret ≡ length (arrived rs)))
      × ((c : ReadContext) × (callbacks smart_read_impl
              (rs ++ failed errno ∷ [])
              (new_read buf count)
            ≡ some (c, true))
          × (c.ret ≡ minus_one)
          × (c.errno ≡ errno))
unfolding callbacks smart_read_impl
read_ends buf count rs errno flowing short p room small lt ne =
    let (out, ran, v) = read-Filled buf count rs flowing short p room small (omega arith) in
    let open_still : out.1 ≡ false = v.resumed ∙ ground arith in
    let waits : callbacks smart_read_impl rs (new_read buf count) ≡ some (out.0, false) =
      ran ∙ ap (λ b. some (out.0, b)) open_still in
    let bad : (errno == ewouldblock) ≡ false = ground arith in
    (
      (out.0, callbacks-append smart_read_impl rs _ _ _ waits, v.counted),
      (
        record (out.0) { ret = minus_one; errno = errno },
        callbacks-append smart_read_impl rs _ _ _ waits ∙ rw bad refl,
        refl,
        refl,
      ),
    )
