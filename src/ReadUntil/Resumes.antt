-- ===== src/ReadUntil/Resumes.antt =====
-- A whole `smart_read_until` of src/internal/smart_routine_impl.cpp: when its coroutine resumes.
use smart_routine.Prelude.{
  ℕ, ◌+◌, ◌≤◌, ◌<◌, ◌^◌, ◌≡◌, ◌≢◌, refl, sym, ap, subst, ◌∙◌, inl, inr, Bool, true, false, some,
  List, [], ◌∷◌, ◌++◌, arith, length, length-append, append_assoc, append-nil, u32,
}
use smart_routine.ErrorCode.{success}
use smart_routine.DynamicBuffer.{DynamicBuffer}
use smart_routine.DynamicBuffer.Holds.{Holds, IsValid}
use smart_routine.Search.Chunks.{Occurs}
use smart_routine.Callbacks.{callbacks}
use smart_routine.ReadUntil.{
  ReadResult, received, failed, ewouldblock, ReadUntilContext, new, smart_read_until_impl,
}
use smart_routine.ReadUntil.Delivers.{Ready, free, take_in-Taken}

-- The bytes that a sequence of reads brings.
abbrev pub arrived : List ReadResult → List ℕ
arrived [] = []
arrived (received xs ∷ rs) = xs ++ arrived rs
arrived (failed errno ∷ rs) = arrived rs

-- No end of file and no error, but for reads that would block.
pub data IsFlowing : List ReadResult → Type 0 where
  silent : IsFlowing []
  some_bytes :
      (x : ℕ) (xs : List ℕ) {rs : List ReadResult}
      → IsFlowing rs
      → IsFlowing (received (x ∷ xs) ∷ rs)
  spurious : {rs : List ReadResult} → IsFlowing rs → IsFlowing (failed ewouldblock ∷ rs)

-- How the callbacks of `rs` end, from a buffer that holds `bytes` and a count of `ret` bytes.
pub data Ends (delim bytes : List ℕ) (ret : ℕ) (rs : List ReadResult)
    : ReadUntilContext × Bool → Type 0 where
  resumes :
      (c : ReadUntilContext) (front back : List ReadResult) (r : ReadResult)
      → rs ≡ front ++ r ∷ back
      → ¬ Occurs delim (bytes ++ arrived front)
      → Occurs delim (bytes ++ arrived (front ++ r ∷ []))
      → Holds c.buffer (bytes ++ arrived (front ++ r ∷ []))
      → c.ec ≡ success
      → c.ret ≡ u32 (ret + length (arrived (front ++ r ∷ [])))
      → Ends delim bytes ret rs (c, true)
  waits :
      (c : ReadUntilContext)
      → ¬ Occurs delim (bytes ++ arrived rs)
      → Holds c.buffer (bytes ++ arrived rs)
      → c.ec ≡ success
      → c.ret ≡ u32 (ret + length (arrived rs))
      → Ends delim bytes ret rs (c, false)

Ends-spurious :
    {delim bytes : List ℕ} {ret : ℕ} {rs : List ReadResult} {out : ReadUntilContext × Bool}
    → Ends delim bytes ret rs out
    → Ends delim bytes ret (failed ewouldblock ∷ rs) out
Ends-spurious (resumes c front back r e before after h ok n) =
    resumes c (failed ewouldblock ∷ front) back r (ap (◌∷◌ (failed ewouldblock)) e) before after h
      ok n
Ends-spurious (waits c before h ok n) = waits c before h ok n

moved : (bytes ys zs : List ℕ) → (bytes ++ ys) ++ zs ≡ bytes ++ (ys ++ zs)
moved bytes ys zs = append_assoc bytes ys zs

total :
    (ret : ℕ) {ret' : ℕ} (ys : List ℕ)
    → ret' ≡ u32 (ret + length ys)
    → (zs : List ℕ) → u32 (ret' + length zs) ≡ u32 (ret + length (ys ++ zs))
total ret ys counted zs = omega (arith, counted, length-append ys zs)

module _ {delim bytes : List ℕ} {ret ret' : ℕ} {rs : List ReadResult} (ys : List ℕ)
    (counted : ret' ≡ u32 (ret + length ys)) where
  Ends-received :
      {out : ReadUntilContext × Bool}
      → Ends delim (bytes ++ ys) ret' rs out
      → Ends delim bytes ret (received ys ∷ rs) out
  Ends-received (resumes c front back r e before after h ok n) =
      resumes c (received ys ∷ front) back r (ap (◌∷◌ (received ys)) e)
        (subst (λ l. ¬ Occurs delim l) (moved bytes ys (arrived front)) before)
        (subst (Occurs delim) (moved bytes ys (arrived (front ++ r ∷ []))) after)
        (subst (Holds c.buffer) (moved bytes ys (arrived (front ++ r ∷ []))) h) ok
        (n ∙ total ret ys counted (arrived (front ++ r ∷ [])))
  Ends-received (waits c before h ok n) =
      waits c (subst (λ l. ¬ Occurs delim l) (moved bytes ys (arrived rs)) before)
        (subst (Holds c.buffer) (moved bytes ys (arrived rs)) h) ok
        (n ∙ total ret ys counted (arrived rs))

abbrev Ended : ℕ → List ReadResult → ReadUntilContext → List ℕ → Type 0
Ended threshold rs c bytes =
    (out : ReadUntilContext × Bool) × (callbacks (smart_read_until_impl threshold) rs c ≡ some out)
    × Ends c.delim bytes c.ret rs out

abbrev Runs : ℕ → List ReadResult → Type 0
Runs threshold rs =
    (c : ReadUntilContext) (bytes : List ℕ)
    → Ready bytes c
    → ¬ Occurs c.delim bytes
    → length (arrived rs) ≤ free c.buffer
    → length bytes + length (arrived rs) < 2 ^ 32
    → c.ret < 2 ^ 32
    → Ended threshold rs c bytes

Runs-received :
    (threshold : ℕ) (x : ℕ) (xs : List ℕ) (rs : List ReadResult)
    → Runs threshold rs
    → Runs threshold (received (x ∷ xs) ∷ rs)
unfolding callbacks smart_read_until_impl
Runs-received threshold x xs rs rest c bytes v missing le small ret_small =
    let ys = x ∷ xs in
    let size = length-append ys (arrived rs) in
    let (out, done, t) = take_in-Taken threshold v ys (omega arith) (omega arith) in
    elim t.answer [
      | inl (resumed, here) ↦ (
        (out.0, true),
        rw (done, resumed) refl,
        resumes out.0 [] rs (received ys) refl
            (subst (λ l. ¬ Occurs c.delim l) (sym (append-nil bytes)) missing)
            (subst (λ l. Occurs c.delim (bytes ++ l)) (sym (append-nil ys)) here)
            (subst (λ l. Holds out.0.buffer (bytes ++ l)) (sym (append-nil ys)) t.holds) t.no_error
            (t.counted ∙ ap (λ l. u32 (c.ret + length l)) (sym (append-nil ys))),
      )
      | inr (resumed, still, searching) ↦
          let ready : Ready (bytes ++ ys) out.0 = record {
            holds = t.holds;
            valid = t.valid;
            some_delim = rw t.delim_kept v.some_delim;
            searching = rw t.delim_kept searching;
            no_error = t.no_error;
          } in
          let (end, ran, ends) =
            rest out.0 (bytes ++ ys) ready (rw t.delim_kept still) (omega (arith, t.used))
              (omega (arith, length-append bytes ys)) (omega (arith, t.counted)) in
          (
            end,
            rw (done, resumed) ran,
            Ends-received ys t.counted
                (subst (λ d. Ends d (bytes ++ ys) out.0.ret rs end) t.delim_kept ends),
          )
    ]

Runs-spurious :
    (threshold : ℕ) (rs : List ReadResult)
    → Runs threshold rs
    → Runs threshold (failed ewouldblock ∷ rs)
unfolding callbacks smart_read_until_impl
Runs-spurious threshold rs rest c bytes v missing le small ret_small =
    let (out, ran, ends) = rest c bytes v missing le small ret_small in
    (out, ran, Ends-spurious ends)

IsFlowing-Runs : (threshold : ℕ) {rs : List ReadResult} → IsFlowing rs → Runs threshold rs
unfolding callbacks
IsFlowing-Runs threshold silent = λ c held v missing le small ret_small. (
  (c, false),
  refl,
  waits c (subst (λ l. ¬ Occurs c.delim l) (sym (append-nil held)) missing)
      (subst (Holds c.buffer) (sym (append-nil held)) v.holds) v.no_error (omega arith),
)
IsFlowing-Runs threshold (some_bytes x xs {rs} flowing) =
    Runs-received threshold x xs rs (IsFlowing-Runs threshold flowing)
IsFlowing-Runs threshold (spurious {rs} flowing) =
    Runs-spurious threshold rs (IsFlowing-Runs threshold flowing)

-- Searching only what was not searched before finds what a search of everything finds. Let the
-- buffer hold `held`, in which the delimiter, not empty, does not stand, and let the bytes that
-- arrive, with neither an end of file nor an error between them, fit its free bytes. Then the
-- callbacks resume the coroutine with the first event after which the delimiter stands in the
-- buffer, and not if it stands there after none. Until then every byte is in the buffer, in order,
-- the error code stays Success, and the result counts the bytes that arrived.
pub read_until-Ends :
    (threshold : ℕ) (buffer : DynamicBuffer) (delim held : List ℕ) (rs : List ReadResult)
    → Holds buffer held
    → IsValid buffer
    → delim ≢ []
    → ¬ Occurs delim held
    → IsFlowing rs
    → length (arrived rs) ≤ free buffer
    → length held + length (arrived rs) < 2 ^ 32
    → (out : ReadUntilContext × Bool) × (callbacks
          (smart_read_until_impl threshold)
          rs
          (new buffer delim)
        ≡ some out)
      × Ends delim held 0 rs out
unfolding new
read_until-Ends threshold buffer delim held rs h w some_delim missing flowing le small =
    IsFlowing-Runs threshold flowing (new buffer delim) held
      (record {
        holds = h;
        valid = w;
        some_delim = some_delim;
        searching = record { within = omega arith; clear = λ more k lt. absurd (omega arith) };
        no_error = refl;
      })
      missing le small (omega arith)
