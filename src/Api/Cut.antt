-- ===== src/Api/Cut.antt =====
-- A `smart_read_until` of src/smart_routine.cpp whose stream ends before the delimiter has come.
use smart_routine.Prelude.{
  ℕ, ◌+◌, ◌≤◌, ◌<◌, ◌^◌, ◌≡◌, ◌≢◌, refl, sym, ap, subst, ◌∙◌, Bool, true, false, none, some, List,
  [], ◌∷◌, ◌++◌, length, arith, leb, ◌==◌, if◌then◌else◌, u32, append_assoc,
}
use smart_routine.ErrorCode.{ErrorCode, success}
use smart_routine.Callbacks.{callbacks, callbacks-append}
use smart_routine.DynamicBuffer.{DynamicBuffer}
use smart_routine.DynamicBuffer.Holds.{Holds, IsValid}
use smart_routine.Runtime.{Coro, SmartRuntime}
use smart_routine.EPoller.{Epoll}
use smart_routine.Search.Chunks.{Occurs, Occurs-append}
use smart_routine.ReadUntil.{
  ReadResult, received, failed, ewouldblock, minus_one, smart_read_until_impl, ReadUntilContext,
  new,
}
use smart_routine.ReadUntil.Delivers.{free}
use smart_routine.ReadUntil.Resumes.{IsFlowing, arrived, Ends, resumes, waits, read_until-Ends}
use smart_routine.Suspension.{reading}
use smart_routine.Suspension.Once.{results}
use smart_routine.Api.{smart_read_until}
use smart_routine.Api.Awaited.{awaited-Settled}
use smart_routine.Api.Streams.{Gives}

arrived-append : (rs more : List ReadResult) → arrived (rs ++ more) ≡ arrived rs ++ arrived more
arrived-append [] more = refl
arrived-append (received xs ∷ rs) more =
    ap (λ l. xs ++ l) (arrived-append rs more) ∙ sym (append_assoc xs (arrived rs) (arrived more))
arrived-append (failed e ∷ rs) more = arrived-append rs more

-- The call is still suspended, with every byte in its buffer.
record Suspended (held : List ℕ) (rs : List ReadResult) (out : ReadUntilContext × Bool)
    : Type 0 where
  waiting : out.1 ≡ false
  holds : Holds out.0.buffer (held ++ arrived rs)
  no_error : out.0.ec ≡ success
  counted : out.0.ret ≡ u32 (0 + length (arrived rs))

Ends-Suspended :
    {delim held : List ℕ} {rs : List ReadResult} {out : ReadUntilContext × Bool}
    → Ends delim held 0 rs out
    → ¬ Occurs delim (held ++ arrived rs)
    → Suspended held rs out
Ends-Suspended {delim} {held} {rs} (resumes c front back r e before after h ok n) missing =
    let whole : (held ++ arrived (front ++ r ∷ [])) ++ arrived back ≡ held ++ arrived rs =
      append_assoc held (arrived (front ++ r ∷ [])) (arrived back)
      ∙ ap (λ l. held ++ l)
          (sym (arrived-append (front ++ r ∷ []) back)
            ∙ ap arrived (append_assoc front (r ∷ []) back ∙ sym e)) in
    absurd (
      missing (
        subst (Occurs delim) whole
          (Occurs-append delim (held ++ arrived (front ++ r ∷ [])) (arrived back) after)))
Ends-Suspended (waits c before h ok n) missing = record {
  waiting = refl;
  holds = h;
  no_error = ok;
  counted = n;
}

module _ (E : Epoll) (coro : Coro) (fd : ℕ) (k : E.K) (runtime : SmartRuntime)
    (vacant : E.interest k fd ≡ none) (errno : ℕ) where
  -- The result of a call whose callback resumes it with the context `c`.
  ends_with :
      (threshold : ℕ) (buffer : DynamicBuffer) (delim : List ℕ) (es : List (ℕ × ReadResult))
      (rs : List ReadResult) (ec ec' : ErrorCode) (c : ReadUntilContext) (n : ℕ)
      → results reading es ≡ rs
      → callbacks (smart_read_until_impl threshold) rs (new buffer delim) ≡ some (c, true)
      → c.ret ≡ n
      → (if leb (2 ^ 31) n then c.ec else ec) ≡ ec'
      → Gives E coro fd k runtime vacant errno {A = DynamicBuffer × ℕ × ErrorCode} true
          (c.buffer, n, ec')
          (smart_read_until E threshold (some coro) fd buffer delim es ec errno k runtime)
  unfolding smart_read_until
  ends_with threshold buffer delim es rs ec ec' c n same ran ret code =
      let end : ReadUntilContext → (DynamicBuffer × ℕ × ErrorCode) × ℕ =
        λ c. ((c.buffer, c.ret, if leb (2 ^ 31) c.ret then c.ec else ec), errno) in
      let (a, called, v) =
        awaited-Settled E (smart_read_until_impl threshold) coro fd k runtime vacant end reading es
          (new buffer delim) (c, true)
          (ap (λ rs. callbacks (smart_read_until_impl threshold) rs (new buffer delim)) same
            ∙ ran) in
      let result : end c ≡ ((c.buffer, n, ec'), errno) =
        ap (λ m. ((c.buffer, m, if leb (2 ^ 31) m then c.ec else ec), errno)) ret
        ∙ ap (λ x. ((c.buffer, n, x), errno)) code in
      record { called = a; ran = called; outcome = v.outcome ∙ ap some result; tasks = v.tasks }

  -- How a `smart_read_until` on a worker ends, while no epoll_wait is interrupted, for a descriptor
  -- that is not registered and a buffer with room for the bytes that arrive, when the delimiter,
  -- not empty, stands neither in what the buffer held nor in these bytes: at the end of file it
  -- returns how many bytes have arrived, with the error code as it was, as if the delimiter had
  -- come; at an error other than EWOULDBLOCK it returns -1 (as an int), but with the error code
  -- Success. In both cases every byte is in the buffer, and errno is as it was.
  pub smart_read_until_ends :
      (threshold : ℕ) (buffer : DynamicBuffer) (delim held : List ℕ)
      (es es' : List (ℕ × ReadResult)) (rs : List ReadResult) (e : ℕ) (ec : ErrorCode)
      → Holds buffer held
      → IsValid buffer
      → delim ≢ []
      → ¬ Occurs delim (held ++ arrived rs)
      → results reading es ≡ rs ++ received [] ∷ []
      → results reading es' ≡ rs ++ failed e ∷ []
      → IsFlowing rs
      → e ≢ ewouldblock
      → length (arrived rs) ≤ free buffer
      → length held + length (arrived rs) < 2 ^ 31
      → (buffer' : DynamicBuffer) × Holds buffer' (held ++ arrived rs)
        × Gives E coro fd k runtime vacant errno true
            (buffer', length (arrived rs), ec)
            (smart_read_until E threshold (some coro) fd buffer delim es ec errno k runtime)
        × Gives E coro fd k runtime vacant errno true
            (buffer', minus_one, success)
            (smart_read_until E threshold (some coro) fd buffer delim es' ec errno k runtime)
  unfolding callbacks smart_read_until_impl
  smart_read_until_ends threshold buffer delim held es es' rs e ec h w some_delim missing at_end
        at_error flowing ne le small =
      let (out, ran, ends) =
        read_until-Ends threshold buffer delim held rs h w some_delim
          (λ old. missing (Occurs-append delim held (arrived rs) old)) flowing le (omega arith) in
      let s = Ends-Suspended ends missing in
      let c = out.0 in
      let run = λ (more : List ReadResult).
        callbacks-append (smart_read_until_impl threshold) rs more (new buffer delim) c
          (ran ∙ ap (λ b. some (c, b)) s.waiting) in
      let counted : c.ret ≡ length (arrived rs) = omega (arith, s.counted, small) in
      let positive : leb (2 ^ 31) (length (arrived rs)) ≡ false = ground (arith, small) in
      let bad : (e == ewouldblock) ≡ false = ground arith in
      (
        c.buffer,
        s.holds,
        ends_with threshold buffer delim es (rs ++ received [] ∷ []) ec ec c (length (arrived rs))
            at_end (run (received [] ∷ [])) counted (ap (λ b. if b then c.ec else ec) positive),
        ends_with threshold buffer delim es' (rs ++ failed e ∷ []) ec success
            (record c { ret = minus_one }) minus_one at_error (run (failed e ∷ []) ∙ rw bad refl)
            refl s.no_error,
      )
