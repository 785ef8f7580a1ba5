-- ===== src/Api/Streams.antt =====
-- How `smart_write` and `smart_read_until` of src/smart_routine.cpp end on a worker thread.
use smart_routine.Prelude.{
  ℕ, ◌+◌, ◌≤◌, ◌<◌, ◌^◌, ◌≡◌, ◌≢◌, refl, ap, ap₂, ◌∙◌, Bool, true, false, Option, none, some, List,
  [], ◌∷◌, ◌++◌, length, take, arith, leb, ◌==◌, ==→eq, Bool-cases, inl, inr, if◌then◌else◌,
  length-append,
}
use smart_routine.ErrorCode.{ErrorCode}
use smart_routine.Callbacks.{callbacks}
use smart_routine.DynamicBuffer.{DynamicBuffer}
use smart_routine.DynamicBuffer.Holds.{Holds, IsValid}
use smart_routine.Runtime.{Coro, SmartRuntime}
use smart_routine.EPoller.{Epoll}
use smart_routine.Search.Chunks.{Occurs}
use smart_routine.ReadUntil.{ReadResult, received, failed, smart_read_until_impl, ReadUntilContext}
use smart_routine.ReadUntil
use smart_routine.ReadUntil.Delivers.{free}
use smart_routine.ReadUntil.Resumes.{IsFlowing, arrived, Ends, resumes, waits, read_until-Ends}
use smart_routine.Io.{CallResult, WriteContext, new_write, smart_write_impl, end_transfer}
use smart_routine.Io.Ints.{short_writes}
use smart_routine.Io.Writes.{written, IsSending, IsVoid, taken, write-Sent, write_nothing-waits}
use smart_routine.Suspension.{reading, writing}
use smart_routine.Suspension.Once.{results}
use smart_routine.Api.{Called, smart_write, smart_read_until}
use smart_routine.Api.Awaited.{awaited-Settled}

abbrev pub given : {A : Type 0} → Bool → A → Option A
given is_done x = if is_done then some x else none

arrived_within :
    (front : List ReadResult) (r : ReadResult) (back : List ReadResult)
    → length (arrived (front ++ r ∷ [])) ≤ length (arrived (front ++ r ∷ back))
arrived_within [] (received xs) back =
    omega (arith, length-append xs [], length-append xs (arrived back))
arrived_within [] (failed e) back = omega arith
arrived_within (received xs ∷ front) r back = omega (
  arith,
  length-append xs (arrived (front ++ r ∷ [])),
  length-append xs (arrived (front ++ r ∷ back)),
  arrived_within front r back,
)
arrived_within (failed e ∷ front) r back = arrived_within front r back

-- A count below 2 ^ 31 is not negative as an int.
code_kept :
    {delim held : List ℕ} {rs : List ReadResult} {out : ReadUntilContext × Bool} (ec : ErrorCode)
    (errno : ℕ)
    → Ends delim held 0 rs out
    → length (arrived rs) < 2 ^ 31
    → given {A = (DynamicBuffer × ℕ × ErrorCode) × ℕ} out.1
        ((out.0.buffer, out.0.ret, if leb (2 ^ 31) out.0.ret then out.0.ec else ec), errno)
      ≡ given out.1 ((out.0.buffer, out.0.ret, ec), errno)
code_kept ec errno (resumes c front back r e before after h ok n) small =
    let within = arrived_within front r back in
    let counted : length (arrived (front ++ r ∷ [])) < 2 ^ 31 =
      omega (arith, ap (λ rs. length (arrived rs)) e, within) in
    let fewer : leb (2 ^ 31) c.ret ≡ false = ground (arith, n, counted) in
    ap (λ b. some ((c.buffer, c.ret, if b then c.ec else ec), errno)) fewer
code_kept ec errno (waits c before h ok n) small = refl

module _ (E : Epoll) (coro : Coro) (fd : ℕ) (k : E.K) (runtime : SmartRuntime)
    (vacant : E.interest k fd ≡ none) (errno : ℕ) where
  -- The caller has `out` if the call is done; then its coroutine is behind the others on the shared
  -- list, which else is as it was.
  pub record Gives {A : Type 0} (is_done : Bool) (out : A) (call : Option (Called E A))
      : Type 0 where
    pub called : Called E A
    pub ran : call ≡ some called
    pub outcome : called.outcome ≡ given is_done (out, errno)
    pub tasks :
        called.runtime.task_list
        ≡ (if is_done then runtime.task_list ++ coro ∷ [] else runtime.task_list)

  end_write : (ret e : ℕ) → end_transfer ret e errno ≡ (ret, errno)
  unfolding end_transfer
  end_write ret e = ground arith

  all_taken :
      (n count : ℕ) → given {A = ℕ × ℕ} (n == count) (n, errno) ≡ given (n == count) (count, errno)
  all_taken n count = elim (Bool-cases (n == count)) [
    | inl e ↦ rw (e, ==→eq n count e) refl
    | inr e ↦ rw e refl
  ]

  -- `smart_write` of `count` bytes on a worker, for a descriptor that is not registered and while
  -- no epoll_wait is interrupted: when the events bring writes that take at least one byte and
  -- fewer than 2 ^ 31 each (Linux writes no more at once), together at most `count`, with no error,
  -- the bytes taken are the first of the caller's, in order and each once, and the caller gets
  -- `count` back, with errno as it was, exactly when all are taken; until then it is suspended.
  pub smart_write-sent :
      (buf : List ℕ) (count : ℕ) (r' : CallResult) (es : List (ℕ × CallResult))
      → IsSending (results writing es)
      → short_writes (results writing es) ≡ true
      → 0 < count
      → count < 2 ^ 64
      → written (results writing es) ≤ count
      → (taken (results writing es) (new_write buf count) ≡ take (written (results writing es)) buf)
        × Gives
            (written (results writing es) == count)
            count
            (smart_write E (some coro) fd buf count es r' errno k runtime)
  unfolding smart_write
  smart_write-sent buf count r' es flowing short p small fits =
      let (out, ran, v, bytes) =
        write-Sent buf count (results writing es) flowing short p small fits in
      let (a, called, w) =
        awaited-Settled E smart_write_impl coro fd k runtime vacant
          (λ (c : WriteContext). end_transfer c.ret c.errno errno) writing es (new_write buf count)
          out ran in
      (
        bytes,
        record {
          called = a;
          ran = called;
          outcome =
              w.outcome
              ∙ ap₂ (λ b x. if b then some x else none) v.resumed
                  (end_write out.0.ret out.0.errno ∙ ap (λ n. (n, errno)) v.counted)
              ∙ all_taken (written (results writing es)) count;
          tasks =
              w.tasks
              ∙ ap (λ b. if b then runtime.task_list ++ coro ∷ [] else runtime.task_list) v.resumed;
        },
      )

  -- A `smart_write` of no bytes on a worker, for which `write` returns 0 or would block, never
  -- returns to its caller, however often the descriptor is ready.
  pub smart_write-nothing :
      (buf : List ℕ) (r' : CallResult) (es : List (ℕ × CallResult))
      → IsVoid (results writing es)
      → Gives false 0 (smart_write E (some coro) fd buf 0 es r' errno k runtime)
  unfolding smart_write
  smart_write-nothing buf r' es nothing =
      let (a, called, w) =
        awaited-Settled E smart_write_impl coro fd k runtime vacant
          (λ (c : WriteContext). end_transfer c.ret c.errno errno) writing es (new_write buf 0)
          (new_write buf 0, false) (write_nothing-waits buf (results writing es) nothing) in
      record { called = a; ran = called; outcome = w.outcome; tasks = w.tasks }

  -- `smart_read_until` on a worker, while no epoll_wait is interrupted, for a descriptor that is
  -- not registered and a delimiter, not empty, that does not stand in what the buffer holds. When
  -- the events bring bytes, with neither an end of file nor an error, that fit the free bytes of
  -- the buffer, the caller gets its result exactly when the delimiter has come: the buffer, which
  -- holds every byte up to the event that completed it, and how many bytes these events brought,
  -- with the error code and errno as they were. Until then it is suspended, and what the calls of
  -- the readiness callback have made of the context holds every byte in its buffer.
  pub smart_read_until-Ends :
      (threshold : ℕ) (buffer : DynamicBuffer) (delim held : List ℕ) (es : List (ℕ × ReadResult))
      (ec : ErrorCode)
      → Holds buffer held
      → IsValid buffer
      → delim ≢ []
      → ¬ Occurs delim held
      → IsFlowing (results reading es)
      → length (arrived (results reading es)) ≤ free buffer
      → length held + length (arrived (results reading es)) < 2 ^ 31
      → (out : ReadUntilContext × Bool) × (callbacks
            (smart_read_until_impl threshold)
            (results reading es)
            (ReadUntil.new buffer delim)
          ≡ some out)
        × Ends delim held 0 (results reading es) out
        × Gives out.1
            (out.0.buffer, out.0.ret, ec)
            (smart_read_until E threshold (some coro) fd buffer delim es ec errno k runtime)
  unfolding smart_read_until
  smart_read_until-Ends threshold buffer delim held es ec h w some_delim missing flowing le small =
      let (out, ran, ends) =
        read_until-Ends threshold buffer delim held (results reading es) h w some_delim missing
          flowing le (omega arith) in
      let below : length (arrived (results reading es)) < 2 ^ 31 = omega arith in
      let (a, called, v) =
        awaited-Settled E (smart_read_until_impl threshold) coro fd k runtime vacant
          (λ (c : ReadUntilContext).
            ((c.buffer, c.ret, if leb (2 ^ 31) c.ret then c.ec else ec), errno))
          reading es (ReadUntil.new buffer delim) out ran in
      (
        out,
        ran,
        ends,
        record {
          called = a;
          ran = called;
          outcome = v.outcome ∙ code_kept ec errno ends below;
          tasks = v.tasks;
        },
      )
