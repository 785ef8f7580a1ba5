-- ===== src/Api/Ends.antt =====
-- How the calls of src/smart_routine.cpp end on a worker thread.
use smart_routine.Prelude.{
  ℕ, ◌≤◌, ◌<◌, ◌^◌, ◌≡◌, ◌≢◌, refl, ap, ap₂, ◌∙◌, true, Option, none, some, List, [], ◌∷◌, ◌++◌,
  length, map, drop, arith, ◌==◌, ==→eq, Bool-cases, inl, inr, if◌then◌else◌,
}
use smart_routine.Callbacks.{callbacks}
use smart_routine.DynamicBuffer.{Byte}
use smart_routine.Runtime.{Coro, SmartRuntime}
use smart_routine.EPoller.{Epoll}
use smart_routine.ReadUntil.{ReadResult, received, failed, ewouldblock}
use smart_routine.ReadUntil.Resumes.{IsFlowing, arrived}
use smart_routine.Io.{
  CallResult, returned, refused, ReadContext, new_read, smart_read_impl, smart_connect_impl,
  new_accept, smart_accept_impl, end_transfer, end_accept, minus_one, einprogress,
}
use smart_routine.Io.Ints.{short_reads}
use smart_routine.Io.Transfers.{read-Filled, read_ends}
use smart_routine.Io.Accepts.{attempts, outcome, accept_ends}
use smart_routine.Suspension.{reading, writing}
use smart_routine.Suspension.Once.{results}
use smart_routine.Api.{
  Called, at_once, system_call, smart_read, smart_accept, smart_connect, end_connect,
}
use smart_routine.Api.Awaited.{awaited-Settled}

-- The error of a socket that `getsockopt` tells, or its own.
abbrev pub error_of : CallResult → ℕ
error_of (returned error) = error
error_of (refused e) = e

module _ (E : Epoll) (coro : Coro) (fd : ℕ) (k : E.K) (runtime : SmartRuntime)
    (vacant : E.interest k fd ≡ none) (errno : ℕ) where
  -- The call has returned `out` with `errno'`: the coroutine is behind the others on the shared
  -- list, and the descriptor is not registered.
  pub record Returned {A : Type 0} (out : A) (errno' : ℕ) (call : Option (Called E A))
      : Type 0 where
    pub called : Called E A
    pub ran : call ≡ some called
    pub gives : called.outcome ≡ some (out, errno')
    pub tasks : called.runtime.task_list ≡ runtime.task_list ++ coro ∷ []
    pub interest : E.interest called.k fd ≡ none

  system_call_lem : (r : CallResult) → outcome r errno ≡ system_call r errno
  unfolding system_call
  system_call_lem (returned value) = refl
  system_call_lem (refused e) = refl

  -- `smart_accept` on a worker, for a descriptor that is not registered and while no epoll_wait is
  -- interrupted, with any number of attempts that would block, gives its caller what `accept` gives
  -- outside a worker with the first result that is not one.
  pub smart_accept-same :
      (es : List (ℕ × CallResult)) (n : ℕ) (r r' : CallResult) (more : List CallResult)
      → results reading es ≡ attempts n r more
      → r ≢ refused ewouldblock
      → (a b : Called E (Option ℕ)) × (smart_accept E (some coro) fd es r' errno k runtime ≡ some a)
        × (smart_accept E none fd [] r errno k runtime ≡ some b)
        × (a.outcome ≡ b.outcome)
        × (a.runtime.task_list ≡ runtime.task_list ++ coro ∷ [])
  unfolding smart_accept at_once
  smart_accept-same es n r r' more e ne =
      let (c, ran, end) = accept_ends n r more errno ne in
      let (a, called, v) =
        awaited-Settled E smart_accept_impl coro fd k runtime vacant (λ c. end_accept c errno)
          reading es new_accept (c, true)
          (ap (λ rs. callbacks smart_accept_impl rs new_accept) e ∙ ran) in
      (
        a,
        at_once E (system_call r errno) k runtime,
        called,
        refl,
        v.outcome ∙ ap some (end ∙ system_call_lem r),
        v.tasks,
      )

  connect_lem :
      (r : CallResult) (more : List CallResult)
      → callbacks smart_connect_impl (r ∷ more) (record { errno = 0 })
        ≡ some (record { errno = error_of r }, true)
  unfolding callbacks smart_connect_impl
  connect_lem (returned error) more = elim (Bool-cases (error == 0)) [
    | inl e ↦ rw (e, ==→eq error 0 e) refl
    | inr e ↦ rw e refl
  ]
  connect_lem (refused e) more = refl

  -- A `connect` that is in progress, on a worker and for a descriptor that is not registered, ends
  -- at the first event for writing: with 0 if getsockopt tells no error, which leaves EINPROGRESS in
  -- errno, and else with -1 and the error in errno.
  pub smart_connect_ends :
      (es : List (ℕ × CallResult)) (r : CallResult) (more : List CallResult)
      → results writing es ≡ r ∷ more
      → Returned
          (if error_of r == 0 then some 0 else none)
          (if error_of r == 0 then einprogress else error_of r)
          (smart_connect E (some coro) fd es (refused einprogress) errno k runtime)
  unfolding smart_connect end_connect
  smart_connect_ends es r more e =
      let (a, called, v) =
        awaited-Settled E smart_connect_impl coro fd k runtime vacant
          (λ c. end_connect c einprogress) writing es (record { errno = 0 })
          (record { errno = error_of r }, true)
          (ap (λ rs. callbacks smart_connect_impl rs (record { errno = 0 })) e
            ∙ connect_lem r more) in
      record {
        called = a;
        ran = called;
        gives =
            v.outcome
            ∙ ap some
                (elim (Bool-cases (error_of r == 0)) [ inl z ↦ rw z refl | inr z ↦ rw z refl ]);
        tasks = v.tasks;
        interest = v.interest;
      }

  module _ (buf : List Byte) (count : ℕ) (p : 0 < count) (room : count ≤ length buf)
      (small : count < 2 ^ 64) (r' : ReadResult) where
    abbrev call : List (ℕ × ReadResult) → Option (Called E (List Byte × ℕ))
    call es = smart_read E (some coro) fd buf count es r' errno k runtime

    abbrev end : ReadContext → (List Byte × ℕ) × ℕ
    end context = (
      (context.buf, (end_transfer context.ret context.errno errno).0),
      (end_transfer context.ret context.errno errno).1,
    )

    never_negative : (ret e : ℕ) → end_transfer ret e errno ≡ (ret, errno)
    unfolding end_transfer
    never_negative ret e = ground arith

    -- `smart_read` of `count` bytes on a worker, for a descriptor that is not registered and while
    -- no epoll_wait is interrupted: when the events bring bytes, fewer than 2 ^ 31 each (Linux
    -- reads no more at once), with neither an end of file nor an error, and no more than `count`,
    -- the caller gets its result exactly when all have arrived. They are then at the start of its
    -- memory, in order, with the rest of it as before, `count` is returned, errno is as it was, and
    -- the coroutine is once on the shared list, behind the others; until then the list is as it
    -- was.
    pub smart_read-arrived :
        (es : List (ℕ × ReadResult))
        → IsFlowing (results reading es)
        → short_reads (results reading es) ≡ true
        → length (arrived (results reading es)) ≤ count
        → (let xs = arrived (results reading es) in
            (a : Called E (List Byte × ℕ)) × (call es ≡ some a)
            × (a.outcome ≡ (
                if length xs == count
                then some ((map some xs ++ drop (length xs) buf, length xs), errno)
                else none))
            × (a.runtime.task_list ≡ (
                if length xs == count then runtime.task_list ++ coro ∷ [] else runtime.task_list)))
    unfolding smart_read
    smart_read-arrived es flowing short fits =
        let (out, ran, w) =
          read-Filled buf count (results reading es) flowing short p room small fits in
        let (a, called, v) =
          awaited-Settled E smart_read_impl coro fd k runtime vacant end reading es
            (new_read buf count) out ran in
        let given : end out.0 ≡ (
          (
            map some (arrived (results reading es))
                ++ drop (length (arrived (results reading es))) buf,
            length (arrived (results reading es)),
          ),
          errno,
        ) =
          ap (λ t. ((out.0.buf, t.0), t.1)) (never_negative out.0.ret out.0.errno)
          ∙ ap₂ (λ b n. ((b, n), errno)) w.contents w.counted in
        (
          a,
          called,
          v.outcome ∙ ap₂ (λ b x. if b then some x else none) w.resumed given,
          v.tasks
              ∙ ap (λ b. if b then runtime.task_list ++ coro ∷ [] else runtime.task_list) w.resumed,
        )

    -- A call whose callback resumes it, with `n` in the context.
    ends_with :
        (es : List (ℕ × ReadResult)) (rs : List ReadResult) (c : ReadContext) (n : ℕ)
        → results reading es ≡ rs
        → callbacks smart_read_impl rs (new_read buf count) ≡ some (c, true)
        → c.ret ≡ n
        → (buf' : List Byte) × Returned (buf', n) errno (call es)
    unfolding smart_read
    ends_with es rs c n same ran ret =
        let (a, called, v) =
          awaited-Settled E smart_read_impl coro fd k runtime vacant end reading es
            (new_read buf count) (c, true)
            (ap (λ rs. callbacks smart_read_impl rs (new_read buf count)) same ∙ ran) in
        (
          c.buf,
          record {
            called = a;
            ran = called;
            gives =
                v.outcome
                ∙ ap (λ t. some ((c.buf, t.0), t.1)) (never_negative c.ret c.errno)
                ∙ ap (λ n. some ((c.buf, n), errno)) ret;
            tasks = v.tasks;
            interest = v.interest;
          },
        )

    -- How a `smart_read` on a worker ends, for a descriptor that is not registered and while no
    -- epoll_wait is interrupted, before all its bytes have arrived, when each read before brings
    -- fewer than 2 ^ 31: at the end of file it returns how many have; at an error other than
    -- EWOULDBLOCK it returns -1, but does not set errno.
    pub smart_read_ends :
        (es es' : List (ℕ × ReadResult)) (rs : List ReadResult) (e : ℕ)
        → results reading es ≡ rs ++ received [] ∷ []
        → results reading es' ≡ rs ++ failed e ∷ []
        → IsFlowing rs
        → short_reads rs ≡ true
        → length (arrived rs) < count
        → e ≢ ewouldblock
        → ((buf' : List Byte) × Returned (buf', length (arrived rs)) errno (call es))
          × ((buf' : List Byte) × Returned (buf', minus_one) errno (call es'))
    smart_read_ends es es' rs e at_end at_error flowing short lt ne =
        let ((c, ran, ret), (c', ran', ret', _)) =
          read_ends buf count rs e flowing short p room small lt ne in
        (
          ends_with es (rs ++ received [] ∷ []) c (length (arrived rs)) at_end ran ret,
          ends_with es' (rs ++ failed e ∷ []) c' minus_one at_error ran' ret',
        )
