-- ===== src/Socket/Streams.antt =====
-- What `read` and `write` of src/tcp_socket.cpp give on a worker thread.
use smart_routine.Prelude.{
  ℕ, ◌+◌, ◌-◌, ◌≤◌, ◌<◌, ◌^◌, ◌≡◌, refl, ap, subst, ◌∙◌, Bool, true, false, Option, none, some,
  List, ◌++◌, length, take, drop, map, arith, ltb, ◌==◌, if◌then◌else◌, u32,
}
use smart_routine.Buffer.{MutableBuffer, ConstBuffer}
use smart_routine.DynamicBuffer.{Byte}
use smart_routine.ErrorCode.{ErrorCode}
use smart_routine.Runtime.{Coro, SmartRuntime}
use smart_routine.EPoller.{Epoll}
use smart_routine.ReadUntil.{ReadResult}
use smart_routine.ReadUntil.Resumes.{IsFlowing, arrived}
use smart_routine.Io.{CallResult, new_write}
use smart_routine.Io.Ints.{short_reads, short_writes}
use smart_routine.Io.Writes.{written, IsSending, taken}
use smart_routine.Suspension.{reading, writing}
use smart_routine.Suspension.Once.{results}
use smart_routine.Api.{Called, smart_read, smart_write}
use smart_routine.Api.Ends.{smart_read-arrived}
use smart_routine.Api.Streams.{Gives, given, smart_write-sent}
use smart_routine.Socket.{TcpSocket}
use smart_routine.Socket.Transfers.{through_int, bytes_at, with_value, with_result, read, write}

-- A socket that is connected, with its descriptor.
abbrev pub connected_socket : ℕ → Bool → TcpSocket
connected_socket fd bound = record {
  socket = some fd;
  opened = true;
  bound = bound;
  connected = true;
}

-- A `size_t` below 2 ^ 32, returned through an `int`: from 2 ^ 31 on it is negative.
abbrev pub as_ssize : ℕ → ℕ
as_ssize n = if ltb n (2 ^ 31) then n else n + (2 ^ 64 - 2 ^ 32)

through_int-as_ssize : (n : ℕ) → n < 2 ^ 32 → through_int n ≡ as_ssize n
unfolding through_int
through_int-as_ssize n small =
    let same : u32 n ≡ n = omega arith in
    ap (λ m. if ltb m (2 ^ 31) then m else m + (2 ^ 64 - 2 ^ 32)) same

module _ (E : Epoll) (coro : Coro) (fd : ℕ) (k : E.K) (runtime : SmartRuntime)
    (vacant : E.interest k fd ≡ none) (errno : ℕ) where
  abbrev Same : {A : Type 0} → Bool → A → Option (Called E A) → Type 0
  Same = Gives E coro fd k runtime vacant errno

  with_value-given :
      {A B : Type 0} (f : A → B) (is_done : Bool) (out : A)
      → with_value f (given is_done (out, errno)) ≡ given is_done (f out, errno)
  with_value-given f true out = refl
  with_value-given f false out = refl

  Gives-with_result :
      {A B : Type 0} (f : A → B) (is_done : Bool) (out : A) (call : Option (Called E A))
      → Same is_done out call
      → Same is_done (f out) (with_result E f call)
  unfolding with_result
  Gives-with_result f is_done out call v = record {
    called = record {
      outcome = with_value f v.called.outcome;
      k = v.called.k;
      runtime = v.called.runtime;
    };
    ran = ap (with_result E f) v.ran;
    outcome = ap (with_value f) v.outcome ∙ with_value-given f is_done out;
    tasks = v.tasks;
  }

  -- `write` of a connected socket on a worker, for a descriptor that is not registered and while no
  -- epoll_wait is interrupted: when the events bring writes that take at least one byte and fewer
  -- than 2 ^ 31 each (Linux writes no more at once), together at most the size of the buffer, with
  -- no error, the bytes taken are the first of the buffer, in order and each once, and the caller
  -- gets its result exactly when all are taken. The result is the size of the buffer if that is
  -- below 2 ^ 31, but a negative number if it is from there to 2 ^ 32; the error code and errno
  -- stay.
  pub write-sent :
      (bound : Bool) (buffer : ConstBuffer ℕ) (ec : ErrorCode) (r' : CallResult)
      (es : List (ℕ × CallResult))
      → IsSending (results writing es)
      → short_writes (results writing es) ≡ true
      → 0 < buffer.size
      → buffer.size < 2 ^ 32
      → written (results writing es) ≤ buffer.size
      → (let buf = bytes_at buffer.data_of in
          taken (results writing es) (new_write buf buffer.size)
          ≡ take (written (results writing es)) buf)
        × (let out =
              write E (connected_socket fd bound) buffer ec (some coro) es r' errno k runtime in
            Same (written (results writing es) == buffer.size) (as_ssize buffer.size) out.0
            × (out.1 ≡ ec))
  unfolding write
  write-sent bound buffer ec r' es flowing short p small fits =
      let buf = bytes_at buffer.data_of in
      let (bytes, out) =
        smart_write-sent E coro fd k runtime vacant errno buf buffer.size r' es flowing short p
          (omega arith) fits in
      let call = smart_write E (some coro) fd buf buffer.size es r' errno k runtime in
      let is_done = written (results writing es) == buffer.size in
      (
        bytes,
        (
          subst (λ n. Same is_done n (with_result E through_int call))
              (through_int-as_ssize buffer.size small)
              (Gives-with_result through_int is_done buffer.size call out),
          refl,
        ),
      )

  -- `read` of a connected socket on a worker, for a descriptor that is not registered and while no
  -- epoll_wait is interrupted, into a buffer that has the memory it says: when the events bring
  -- bytes, fewer than 2 ^ 31 each, with neither an end of file nor an error, and no more than its
  -- size, the caller gets its result exactly when all have arrived. The memory then holds them in
  -- order, the result is that of `write`, and the error code stays.
  pub read-arrived :
      (bound : Bool) (buffer : MutableBuffer Byte) (ec : ErrorCode) (r' : ReadResult)
      (es : List (ℕ × ReadResult))
      → IsFlowing (results reading es)
      → short_reads (results reading es) ≡ true
      → 0 < buffer.size
      → buffer.size < 2 ^ 32
      → buffer.size ≤ length (bytes_at buffer.data_of)
      → length (arrived (results reading es)) ≤ buffer.size
      → (let xs = arrived (results reading es) in
          let buf = bytes_at buffer.data_of in
          let out =
            read E (connected_socket fd bound) buffer ec (some coro) es r' errno k runtime in
          Same {A = List Byte × ℕ}
            (length xs == buffer.size)
            (map some xs ++ drop (length xs) buf, as_ssize (length xs))
            out.0
          × (out.1 ≡ ec))
  unfolding read
  read-arrived bound buffer ec r' es flowing short p small room fits =
      let xs = arrived (results reading es) in
      let buf = bytes_at buffer.data_of in
      let call = smart_read E (some coro) fd buf buffer.size es r' errno k runtime in
      let is_done = length xs == buffer.size in
      let memory = map some xs ++ drop (length xs) buf in
      let (a, ran, outcome, tasks) =
        smart_read-arrived E coro fd k runtime vacant errno buf buffer.size p room (omega arith) r'
          es flowing short fits in
      let whole : Same {A = List Byte × ℕ} is_done (memory, length xs) call = record {
        called = a;
        ran = ran;
        outcome = outcome;
        tasks = tasks;
      } in
      (
        subst
            (λ n.
              Same {A = List Byte × ℕ} is_done (memory, n)
                (with_result E (λ (out : List Byte × ℕ). (out.0, through_int out.1)) call))
            (through_int-as_ssize (length xs) (omega arith))
            (Gives-with_result (λ (out : List Byte × ℕ). (out.0, through_int out.1)) is_done
              (memory, length xs) call whole),
        refl,
      )
