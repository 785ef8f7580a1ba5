-- ===== src/Api.antt =====
-- The calls of src/smart_routine.cpp, on a worker thread and outside one. On a worker the coroutine
-- suspends itself for the descriptor; outside one the call is the system's. What the system calls
-- return, and the events for the descriptor, are arguments.
pub mod Awaited
pub mod Ends
pub mod Sockets
pub mod Streams
pub mod Cut
mod Tests
use smart_routine.Prelude.{
  ℕ, ◌+◌, ◌-◌, ◌/◌, ◌%◌, ◌^◌, ◌≡◌, Bool, true, false, Option, none, some, List, [], ◌∷◌, map,
  length, ◌==◌, ltb, leb, if◌then◌else◌,
}
use smart_routine.ErrorCode.{ErrorCode}
use smart_routine.DynamicBuffer.{DynamicBuffer, Byte, store, ◌>>=◌}
use smart_routine.Runtime.{Coro, SmartRuntime}
use smart_routine.EPoller.{Epoll, has, set_flag}
use smart_routine.ReadUntil.{ReadResult, received, failed, smart_read_until_impl}
use smart_routine.ReadUntil
use smart_routine.Io.{
  CallResult, returned, refused, ReadContext, new_read, smart_read_impl, WriteContext, new_write,
  smart_write_impl, ConnectContext, smart_connect_impl, AcceptContext, new_accept,
  smart_accept_impl, end_transfer, end_accept, einprogress, minus_one,
}
use smart_routine.Suspension.{Direction, reading, writing, new_item, Suspended, suspend, on_events}

-- `tls_smart_thread`, by the coroutine that runs on the worker; `none` is a null pointer.
abbrev pub Caller : Type 0
Caller = Option Coro

-- A system call outside a worker: the value, or `none` for -1, and `errno` after it.
unfoldable pub system_call : CallResult → ℕ → Option ℕ × ℕ
system_call (returned value) errno = (some value, errno)
system_call (refused e) errno = (none, e)

unfoldable pub system_read : ReadResult → List Byte → ℕ → Option ((List Byte × ℕ) × ℕ)
system_read (received xs) buf errno = do
  buf' ← store buf 0 (map some xs)
  some ((buf', length xs), errno)
system_read (failed e) buf errno = some ((buf, minus_one), e)

unfoldable pub system_write : CallResult → ℕ → ℕ × ℕ
system_write (returned n) errno = (n, errno)
system_write (refused e) errno = (minus_one, e)

-- The end of `smart_connect`.
unfoldable pub end_connect : ConnectContext → ℕ → Option ℕ × ℕ
end_connect context errno = if context.errno == 0 then (some 0, errno) else (none, context.errno)

module _ (E : Epoll) where
  -- What the caller gets, with `errno`, or `none` while it is suspended; the epoll instance and the
  -- shared list after that.
  pub record Called (A : Type 0) : Type 0 where
    pub outcome : Option (A × ℕ)
    pub k : E.K
    pub runtime : SmartRuntime

  unfoldable pub at_once : {A : Type 0} → A × ℕ → E.K → SmartRuntime → Called A
  at_once out k runtime = record { outcome = some out; k = k; runtime = runtime }

  -- From the construction of the item to the return: the coroutine goes on once it is on the shared
  -- list.
  unfoldable pub awaited :
      {R C A : Type 0}
      → (R → C → Option (C × Bool))
      → Direction
      → Coro
      → ℕ
      → List (ℕ × R)
      → C
      → (C → A × ℕ)
      → E.K
      → SmartRuntime
      → Option (Called A)
  awaited step d coro fd es context end k runtime = do
    s ← on_events E step d coro es (
        suspend E step d coro
          (record { item = new_item d fd; k = k; context = context; runtime = runtime }))
    let on_list = ltb (length runtime.task_list) (length s.runtime.task_list)
    some (record {
      outcome = if on_list then some (end s.context) else none;
      k = s.k;
      runtime = s.runtime;
    })

  unfoldable pub smart_read :
      Caller
      → ℕ
      → List Byte
      → ℕ
      → List (ℕ × ReadResult)
      → ReadResult
      → ℕ
      → E.K
      → SmartRuntime
      → Option (Called (List Byte × ℕ))
  unfolding awaited at_once system_read
  smart_read (some coro) fd buf count es r errno k runtime =
      let end : ReadContext → (List Byte × ℕ) × ℕ = λ context.
        let (ret, errno') = end_transfer context.ret context.errno errno in
        ((context.buf, ret), errno') in
      awaited smart_read_impl reading coro fd es (new_read buf count) end k runtime
  smart_read none fd buf count es r errno k runtime = do
    out ← system_read r buf errno
    some (at_once out k runtime)

  unfoldable pub smart_write :
      Caller
      → ℕ
      → List ℕ
      → ℕ
      → List (ℕ × CallResult)
      → CallResult
      → ℕ
      → E.K
      → SmartRuntime
      → Option (Called ℕ)
  unfolding awaited at_once system_write
  smart_write (some coro) fd buf count es r errno k runtime =
      awaited smart_write_impl writing coro fd es (new_write buf count)
        (λ context. end_transfer context.ret context.errno errno) k runtime
  smart_write none fd buf count es r errno k runtime =
      some (at_once (system_write r errno) k runtime)

  unfoldable pub smart_accept :
      Caller
      → ℕ
      → List (ℕ × CallResult)
      → CallResult
      → ℕ
      → E.K
      → SmartRuntime
      → Option (Called (Option ℕ))
  unfolding awaited at_once system_call
  smart_accept (some coro) sockfd es r errno k runtime =
      awaited smart_accept_impl reading coro sockfd es new_accept
        (λ context. end_accept context errno) k runtime
  smart_accept none sockfd es r errno k runtime = some (at_once (system_call r errno) k runtime)

  -- `r` is what `connect` returns, in both cases; `yield` puts back its `errno`.
  unfoldable pub smart_connect :
      Caller
      → ℕ
      → List (ℕ × CallResult)
      → CallResult
      → ℕ
      → E.K
      → SmartRuntime
      → Option (Called (Option ℕ))
  unfolding awaited at_once system_call end_connect
  smart_connect (some coro) sockfd es (returned ret) errno k runtime =
      some (at_once (some ret, errno) k runtime)
  smart_connect (some coro) sockfd es (refused e) errno k runtime =
      if e == einprogress
      then awaited smart_connect_impl writing coro sockfd es (record { errno = 0 })
          (λ context. end_connect context e) k runtime
      else some (at_once (none, e) k runtime)
  smart_connect none sockfd es r errno k runtime = some (at_once (system_call r errno) k runtime)

  -- Outside a worker the error code is not set.
  unfoldable pub smart_read_until :
      ℕ
      → Caller
      → ℕ
      → DynamicBuffer
      → List ℕ
      → List (ℕ × ReadResult)
      → ErrorCode
      → ℕ
      → E.K
      → SmartRuntime
      → Option (Called (DynamicBuffer × ℕ × ErrorCode))
  unfolding awaited at_once
  smart_read_until threshold (some coro) fd buffer delim es ec errno k runtime =
      let end : ReadUntil.ReadUntilContext → (DynamicBuffer × ℕ × ErrorCode) × ℕ = λ context.
        let ec' = if leb (2 ^ 31) context.ret then context.ec else ec in
        ((context.buffer, context.ret, ec'), errno) in
      awaited (smart_read_until_impl threshold) reading coro fd es (ReadUntil.new buffer delim) end
        k runtime
  smart_read_until threshold none fd buffer delim es ec errno k runtime =
      some (at_once ((buffer, ReadUntil.minus_one, ec), errno) k runtime)

abbrev pub o_nonblock : ℕ
o_nonblock = 2048

-- What `fcntl(fd, F_SETFL, …)` is called with; a failed F_GETFL gives -1, with every bit set.
unfoldable pub new_flags : CallResult → ℕ
new_flags (returned flags) = set_flag o_nonblock flags
new_flags (refused e) = 2 ^ 32 - 1

unfoldable pub after_setfl : CallResult → ℕ → ℕ
after_setfl (returned value) errno = errno
after_setfl (refused e) errno = e

unfoldable pub after_getfl : CallResult → ℕ → ℕ
after_getfl (returned flags) errno = errno
after_getfl (refused e) errno = e

-- `smart_socket`: the descriptor, `errno`, and the flags that F_SETFL is called with, if it is.
unfoldable pub smart_socket :
    Caller → CallResult → CallResult → CallResult → ℕ → (Option ℕ × ℕ) × Option ℕ
unfolding system_call new_flags after_setfl after_getfl
smart_socket (some coro) (returned fd) getfl setfl errno =
    ((some fd, after_setfl setfl (after_getfl getfl errno)), some (new_flags getfl))
smart_socket (some coro) (refused e) getfl setfl errno = ((none, e), none)
smart_socket none r getfl setfl errno = (system_call r errno, none)
