-- ===== src/Socket/Transfers.antt =====
-- `read`, `read_until` and `write` of src/tcp_socket.cpp over the calls of src/smart_routine.cpp,
-- and `Acceptor::set_address_reuse` of src/acceptor.cpp.
use smart_routine.Prelude.{
  ℕ, ◌+◌, ◌-◌, ◌^◌, not, ◌||◌, Option, none, some, List, [], if◌then◌else◌, u32, ltb,
}
use smart_routine.Buffer.{MutableBuffer, ConstBuffer}
use smart_routine.DynamicBuffer.{DynamicBuffer, Byte}
use smart_routine.ErrorCode.{ErrorCode, invalid_argument}
use smart_routine.Runtime.{SmartRuntime}
use smart_routine.EPoller.{Epoll}
use smart_routine.ReadUntil.{ReadResult}
use smart_routine.Io.{CallResult, minus_one}
use smart_routine.Api.{Caller, Called, at_once, smart_read, smart_read_until, smart_write}
use smart_routine.Socket.{TcpSocket, Acceptor}

-- What is left of a `size_t` in an `int` that is returned as a `ssize_t`, modulo 2 ^ 64.
unfoldable pub through_int : ℕ → ℕ
through_int n = if ltb (u32 n) (2 ^ 31) then u32 n else u32 n + (2 ^ 64 - 2 ^ 32)

-- The bytes behind a pointer.
abbrev pub bytes_at : {A : Type 0} → Option (List A) → List A
bytes_at none = []
bytes_at (some bytes) = bytes

abbrev pub with_value : {A B : Type 0} → (A → B) → Option (A × ℕ) → Option (B × ℕ)
with_value f none = none
with_value f (some (out, errno)) = some (f out, errno)

module _ (E : Epoll) where
  unfoldable pub with_result : {A B : Type 0} → (A → B) → Option (Called E A) → Option (Called E B)
  with_result f none = none
  with_result f (some a) =
      some (record { outcome = with_value f a.outcome; k = a.k; runtime = a.runtime })

  -- The state of a call that is not made.
  unfoldable pub refused_call : {A : Type 0} → A → ℕ → E.K → SmartRuntime → Option (Called E A)
  unfolding at_once
  refused_call out errno k runtime = some (at_once E (out, errno) k runtime)

  -- The error code with each is that of the caller after the call. A call for a socket that has no
  -- descriptor has no result here.
  unfoldable pub read :
      TcpSocket
      → MutableBuffer Byte
      → ErrorCode
      → Caller
      → List (ℕ × ReadResult)
      → ReadResult
      → ℕ
      → E.K
      → SmartRuntime
      → Option (Called E (List Byte × ℕ)) × ErrorCode
  unfolding through_int with_result refused_call smart_read
  read s buffer ec caller es r errno k runtime =
      let memory = bytes_at buffer.data_of in
      if not s.opened || not s.connected
      then (refused_call (memory, minus_one) errno k runtime, invalid_argument)
      else elim s.socket [
        | none ↦ (none, ec)
        | some fd ↦ (
          with_result (λ (out : List Byte × ℕ). (out.0, through_int out.1))
              (smart_read E caller fd memory buffer.size es r errno k runtime),
          ec,
        )
      ]

  unfoldable pub write :
      TcpSocket
      → ConstBuffer ℕ
      → ErrorCode
      → Caller
      → List (ℕ × CallResult)
      → CallResult
      → ℕ
      → E.K
      → SmartRuntime
      → Option (Called E ℕ) × ErrorCode
  unfolding through_int with_result refused_call smart_write
  write s buffer ec caller es r errno k runtime =
      if not s.opened || not s.connected
      then (refused_call minus_one errno k runtime, invalid_argument)
      else elim s.socket [
        | none ↦ (none, ec)
        | some fd ↦ (
          with_result through_int
              (smart_write E caller fd (bytes_at buffer.data_of) buffer.size es r errno k runtime),
          ec,
        )
      ]

  -- The error code is in the result, as `smart_read_until` may set it.
  unfoldable pub read_until :
      ℕ
      → TcpSocket
      → DynamicBuffer
      → List ℕ
      → ErrorCode
      → Caller
      → List (ℕ × ReadResult)
      → ℕ
      → E.K
      → SmartRuntime
      → Option (Called E (DynamicBuffer × ℕ × ErrorCode))
  unfolding through_int with_result refused_call smart_read_until
  read_until threshold s buffer delim ec caller es errno k runtime =
      if not s.opened || not s.connected
      then refused_call (buffer, minus_one, invalid_argument) errno k runtime
      else elim s.socket [
        | none ↦ none
        | some fd ↦
            with_result (λ (out : DynamicBuffer × ℕ × ErrorCode). (out.0, through_int out.1, out.2))
              (smart_read_until E threshold caller fd buffer delim es ec errno k runtime)
      ]

-- The error code, and the descriptor that setsockopt is called for, if it is.
unfoldable pub set_address_reuse : Acceptor → ErrorCode → ErrorCode × Option ℕ
set_address_reuse a ec = if not a.base.opened then (invalid_argument, none) else (ec, a.base.socket)
