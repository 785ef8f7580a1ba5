-- ===== src/Io.antt =====
-- The readiness callbacks `smart_read_impl`, `smart_write_impl`, `smart_connect_impl` and
-- `smart_accept_impl` of src/internal/smart_routine_impl.cpp, and what the calls of
-- src/smart_routine.cpp return once the coroutine is resumed. What a system call returns is an
-- argument; the result `true` is the call of `resume_read_coro` or `resume_write_coro`.
-- `size_t` is kept modulo 2 ^ 64 and `int` modulo 2 ^ 32, so each has its own -1.

pub mod Ints
pub mod Transfers
pub mod Writes
pub mod Accepts
mod Tests
use smart_routine.Prelude.{
  ℕ, ◌+◌, ◌-◌, ◌^◌, Bool, true, false, Option, none, some, List, [], ◌∷◌, map, if◌then◌else◌,
  length, ◌==◌, ltb, take, drop, u64, sub_u64,
}
use smart_routine.DynamicBuffer.{Byte, store, ◌>>=◌}
use smart_routine.ReadUntil.{ReadResult, received, failed, ewouldblock}

-- (size_t)-1
abbrev pub minus_one : ℕ
minus_one = 2 ^ 64 - 1

-- `buf` is the caller's memory.
pub record ReadContext : Type 0 where
  pub buf : List Byte
  pub count : ℕ
  pub ret : ℕ
  pub errno : ℕ

pub record WriteContext : Type 0 where
  pub buf : List ℕ
  pub count : ℕ
  pub ret : ℕ
  pub errno : ℕ

unfoldable pub new_read : List Byte → ℕ → ReadContext
new_read buf count = record { buf = buf; count = count; ret = 0; errno = 0 }

unfoldable pub new_write : List ℕ → ℕ → WriteContext
new_write buf count = record { buf = buf; count = count; ret = 0; errno = 0 }

-- `int ret = read(…)`, and of `write`. These transfer at most 2 ^ 31 - 4096 bytes at once; a count
-- that is no `int` has no result here.
unfoldable pub int_of : ℕ → Option ℕ
int_of n = if ltb n (2 ^ 31) then some n else none

unfoldable pub smart_read_impl : ReadResult → ReadContext → Option (ReadContext × Bool)
unfolding int_of
smart_read_impl (received []) context = some (context, true)
smart_read_impl (received (x ∷ xs)) context = do
  n ← int_of (length (x ∷ xs))
  buf ← store context.buf context.ret (map some (x ∷ xs))
  let ret = u64 (context.ret + n)
  some (record context { buf = buf; ret = ret }, ret == context.count)
smart_read_impl (failed errno) context =
    if errno == ewouldblock
    then some (context, false)
    else some (record context { ret = minus_one; errno = errno }, true)

-- What `write`, `accept` (a descriptor) or `getsockopt` (the pending error) returns, or -1 with
-- `errno`.
pub data CallResult : Type 0 where
  returned : ℕ → CallResult
  refused : ℕ → CallResult

-- The bytes that are handed to `write`.
unfoldable pub offered : WriteContext → List ℕ
offered context = take (sub_u64 context.count context.ret) (drop context.ret context.buf)

unfoldable pub smart_write_impl : CallResult → WriteContext → Option (WriteContext × Bool)
unfolding int_of
smart_write_impl (returned n) context = do
  n' ← int_of n
  let ret = u64 (context.ret + n')
  if ltb 0 n'
      then some (record context { ret = ret }, ret == context.count)
      else some (context, false)
smart_write_impl (refused errno) context =
    if errno == ewouldblock
    then some (context, false)
    else some (record context { ret = minus_one; errno = errno }, true)

pub record ConnectContext : Type 0 where
  pub errno : ℕ

pub record AcceptContext : Type 0 where
  pub errno : ℕ
  pub ret : Option ℕ  -- `none` is -1

unfoldable pub new_accept : AcceptContext
new_accept = record { errno = 0; ret = none }

-- `getsockopt` puts the pending error of the socket in `error`.
unfoldable pub smart_connect_impl : CallResult → ConnectContext → Option (ConnectContext × Bool)
smart_connect_impl (returned error) context =
    if error == 0 then some (context, true) else some (record context { errno = error }, true)
smart_connect_impl (refused errno) context = some (record context { errno = errno }, true)

unfoldable pub smart_accept_impl : CallResult → AcceptContext → Option (AcceptContext × Bool)
smart_accept_impl (returned fd) context = some (record context { ret = some fd }, true)
smart_accept_impl (refused errno) context =
    if errno == ewouldblock
    then some (context, false)
    else some (record context { errno = errno; ret = none }, true)

-- The end of `smart_read` and `smart_write`, for the `errno` the thread has then: `ret_` is a
-- `size_t`, so the test `context.ret_ < 0` does not succeed.
unfoldable pub end_transfer : ℕ → ℕ → ℕ → ℕ × ℕ
end_transfer ret context_errno errno = (ret, if ltb ret 0 then context_errno else errno)

abbrev pub einprogress : ℕ
einprogress = 115

-- The end of `smart_accept`.
unfoldable pub end_accept : AcceptContext → ℕ → Option ℕ × ℕ
end_accept context errno = elim context.ret [
  | none ↦ (none, context.errno)
  | some fd ↦ (some fd, errno)
]
