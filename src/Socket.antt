-- ===== src/Socket.antt =====
-- src/tcp_socket.cpp with include/tcp_socket.h, and src/acceptor.cpp with include/acceptor.h.
-- What a system call returns is an argument. A socket of -1 is `none`. An operation that closes
-- descriptors lists them in its result. Log lines are left out.

pub mod Owns
pub mod Reports
pub mod Transfers
pub mod Streams
pub mod Exchange
pub mod Dials
pub mod Codes
pub mod Peers
pub mod Dialled
pub mod Store
pub mod Owners
pub mod Unique
mod Tests
mod StreamTests
use smart_routine.Prelude.{
  ℕ, Bool, true, false, not, ◌||◌, Option, none, some, List, [], ◌∷◌, ◌++◌, ◌==◌, if◌then◌else◌,
}
use smart_routine.ErrorCode.{
  ErrorCode, invalid_argument, insufficient_resources, out_of_memory, permission_denied,
  address_in_use, connection_aborted,
}
use smart_routine.Io.{CallResult, returned, refused}

-- `errno` values.
abbrev pub eperm : ℕ
eperm = 1

abbrev pub enomem : ℕ
enomem = 12

abbrev pub eacces : ℕ
eacces = 13

abbrev pub einval : ℕ
einval = 22

abbrev pub enfile : ℕ
enfile = 23

abbrev pub emfile : ℕ
emfile = 24

abbrev pub eaddrinuse : ℕ
eaddrinuse = 98

abbrev pub econnaborted : ℕ
econnaborted = 103

abbrev pub enobufs : ℕ
enobufs = 105

pub record TcpSocket : Type 0 where
  pub socket : Option ℕ
  pub opened : Bool
  pub bound : Bool
  pub connected : Bool

-- The constructor.
unfoldable pub new : TcpSocket
new = record { socket = none; opened = false; bound = false; connected = false }

-- The move constructor: the new socket, and `other` after it.
unfoldable pub move : TcpSocket → TcpSocket × TcpSocket
unfolding new
move other = (other, new)

-- The descriptor, as a list.
abbrev pub owned : Option ℕ → List ℕ
owned none = []
owned (some fd) = fd ∷ []

-- The destructor: what it closes.
unfoldable pub destroy : TcpSocket → List ℕ
destroy s = owned s.socket

unfoldable pub open_error : ℕ → ErrorCode → ErrorCode
open_error errno ec =
    if errno == emfile || errno == enfile
    then insufficient_resources
    else if errno == enobufs || errno == enomem
    then out_of_memory
    else ec

-- `open`
unfoldable pub open_socket : CallResult → TcpSocket → ErrorCode → TcpSocket × ErrorCode
unfolding open_error
open_socket r s ec = if s.opened then (s, invalid_argument) else elim r [
  | returned fd ↦ (record s { socket = some fd; opened = true }, ec)
  | refused errno ↦ (record s { socket = none }, open_error errno ec)
]

unfoldable pub bind_error : ℕ → ErrorCode → ErrorCode
bind_error errno ec =
    if errno == eacces
    then permission_denied
    else if errno == eaddrinuse
    then address_in_use
    else ec

-- `is_null` says that `to_sockaddr_in` returns a null pointer.
unfoldable pub bind : Bool → CallResult → TcpSocket → ErrorCode → TcpSocket × ErrorCode
unfolding bind_error
bind is_null r s ec =
    if not s.opened || s.bound
    then (s, invalid_argument)
    else if is_null
    then (s, invalid_argument)
    else elim r [
      | returned ret ↦ (record s { bound = true }, ec)
      | refused errno ↦ (s, bind_error errno ec)
    ]

unfoldable pub connect_error : ℕ → ErrorCode → ErrorCode
connect_error errno ec =
    if errno == eacces || errno == eperm
    then permission_denied
    else if errno == eaddrinuse
    then address_in_use
    else ec

unfoldable pub connect : CallResult → TcpSocket → ErrorCode → TcpSocket × ErrorCode
unfolding connect_error
connect r s ec = if not s.opened || s.connected then (s, invalid_argument) else elim r [
  | returned ret ↦ (record s { connected = true }, ec)
  | refused errno ↦ (s, connect_error errno ec)
]

-- The third component is what it closes.
unfoldable pub close : TcpSocket → ErrorCode → TcpSocket × ErrorCode × List ℕ
unfolding new
close s ec =
    if not s.opened
    then (s, invalid_argument, [])
    else elim s.socket [ none ↦ (s, ec, []) | some fd ↦ (new, ec, fd ∷ []) ]

unfoldable pub set_accepted_fd : ℕ → TcpSocket → TcpSocket × List ℕ
set_accepted_fd fd s =
    (record { socket = some fd; opened = true; bound = true; connected = true }, owned s.socket)

pub record Acceptor : Type 0 where
  pub base : TcpSocket
  pub listening : Bool

unfoldable pub new_acceptor : Acceptor
unfolding new
new_acceptor = record { base = new; listening = false }

-- `open` and `close` are those of `TcpSocket`.
unfoldable pub open_acceptor : CallResult → Acceptor → ErrorCode → Acceptor × ErrorCode
unfolding open_socket
open_acceptor r a ec = let (s, ec') = open_socket r a.base ec in (record a { base = s }, ec')

unfoldable pub close_acceptor : Acceptor → ErrorCode → Acceptor × ErrorCode × List ℕ
unfolding close
close_acceptor a ec = let (s, ec', closed) = close a.base ec in (record a { base = s }, ec', closed)

unfoldable pub listen : CallResult → Acceptor → ErrorCode → Acceptor × ErrorCode
listen r a ec = if not a.base.opened || a.listening then (a, invalid_argument) else elim r [
  | returned ret ↦ (record a { listening = true }, ec)
  | refused errno ↦ (a, if errno == eaddrinuse then address_in_use else ec)
]

unfoldable pub accept_error : ℕ → ErrorCode → ErrorCode
accept_error errno ec =
    if errno == econnaborted
    then connection_aborted
    else if errno == emfile || errno == enfile
    then insufficient_resources
    else if errno == einval
    then invalid_argument
    else if errno == enobufs || errno == enomem
    then out_of_memory
    else if errno == eperm
    then permission_denied
    else ec

-- The peer after `accept`, the error code, and what is closed.
unfoldable pub accept :
    CallResult → Acceptor → TcpSocket → ErrorCode → TcpSocket × ErrorCode × List ℕ
unfolding set_accepted_fd accept_error
accept r a peer ec =
    if not a.base.opened || not a.listening then (peer, invalid_argument, []) else elim r [
      | returned fd ↦ let (peer', closed) = set_accepted_fd fd peer in (peer', ec, closed)
      | refused errno ↦ (peer, accept_error errno ec, [])
    ]

-- The calls of one `TcpSocket`.
pub data Call : Type 0 where
  to_open : CallResult → Call
  to_bind : Bool → CallResult → Call
  to_connect : CallResult → Call
  to_close : Call
  to_accept : ℕ → Call

unfoldable pub step : Call → TcpSocket × ErrorCode → (TcpSocket × ErrorCode) × List ℕ
unfolding open_socket bind connect close set_accepted_fd
step (to_open r) (s, ec) = (open_socket r s ec, [])
step (to_bind is_null r) (s, ec) = (bind is_null r s ec, [])
step (to_connect r) (s, ec) = (connect r s ec, [])
step to_close (s, ec) = let (s', ec', closed) = close s ec in ((s', ec'), closed)
step (to_accept fd) (s, ec) = let (s', closed) = set_accepted_fd fd s in ((s', ec), closed)

-- A sequence of calls with what they close, in order.
unfoldable pub run : List Call → TcpSocket × ErrorCode → (TcpSocket × ErrorCode) × List ℕ
unfolding step
run [] s = (s, [])
run (c ∷ cs) s =
    let (s', closed) = step c s in let (s'', later) = run cs s' in (s'', closed ++ later)
