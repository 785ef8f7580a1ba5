-- ===== src/Socket/StreamTests.antt =====
-- Transfers over connected sockets of src/tcp_socket.cpp.
use smart_routine.Prelude.{
  ℕ, false, ◌-◌, ◌^◌, ◌≡◌, refl, true, none, some, List, [], ◌∷◌, arith, take, replicate, Option,
}
use smart_routine.Buffer.{MutableBuffer, ConstBuffer, mutable_buffer, const_buffer, from_mutable}
use smart_routine.DynamicBuffer.{Byte}
use smart_routine.ErrorCode.{ErrorCode, success, invalid_argument, permission_denied}
use smart_routine.Runtime.{SmartRuntime}
use smart_routine.EPoller.{epollin, epollout, has}
use smart_routine.EPoller.Table.{table}
use smart_routine.ReadUntil.{ReadResult, received, ewouldblock}
use smart_routine.ReadUntil.Resumes
use smart_routine.Io.{CallResult, returned, refused, new_write, einprogress}
use smart_routine.Io.Writes
use smart_routine.Io.Writes.{taken, written}
use smart_routine.Suspension.{writing}
use smart_routine.Suspension.Once.{results}
use smart_routine.Api.{Called, o_nonblock}
use smart_routine.Api.Ends.{Returned}
use smart_routine.Api.Streams.{Gives}
use smart_routine.Endpoint.{
  set_ipv4_address, set_ipv6_address, Endpoint, SockAddr, unset, af_inet, from_sockaddr,
}
use smart_routine.Socket.{TcpSocket, Acceptor, new, new_acceptor}
use smart_routine.Socket.Transfers.{read, write, set_address_reuse}
use smart_routine.Socket.Streams.{connected_socket, write-sent}
use smart_routine.Socket.Exchange.{write-read}
use smart_routine.Socket.Dials.{open_peer, Accepted, accept_peer, connect_peer}
use smart_routine.Socket.Dialled.{open_with, connect_peer-open_peer}
use smart_routine.Socket.Peers.{connect_peer_ends, accept_peer-same}

abbrev nothing_watched : ℕ → Option ℕ
nothing_watched fd = none

abbrev shared : SmartRuntime
shared = record { task_list = 4 ∷ [] }

-- 2 ^ 31 bytes are written, in two writes, and the caller gets a negative number.
abbrev large : ConstBuffer ℕ
large = record { data_of = some (replicate (2 ^ 31) 0); size = 2 ^ 31 }

abbrev two_halves : List (ℕ × CallResult)
two_halves = (epollout, returned (2 ^ 30)) ∷ (epollout, returned (2 ^ 30)) ∷ []

write-sent_example :
    (taken (results writing two_halves) (new_write (replicate (2 ^ 31) 0) (2 ^ 31))
      ≡ take (2 ^ 31) (replicate (2 ^ 31) 0))
    × (let out =
          write table
            (connected_socket 3 true)
            large
            success
            (some 5)
            two_halves
            (returned 0)
            0
            nothing_watched
            shared in
        Gives table 5 3 nothing_watched shared refl 0 true (2 ^ 64 - 2 ^ 31) out.0
        × (out.1 ≡ success))
write-sent_example =
    write-sent table 5 3 nothing_watched shared refl 0 true large success (returned 0) two_halves
      (Writes.IsSending.some_bytes (2 ^ 30 - 1)
        (Writes.IsSending.some_bytes (2 ^ 30 - 1) Writes.IsSending.silent))
      refl (omega arith) (omega arith) (omega arith)

abbrev sent : ConstBuffer ℕ
sent = record { data_of = some (7 ∷ 8 ∷ 9 ∷ []); size = 2 }

abbrev buffer : MutableBuffer Byte
buffer = record { data_of = some (none ∷ none ∷ none ∷ []); size = 2 }

abbrev writes : List (ℕ × CallResult)
writes = (epollout, returned 1) ∷ (epollout, returned 1) ∷ []

abbrev reads : List (ℕ × ReadResult)
reads = (epollin, received (7 ∷ 8 ∷ [])) ∷ []

reads_carry : 7 ∷ 8 ∷ [] ≡ taken (returned 1 ∷ returned 1 ∷ []) (new_write (7 ∷ 8 ∷ 9 ∷ []) 2)
unfolding taken new_write
reads_carry = refl

write-read_example :
    Gives table 5 3 nothing_watched shared refl 0 true 2
      (write table
        (connected_socket 3 true)
        sent
        success
        (some 5)
        writes
        (returned 0)
        0
        nothing_watched
        shared).0
    × Gives table 6 9 nothing_watched shared refl 0 {A = List Byte × ℕ} true
        (some 7 ∷ some 8 ∷ none ∷ [], 2)
        (read table
          (connected_socket 9 true)
          buffer
          success
          (some 6)
          reads
          (received [])
          0
          nothing_watched
          shared).0
write-read_example =
    write-read table 5 6 3 9 nothing_watched nothing_watched shared shared refl refl 0 0 true true
      sent buffer success success (returned 0) (received []) writes reads
      (Writes.IsSending.some_bytes 0 (Writes.IsSending.some_bytes 0 Writes.IsSending.silent)) refl
      (omega arith) (omega arith) (omega arith) refl (omega arith)
      (Resumes.IsFlowing.some_bytes 7 (8 ∷ []) Resumes.IsFlowing.silent) reads_carry

-- A socket that is not connected refuses, and nothing is awaited.
unconnected_refuses :
    (write table new sent success (some 5) writes (returned 0) 0 nothing_watched shared).1
    ≡ invalid_argument
unfolding write new
unconnected_refuses = refl

unopened_keeps_addresses : set_address_reuse new_acceptor success ≡ (invalid_argument, none)
unfolding set_address_reuse new_acceptor new
unopened_keeps_addresses = refl

opened_reuses :
    set_address_reuse (record { base = connected_socket 3 true; listening = true }) success
    ≡ (success, some 3)
unfolding set_address_reuse
opened_reuses = refl

const_of_mutable :
    from_mutable {A = ℕ} (mutable_buffer (some (7 ∷ [])) 1) ≡ const_buffer (some (7 ∷ [])) 1
unfolding from_mutable mutable_buffer const_buffer
const_of_mutable = refl

connect_peer_ends_example :
    Returned table 5 3 nothing_watched shared refl 0 {A = TcpSocket × ErrorCode}
      (
        record { socket = some 3; opened = true; bound = false; connected = false },
        permission_denied,
      )
      13
      (connect_peer table
        (record { socket = some 3; opened = true; bound = false; connected = false })
        success
        (some 5)
        ((epollout, returned 13) ∷ [])
        (refused einprogress)
        0
        nothing_watched
        shared)
connect_peer_ends_example =
    connect_peer_ends table 5 3 nothing_watched shared refl 0 false success
      ((epollout, returned 13) ∷ []) (returned 13) [] refl

abbrev listener : Acceptor
listener = record {
  base = record { socket = some 3; opened = true; bound = true; connected = false };
  listening = true;
}

abbrev unconnected : TcpSocket
unconnected = record { socket = none; opened = false; bound = false; connected = false }

abbrev client : SockAddr
client = record { family = af_inet; port = 36895; addr = some 2130706433 }

abbrev no_endpoint : Endpoint
no_endpoint = record {
  sockaddr = record { family = 0; port = 0; addr = none };
  address = record { addr = none; type = unset };
  port = 0;
}

-- The second event is not for the call.
abbrev accepts : List (ℕ × CallResult)
accepts = (epollin, refused ewouldblock) ∷ (epollout, returned 6) ∷ (epollin, returned 7) ∷ []

accept_peer-same_example :
    (called : Called table Accepted) × (accept_peer table listener unconnected no_endpoint success
        (some 5)
        accepts
        (returned 9)
        client
        0
        nothing_watched
        shared
      ≡ some called)
    × (called.outcome
        ≡ some ((connected_socket 7 true, from_sockaddr client no_endpoint, success, []), 0))
    × (called.runtime.task_list ≡ 4 ∷ 5 ∷ [])
unfolding from_sockaddr set_ipv4_address set_ipv6_address
accept_peer-same_example =
    accept_peer-same table 5 3 nothing_watched shared refl 0 true false unconnected no_endpoint
      success client accepts 1 (returned 7) (returned 9) [] refl (λ e. cc)

-- ECONNREFUSED, which is not reported.
connect_peer-open_peer_example :
    (let ((s, ec), errno') =
        (open_peer new success (some 5) (returned 3) (returned 2) (refused 9) 0).0 in
      let flags = (open_peer new success (some 5) (returned 3) (returned 2) (refused 9) 0).1 in
      ((set : ℕ) × (flags ≡ some set) × (has o_nonblock set ≡ true))
      × Returned table 5 3 nothing_watched shared refl errno' {A = TcpSocket × ErrorCode}
          (open_with 3 false, success)
          111
          (connect_peer table s ec
            (some 5)
            ((epollout, returned 111) ∷ [])
            (refused einprogress)
            errno'
            nothing_watched
            shared))
connect_peer-open_peer_example =
    connect_peer-open_peer table 5 3 nothing_watched shared refl (returned 2) (refused 9) 0
      ((epollout, returned 111) ∷ []) (returned 111) [] refl
