-- ===== src/Socket/Dials.antt =====
-- `open` and `connect` of src/tcp_socket.cpp and `accept` of src/acceptor.cpp over the calls of
-- src/smart_routine.cpp, with the endpoints of src/endpoint.cpp.
use smart_routine.Prelude.{ℕ, not, ◌||◌, Option, none, some, List, [], if◌then◌else◌}
use smart_routine.ErrorCode.{ErrorCode, invalid_argument}
use smart_routine.Runtime.{SmartRuntime}
use smart_routine.EPoller.{Epoll}
use smart_routine.Io.{CallResult, returned, refused}
use smart_routine.Api.{Caller, Called, smart_socket, smart_accept, smart_connect}
use smart_routine.Endpoint.{SockAddr, Endpoint, from_sockaddr}
use smart_routine.Socket.{TcpSocket, Acceptor, open_socket, connect, accept}
use smart_routine.Socket.Transfers.{refused_call}

-- What a call of the public API has returned, with `errno` after it.
unfoldable pub as_result : Option ℕ × ℕ → CallResult
as_result (some value, errno) = returned value
as_result (none, errno) = refused errno

-- The peer, its endpoint, the error code, and the descriptors closed. `written` is the address that
-- the system has written if it accepted.
abbrev pub Accepted : Type 0
Accepted = TcpSocket × Endpoint × ErrorCode × List ℕ

unfoldable pub peer_of : CallResult → SockAddr → Endpoint → Endpoint
unfolding from_sockaddr
peer_of (returned fd) written peer_endpoint = from_sockaddr written peer_endpoint
peer_of (refused errno) written peer_endpoint = peer_endpoint

unfoldable pub after_accept :
    Acceptor → TcpSocket → Endpoint → ErrorCode → SockAddr → Option ℕ × ℕ → Accepted × ℕ
unfolding as_result peer_of accept
after_accept a peer peer_endpoint ec written out =
    let (peer', ec', closed) = accept (as_result out) a peer ec in
    ((peer', peer_of (as_result out) written peer_endpoint, ec', closed), out.1)

-- The socket and the error code, `errno`, and the flags that are set, if they are.
unfoldable pub open_peer :
    TcpSocket
    → ErrorCode
    → Caller
    → CallResult
    → CallResult
    → CallResult
    → ℕ
    → ((TcpSocket × ErrorCode) × ℕ) × Option ℕ
unfolding as_result open_socket smart_socket
open_peer s ec caller r getfl setfl errno =
    if s.opened
    then (((s, invalid_argument), errno), none)
    else let (out, flags) = smart_socket caller r getfl setfl errno in
      ((open_socket (as_result out) s ec, out.1), flags)

unfoldable pub after_connect : TcpSocket → ErrorCode → Option ℕ × ℕ → (TcpSocket × ErrorCode) × ℕ
unfolding as_result connect
after_connect s ec out = (connect (as_result out) s ec, out.1)

module _ (E : Epoll) where
  unfoldable pub followed_by :
      {A B : Type 0} → (A × ℕ → B × ℕ) → Option (Called E A) → Option (Called E B)
  followed_by f none = none
  followed_by f (some a) = some (record {
    outcome = elim a.outcome [ none ↦ none | some out ↦ some (f out) ];
    k = a.k;
    runtime = a.runtime;
  })

  -- An acceptor that listens but has no descriptor has no result here.
  unfoldable pub accept_peer :
      Acceptor
      → TcpSocket
      → Endpoint
      → ErrorCode
      → Caller
      → List (ℕ × CallResult)
      → CallResult
      → SockAddr
      → ℕ
      → E.K
      → SmartRuntime
      → Option (Called E Accepted)
  unfolding refused_call followed_by after_accept smart_accept
  accept_peer a peer peer_endpoint ec caller es r written errno k runtime =
      if not a.base.opened || not a.listening
      then refused_call E (peer, peer_endpoint, invalid_argument, []) errno k runtime
      else elim a.base.socket [
        | none ↦ none
        | some fd ↦
            followed_by (after_accept a peer peer_endpoint ec written)
              (smart_accept E caller fd es r errno k runtime)
      ]

  -- `r` is what `connect` returns for the socket address of the endpoint.
  unfoldable pub connect_peer :
      TcpSocket
      → ErrorCode
      → Caller
      → List (ℕ × CallResult)
      → CallResult
      → ℕ
      → E.K
      → SmartRuntime
      → Option (Called E (TcpSocket × ErrorCode))
  unfolding refused_call followed_by after_connect smart_connect
  connect_peer s ec caller es r errno k runtime =
      if not s.opened || s.connected
      then refused_call E (s, invalid_argument) errno k runtime
      else elim s.socket [
        | none ↦ none
        | some fd ↦
            followed_by (after_connect s ec) (smart_connect E caller fd es r errno k runtime)
      ]
