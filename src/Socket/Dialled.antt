-- ===== src/Socket/Dialled.antt =====
-- A socket of src/tcp_socket.cpp that is opened and then connected, on a worker thread.
use smart_routine.Prelude.{ℕ, ◌≡◌, Bool, true, false, none, some, List, ◌∷◌, ◌==◌, if◌then◌else◌}
use smart_routine.ErrorCode.{ErrorCode, success}
use smart_routine.Runtime.{Coro, SmartRuntime}
use smart_routine.EPoller.{Epoll, has}
use smart_routine.Io.{CallResult, returned, refused, einprogress}
use smart_routine.Suspension.{writing}
use smart_routine.Suspension.Once.{results}
use smart_routine.Api.{smart_socket, o_nonblock}
use smart_routine.Api.Sockets.{smart_socket-nonblocking}
use smart_routine.Api.Ends.{Returned, error_of}
use smart_routine.Socket.{TcpSocket, new, open_socket}
use smart_routine.Socket.Codes.{reported, connect_codes}
use smart_routine.Socket.Dials.{as_result, open_peer, connect_peer}
use smart_routine.Socket.Peers.{connect_peer_ends}

abbrev pub open_with : ℕ → Bool → TcpSocket
open_with fd connected = record {
  socket = some fd;
  opened = true;
  bound = false;
  connected = connected;
}

-- When a new socket is opened on a worker, and the system gives a descriptor that is not
-- registered, F_SETFL is called for it with O_NONBLOCK among the flags, whatever F_GETFL gave, and
-- the socket is open whatever F_SETFL gives. If it is then connected, and the system says that it
-- is in progress, the first event for writing ends the call, while no epoll_wait is interrupted:
-- the socket is open and connected with Success if getsockopt tells no error, and else open and not
-- connected, with that error in errno and the code PermissionDenied for EACCES and EPERM,
-- AddressInUse for EADDRINUSE, and Success for all others.
pub connect_peer-open_peer :
    (E : Epoll) (coro : Coro) (fd : ℕ) (k : E.K) (runtime : SmartRuntime)
    (vacant : E.interest k fd ≡ none) (getfl setfl : CallResult) (errno : ℕ)
    (es : List (ℕ × CallResult)) (r : CallResult) (more : List CallResult)
    → results writing es ≡ r ∷ more
    → (let ((s, ec), errno') =
          (open_peer new success (some coro) (returned fd) getfl setfl errno).0 in
        let flags = (open_peer new success (some coro) (returned fd) getfl setfl errno).1 in
        ((set : ℕ) × (flags ≡ some set) × (has o_nonblock set ≡ true))
        × Returned E coro fd k runtime vacant errno' {A = TcpSocket × ErrorCode}
            (if error_of r == 0
              then (open_with fd true, success)
              else (open_with fd false, reported connect_codes (error_of r) success))
            (if error_of r == 0 then einprogress else error_of r)
            (connect_peer E s ec (some coro) es (refused einprogress) errno' k runtime))
unfolding open_peer open_socket smart_socket new as_result
connect_peer-open_peer E coro fd k runtime vacant getfl setfl errno es r more first =
    let ((flags, set, nonblocking, _), _) = smart_socket-nonblocking coro fd 0 getfl setfl errno in
    (
      (flags, set, nonblocking),
      connect_peer_ends E coro fd k runtime vacant _ false success es r more first,
    )
