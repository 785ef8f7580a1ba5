-- ===== src/Socket/Reports.antt =====
-- What src/tcp_socket.cpp and src/acceptor.cpp report to their caller.
use smart_routine.Prelude.{ℕ, ◌≡◌, refl, true, some}
use smart_routine.ErrorCode.{ErrorCode, invalid_argument}
use smart_routine.Io.{CallResult, returned}
use smart_routine.Socket.{new, Acceptor, open_socket, close, open_acceptor, close_acceptor, listen}

-- An acceptor that listened, was closed and is opened again cannot listen: `listening_` outlives
-- the socket, so listen is refused with InvalidArgument whatever the system would say, and leaves
-- the acceptor as it is.
pub relisten-refused :
    (a : Acceptor) (fd fd' : ℕ) (r : CallResult) (ec : ErrorCode)
    → a.listening ≡ true
    → a.base.opened ≡ true
    → a.base.socket ≡ some fd
    → let closed = close_acceptor a ec in
      let reopened = open_acceptor (returned fd') closed.0 closed.1 in
      listen r reopened.0 reopened.1 ≡ (reopened.0, invalid_argument)
unfolding close_acceptor open_acceptor listen close open_socket new
relisten-refused a fd fd' r ec listens is_open here = rw (is_open, here, listens) refl
