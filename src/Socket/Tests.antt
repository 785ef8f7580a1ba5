-- ===== src/Socket/Tests.antt =====
-- src/tcp_socket.cpp and src/acceptor.cpp at small inputs.
use smart_routine.Prelude.{◌≡◌, refl, arith, true, false, some, List, [], ◌∷◌}
use smart_routine.ErrorCode.{success, invalid_argument}
use smart_routine.Io.{returned, refused}
use smart_routine.Socket.{
  new, move, Acceptor, Call, to_open, to_connect, to_close, to_accept, open_socket, connect,
  connect_error, close, set_accepted_fd, destroy, step, run, open_acceptor, close_acceptor, listen,
}
use smart_routine.Socket.Owns.{acquired_by}
use smart_routine.Socket.Store.{
  Act, construct, move_from, on, destroy_at, AreFresh, no_act, then_act, no_sockets, handed_out,
  act, acts, call_at, close_all,
}
use smart_routine.Socket.Unique.{Inv, acts-Inv}

abbrev calls : List Call
calls =
    to_open (returned 3)
    ∷ to_open (returned 9)
    ∷ to_connect (returned 0)
    ∷ to_close
    ∷ to_accept 4
    ∷ to_accept 5
    ∷ []

calls_close : (run calls (new, success)).1 ≡ 3 ∷ 4 ∷ []
unfolding run step open_socket connect close set_accepted_fd new
calls_close = refl

-- A socket is opened and moved from, the first object is opened again, and each is destroyed.
abbrev history : List Act
history =
    construct
    ∷ on 0 (to_open (returned 3))
    ∷ move_from 0
    ∷ on 0 (to_open (returned 4))
    ∷ on 1 (to_accept 5)
    ∷ destroy_at 0
    ∷ []

history-AreFresh : AreFresh history no_sockets
unfolding no_sockets handed_out acquired_by act call_at step open_socket set_accepted_fd move new
    destroy close_all
history-AreFresh =
    then_act (λ fd. ground arith)
      (then_act (λ fd. ground arith)
        (then_act (λ fd. ground arith)
          (then_act (λ fd. ground arith)
            (then_act (λ fd. ground arith) (then_act (λ fd. ground arith) no_act)))))

history_runs : (acts history no_sockets).opened ≡ 5 ∷ []
unfolding no_sockets acts acquired_by act call_at step open_socket set_accepted_fd move new destroy
    close_all
history_runs = refl

acts-Inv_example : Inv (acts history no_sockets)
acts-Inv_example = acts-Inv history history-AreFresh

abbrev listener : Acceptor
listener = record {
  base = record { socket = some 3; opened = true; bound = true; connected = false };
  listening = true;
}

-- It is closed and opened again.
reopened_refuses :
    (let closed = close_acceptor listener success in
      let reopened = open_acceptor (returned 4) closed.0 closed.1 in
      listen (returned 0) reopened.0 reopened.1 ≡ (reopened.0, invalid_argument))
unfolding close_acceptor open_acceptor listen close open_socket new
reopened_refuses = refl

-- ECONNREFUSED is not reported.
refusal_unreported :
    (connect
      (refused 111)
      (record { socket = some 3; opened = true; bound = false; connected = false })
      success).1
    ≡ success
unfolding connect connect_error
refusal_unreported = refl
