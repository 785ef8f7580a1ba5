-- ===== src/Socket/Codes.antt =====
-- The error codes of src/tcp_socket.cpp and src/acceptor.cpp, by the errors of connect(2) and
-- accept(2).
use smart_routine.Prelude.{ℕ, ◌≡◌, List, [], ◌∷◌, ◌==◌, if◌then◌else◌, arith}
use smart_routine.ErrorCode.{
  ErrorCode, permission_denied, address_in_use, connection_aborted, insufficient_resources,
  invalid_argument, out_of_memory,
}
use smart_routine.Socket.{
  connect_error, accept_error, eacces, eperm, eaddrinuse, econnaborted, emfile, enfile, einval,
  enobufs, enomem,
}

-- The code that a list has for an error, and else the one before.
abbrev pub reported : List (ℕ × ErrorCode) → ℕ → ErrorCode → ErrorCode
reported [] errno ec = ec
reported ((e, code) ∷ codes) errno ec = if errno == e then code else reported codes errno ec

abbrev pub connect_codes : List (ℕ × ErrorCode)
connect_codes =
    (eacces, permission_denied) ∷ (eperm, permission_denied) ∷ (eaddrinuse, address_in_use) ∷ []

abbrev pub accept_codes : List (ℕ × ErrorCode)
accept_codes =
    (econnaborted, connection_aborted)
    ∷ (emfile, insufficient_resources)
    ∷ (enfile, insufficient_resources)
    ∷ (einval, invalid_argument)
    ∷ (enobufs, out_of_memory)
    ∷ (enomem, out_of_memory)
    ∷ (eperm, permission_denied)
    ∷ []

pub connect_error-reported :
    (errno : ℕ) (ec : ErrorCode) → connect_error errno ec ≡ reported connect_codes errno ec
unfolding connect_error
connect_error-reported errno ec = ground arith

pub accept_error-reported :
    (errno : ℕ) (ec : ErrorCode) → accept_error errno ec ≡ reported accept_codes errno ec
unfolding accept_error
accept_error-reported errno ec = ground arith
