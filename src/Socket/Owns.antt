-- ===== src/Socket/Owns.antt =====
-- The descriptors that a `TcpSocket` of src/tcp_socket.cpp owns and closes.
use smart_routine.Prelude.{
  ℕ, ◌≡◌, refl, sym, ap, ◌∙◌, Bool, true, false, none, some, List, [], ◌∷◌, ◌++◌, append_assoc,
  append-nil, if◌then◌else◌,
}
use smart_routine.ErrorCode.{ErrorCode}
use smart_routine.Io.{returned, refused}
use smart_routine.Socket.{
  TcpSocket, new, owned, destroy, Call, to_open, to_bind, to_connect, to_close, to_accept,
  open_socket, bind, connect, close, set_accepted_fd, step, run,
}

-- The flags and the descriptor agree.
pub data IsValid : TcpSocket → Type 0 where
  shut : IsValid (record { socket = none; opened = false; bound = false; connected = false })
  live :
      (fd : ℕ) (bound connected : Bool)
      → IsValid (record { socket = some fd; opened = true; bound = bound; connected = connected })

-- The descriptors that a call gets from the system, or is handed.
unfoldable pub acquired_by : Call → TcpSocket → List ℕ
acquired_by (to_open (returned fd)) s = if s.opened then [] else fd ∷ []
acquired_by (to_open (refused errno)) s = []
acquired_by (to_bind is_null r) s = []
acquired_by (to_connect r) s = []
acquired_by to_close s = []
acquired_by (to_accept fd) s = fd ∷ []

unfoldable pub acquired : List Call → TcpSocket × ErrorCode → List ℕ
unfolding acquired_by
acquired [] s = []
acquired (c ∷ cs) s = acquired_by c s.0 ++ acquired cs (step c s).0

-- A call keeps the flags right, and closes what it does not go on to own.
unfoldable pub Kept : Call → TcpSocket × ErrorCode → Type 0
Kept c s =
    IsValid (step c s).0.0
    × ((step c s).1 ++ owned (step c s).0.0.socket ≡ owned s.0.socket ++ acquired_by c s.0)

pub step-Kept : (c : Call) (s : TcpSocket) (ec : ErrorCode) → IsValid s → Kept c (s, ec)
unfolding step open_socket bind connect close set_accepted_fd acquired_by new Kept
step-Kept (to_open (returned fd)) _ ec shut = (live fd false false, refl)
step-Kept (to_open (refused errno)) _ ec shut = (shut, refl)
step-Kept (to_open (returned fd')) _ ec (live fd b c) = (live fd b c, refl)
step-Kept (to_open (refused errno)) _ ec (live fd b c) = (live fd b c, refl)
step-Kept (to_bind is_null r) _ ec shut = (shut, refl)
step-Kept (to_bind is_null r) _ ec (live fd true c) = (live fd true c, refl)
step-Kept (to_bind true r) _ ec (live fd false c) = (live fd false c, refl)
step-Kept (to_bind false (returned ret)) _ ec (live fd false c) = (live fd true c, refl)
step-Kept (to_bind false (refused errno)) _ ec (live fd false c) = (live fd false c, refl)
step-Kept (to_connect r) _ ec shut = (shut, refl)
step-Kept (to_connect r) _ ec (live fd b true) = (live fd b true, refl)
step-Kept (to_connect (returned ret)) _ ec (live fd b false) = (live fd b true, refl)
step-Kept (to_connect (refused errno)) _ ec (live fd b false) = (live fd b false, refl)
step-Kept to_close _ ec shut = (shut, refl)
step-Kept to_close _ ec (live fd b c) = (shut, refl)
step-Kept (to_accept fd') _ ec shut = (live fd' true true, refl)
step-Kept (to_accept fd') _ ec (live fd b c) = (live fd' true true, refl)

run_lem :
    (cs : List Call) (s : TcpSocket × ErrorCode)
    → IsValid s.0
    → IsValid (run cs s).0.0
      × ((run cs s).1 ++ owned (run cs s).0.0.socket ≡ owned s.0.socket ++ acquired cs s)
unfolding run acquired Kept
run_lem [] s v = (v, sym (append-nil (owned s.0.socket)))
run_lem (c ∷ cs) (s, ec) v =
    let (v', e) = step-Kept c s ec v in
    let next = (step c (s, ec)).0 in
    let closed = (step c (s, ec)).1 in
    let (v'', e') = run_lem cs next v' in
    (
      v'',
      append_assoc closed (run cs next).1 (owned (run cs next).0.0.socket)
          ∙ ap (λ l. closed ++ l) e'
          ∙ sym (append_assoc closed (owned next.0.socket) (acquired cs next))
          ∙ ap (λ l. l ++ acquired cs next) e
          ∙ append_assoc (owned s.socket) (acquired_by c s) (acquired cs next),
    )

-- Over the life of a socket object, from its constructor over any sequence of open, bind, connect,
-- close and set_accepted_fd, whatever the system calls return, to its destructor: it closes
-- exactly the descriptors that it acquired, each as often and in the order in which it acquired
-- them; and before that the flag of an open socket tells whether it has a descriptor.
pub life_lem :
    (cs : List Call) (ec : ErrorCode)
    → IsValid (run cs (new, ec)).0.0
      × ((run cs (new, ec)).1 ++ destroy (run cs (new, ec)).0.0 ≡ acquired cs (new, ec))
unfolding new destroy
life_lem cs ec = run_lem cs (new, ec) shut
