-- ===== src/Socket/Peers.antt =====
-- How `connect` of src/tcp_socket.cpp and `accept` of src/acceptor.cpp end on a worker thread.
use smart_routine.Prelude.{
  ℕ, ◌≡◌, ◌≢◌, refl, sym, ap, subst, ◌∙◌, Bool, true, false, Option, none, some, List, [], ◌∷◌,
  ◌++◌, ◌==◌, if◌then◌else◌, Bool-cases, inl, inr,
}
use smart_routine.ErrorCode.{ErrorCode}
use smart_routine.Runtime.{Coro, SmartRuntime}
use smart_routine.EPoller.{Epoll}
use smart_routine.ReadUntil.{ewouldblock}
use smart_routine.Io.{CallResult, returned, refused, einprogress}
use smart_routine.Io.Accepts.{attempts}
use smart_routine.Suspension.{reading, writing}
use smart_routine.Suspension.Once.{results}
use smart_routine.Api.{Called, smart_accept, system_call, at_once}
use smart_routine.Api.Ends.{Returned, error_of, smart_accept-same, smart_connect_ends}
use smart_routine.Endpoint.{
  SockAddr, Endpoint, from_sockaddr, set_ipv4_address, set_ipv6_address, ipv4, ipv6, af_inet,
  af_inet6,
}
use smart_routine.Socket.{TcpSocket, Acceptor, connect, accept, set_accepted_fd, owned}
use smart_routine.Socket.Codes.{
  reported, connect_codes, accept_codes, connect_error-reported, accept_error-reported,
}
use smart_routine.Socket.Dials.{
  as_result, peer_of, Accepted, after_accept, after_connect, followed_by, accept_peer, connect_peer,
}

module _ (E : Epoll) (coro : Coro) (fd : ℕ) (k : E.K) (runtime : SmartRuntime)
    (vacant : E.interest k fd ≡ none) (errno : ℕ) where
  followed-Returned :
      {A B : Type 0} (f : A × ℕ → B × ℕ) (out : A) (errno' : ℕ) (call : Option (Called E A))
      → Returned E coro fd k runtime vacant errno out errno' call
      → Returned E coro fd k runtime vacant errno
          (f (out, errno')).0
          (f (out, errno')).1
          (followed_by E f call)
  unfolding followed_by
  followed-Returned f out errno' call v = record {
    called = record {
      outcome = elim v.called.outcome [ none ↦ none | some out ↦ some (f out) ];
      k = v.called.k;
      runtime = v.called.runtime;
    };
    ran = ap (followed_by E f) v.ran;
    gives = rw v.gives refl;
    tasks = v.tasks;
    interest = v.interest;
  }

  connect_result :
      (s : TcpSocket) (ec : ErrorCode) (e : ℕ)
      → s.opened ≡ true
      → s.connected ≡ false
      → after_connect s ec (if e == 0 then some 0 else none, if e == 0 then einprogress else e) ≡ (
        if e == 0 then (record s { connected = true }, ec) else (s, reported connect_codes e ec),
        if e == 0 then einprogress else e,
      )
  unfolding after_connect as_result connect
  connect_result s ec e open_now apart = elim (Bool-cases (e == 0)) [
    | inl z ↦ rw (z, open_now, apart) refl
    | inr z ↦ rw (z, open_now, apart, connect_error-reported e ec) refl
  ]

  -- `connect` of a socket that is open and not connected, on a worker and for a descriptor that is
  -- not registered and while no epoll_wait is interrupted, when the system says that it is in
  -- progress: at the first event for writing the socket is connected if getsockopt tells no error.
  -- If it tells one, or fails, the socket is as it was, errno is the error, and the error code is
  -- PermissionDenied for EACCES and EPERM, AddressInUse for EADDRINUSE, and else as it was.
  pub connect_peer_ends :
      (bound : Bool) (ec : ErrorCode) (es : List (ℕ × CallResult)) (r : CallResult)
      (more : List CallResult)
      → results writing es ≡ r ∷ more
      → (let s : TcpSocket = record {
        socket = some fd;
        opened = true;
        bound = bound;
        connected = false;
      } in
          Returned E coro fd k runtime vacant errno {A = TcpSocket × ErrorCode}
            (if error_of r == 0
              then (record s { connected = true }, ec)
              else (s, reported connect_codes (error_of r) ec))
            (if error_of r == 0 then einprogress else error_of r)
            (connect_peer E s ec (some coro) es (refused einprogress) errno k runtime))
  unfolding connect_peer
  connect_peer_ends bound ec es r more first =
      let s : TcpSocket = record {
        socket = some fd;
        opened = true;
        bound = bound;
        connected = false;
      } in
      let v = smart_connect_ends E coro fd k runtime vacant errno es r more first in
      subst
        (λ (out : (TcpSocket × ErrorCode) × ℕ).
          Returned E coro fd k runtime vacant errno out.0 out.1
            (connect_peer E s ec (some coro) es (refused einprogress) errno k runtime))
        (connect_result s ec (error_of r) refl refl)
        (followed-Returned (after_connect s ec) _ _ _ v)

  system_result : (r : CallResult) → as_result (system_call r errno) ≡ r
  unfolding as_result system_call
  system_result (returned value) = refl
  system_result (refused e) = refl

  outcome_of :
      (r : CallResult) (b : Called E (Option ℕ))
      → smart_accept E none fd [] r errno k runtime ≡ some b
      → b.outcome ≡ some (system_call r errno)
  unfolding smart_accept at_once
  outcome_of r b e =
      let same : at_once E (system_call r errno) k runtime ≡ b = cc in
      sym (ap (λ (c : Called E (Option ℕ)). c.outcome) same)

  after_system :
      (a : Acceptor) (peer : TcpSocket) (peer_endpoint : Endpoint) (ec : ErrorCode)
      (written : SockAddr) (r : CallResult)
      → after_accept a peer peer_endpoint ec written (system_call r errno) ≡ (
        (
          (accept r a peer ec).0,
          peer_of r written peer_endpoint,
          (accept r a peer ec).1,
          (accept r a peer ec).2,
        ),
        (system_call r errno).1,
      )
  unfolding after_accept
  after_system a peer peer_endpoint ec written r =
      ap
        (λ (o : CallResult). (
          (
            (accept o a peer ec).0,
            peer_of o written peer_endpoint,
            (accept o a peer ec).1,
            (accept o a peer ec).2,
          ),
          (system_call r errno).1,
        ))
        (system_result r)

  -- The endpoint of a peer at the address `written`.
  abbrev pub takes_over : SockAddr → Endpoint → Endpoint
  takes_over written e =
      if written.family == af_inet
      then record e { address = record { addr = written.addr; type = ipv4 }; port = written.port }
      else if written.family == af_inet6
      then record e { address = record { addr = written.addr; type = ipv6 }; port = written.port }
      else e

  -- What `accept` gives, with errno, when the system call gives `r`.
  abbrev pub accepted_so : CallResult → TcpSocket → Endpoint → ErrorCode → SockAddr → Accepted × ℕ
  accepted_so (returned fd') peer peer_endpoint ec written = (
    (
      record { socket = some fd'; opened = true; bound = true; connected = true },
      takes_over written peer_endpoint,
      ec,
      owned peer.socket,
    ),
    errno,
  )
  accepted_so (refused e) peer peer_endpoint ec written =
      ((peer, peer_endpoint, reported accept_codes e ec, []), e)

  after_accept_lem :
      (bound connected : Bool) (peer : TcpSocket) (peer_endpoint : Endpoint) (ec : ErrorCode)
      (written : SockAddr) (r : CallResult)
      → (let a : Acceptor = record {
        base = record { socket = some fd; opened = true; bound = bound; connected = connected };
        listening = true;
      } in
          ◌≡◌ {A = Accepted × ℕ}
            (
              (
                (accept r a peer ec).0,
                peer_of r written peer_endpoint,
                (accept r a peer ec).1,
                (accept r a peer ec).2,
              ),
              (system_call r errno).1,
            )
            (accepted_so r peer peer_endpoint ec written))
  unfolding accept set_accepted_fd peer_of from_sockaddr set_ipv4_address set_ipv6_address
      system_call
  after_accept_lem bound connected peer peer_endpoint ec written (returned fd') = refl
  after_accept_lem bound connected peer peer_endpoint ec written (refused e) =
      ap (λ (code : ErrorCode). ((peer, peer_endpoint, code, []), e)) (accept_error-reported e ec)

  -- `accept` of a listening acceptor, on a worker and for a descriptor that is not registered and
  -- while no epoll_wait is interrupted, with any number of attempts that would block, the first
  -- that would not block decides. If it accepts, the peer is open, bound and connected with the new
  -- descriptor, the descriptor that it had is closed, its endpoint takes over the address and the
  -- port that the system has written, and the error code and errno stay. If it fails, peer and
  -- endpoint stay, nothing is closed, errno is the error, and the error code is ConnectionAborted
  -- for ECONNABORTED, InsufficientResources for EMFILE and ENFILE, InvalidArgument for EINVAL,
  -- OutOfMemory for ENOBUFS and ENOMEM, PermissionDenied for EPERM, and else as it was. The
  -- coroutine is then behind the others on the shared list.
  pub accept_peer-same :
      (bound connected : Bool) (peer : TcpSocket) (peer_endpoint : Endpoint) (ec : ErrorCode)
      (written : SockAddr) (es : List (ℕ × CallResult)) (n : ℕ) (r r' : CallResult)
      (more : List CallResult)
      → results reading es ≡ attempts n r more
      → r ≢ refused ewouldblock
      → (let a : Acceptor = record {
        base = record { socket = some fd; opened = true; bound = bound; connected = connected };
        listening = true;
      } in
          (called : Called E Accepted) × (accept_peer E a peer peer_endpoint ec
              (some coro)
              es
              r'
              written
              errno
              k
              runtime
            ≡ some called)
          × (called.outcome ≡ some (accepted_so r peer peer_endpoint ec written))
          × (called.runtime.task_list ≡ runtime.task_list ++ coro ∷ []))
  unfolding accept_peer followed_by
  accept_peer-same bound connected peer peer_endpoint ec written es n r r' more tried ne =
      let a : Acceptor = record {
        base = record { socket = some fd; opened = true; bound = bound; connected = connected };
        listening = true;
      } in
      let f = after_accept a peer peer_endpoint ec written in
      let (call, system, ran, direct, same, tasks) =
        smart_accept-same E coro fd k runtime vacant errno es n r r' more tried ne in
      (
        record {
          outcome = elim call.outcome [ none ↦ none | some out ↦ some (f out) ];
          k = call.k;
          runtime = call.runtime;
        },
        ap (followed_by E f) ran,
        rw (same ∙ outcome_of r system direct) (
            ap some (
              after_system a peer peer_endpoint ec written r
              ∙ after_accept_lem bound connected peer peer_endpoint ec written r)),
        tasks,
      )
