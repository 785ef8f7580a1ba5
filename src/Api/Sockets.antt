-- ===== src/Api/Sockets.antt =====
-- The descriptors that `smart_socket` of src/smart_routine.cpp gives.
use smart_routine.Prelude.{
  ℕ, ◌+◌, ◌/◌, ◌%◌, ◌≡◌, ◌≢◌, ==-ne, refl, true, none, some, arith, Bool-cases, inl, inr,
}
use smart_routine.Runtime.{Coro}
use smart_routine.EPoller.{has}
use smart_routine.Io.{CallResult, returned, refused}
use smart_routine.Api.{smart_socket, o_nonblock, new_flags}

new_flags-has : (getfl : CallResult) → has o_nonblock (new_flags getfl) ≡ true
unfolding new_flags
new_flags-has (returned flags) = elim (Bool-cases (has o_nonblock flags)) [
  | inl e ↦ rw e e
  | inr e ↦
      let clear : flags / o_nonblock % 2 ≢ 1 = ==-ne _ 1 e in
      let set : (flags + o_nonblock) / o_nonblock % 2 ≡ 1 = omega arith in rw (e, set) refl
]
new_flags-has (refused e) = refl

-- On a worker, a socket that was created is set not to block, whatever F_GETFL gives; its
-- descriptor is returned also if that setting fails. A socket that was not created is not touched.
pub smart_socket-nonblocking :
    (coro : Coro) (fd e : ℕ) (getfl setfl : CallResult) (errno : ℕ)
    → ((flags : ℕ) × ((smart_socket (some coro) (returned fd) getfl setfl errno).1 ≡ some flags)
        × (has o_nonblock flags ≡ true)
        × ((smart_socket (some coro) (returned fd) getfl setfl errno).0.0 ≡ some fd))
      × (smart_socket (some coro) (refused e) getfl setfl errno ≡ ((none, e), none))
unfolding smart_socket
smart_socket-nonblocking coro fd e getfl setfl errno =
    ((new_flags getfl, refl, new_flags-has getfl, refl), refl)
