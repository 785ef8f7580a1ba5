-- ===== src/Io/Accepts.antt =====
-- What `smart_accept` of src/smart_routine.cpp returns.
use smart_routine.Prelude.{
  ℕ, zero, suc, ◌≡◌, ◌≢◌, refl, ap, true, Option, none, some, List, ◌∷◌, ◌++◌, replicate, ◌==◌,
  ==→eq, Bool-cases, inl, inr,
}
use smart_routine.ReadUntil.{ewouldblock}
use smart_routine.Callbacks.{callbacks}
use smart_routine.Io.{
  CallResult, returned, refused, AcceptContext, new_accept, smart_accept_impl, end_accept,
}

-- What a caller of `accept` is to see: the descriptor, or `none` for -1, and `errno`.
abbrev pub outcome : CallResult → ℕ → Option ℕ × ℕ
outcome (returned fd) errno = (some fd, errno)
outcome (refused e) errno = (none, e)

-- The attempts that fail with EWOULDBLOCK before `r`.
abbrev pub attempts : ℕ → CallResult → List CallResult → List CallResult
attempts n r more = replicate n (refused ewouldblock) ++ r ∷ more

first_result :
    (r : CallResult) (more : List CallResult) (errno : ℕ)
    → r ≢ refused ewouldblock
    → (c : AcceptContext) × (callbacks smart_accept_impl (r ∷ more) new_accept ≡ some (c, true))
      × (end_accept c errno ≡ outcome r errno)
unfolding callbacks smart_accept_impl new_accept end_accept
first_result (returned fd) more errno ne = (record { errno = 0; ret = some fd }, refl, refl)
first_result (refused e) more errno ne = elim (Bool-cases (e == ewouldblock)) [
  | inl same ↦ absurd (ne (ap refused (==→eq e ewouldblock same)))
  | inr other ↦ (record { errno = e; ret = none }, rw other refl, refl)
]

-- `smart_accept` over any number of attempts that would block: its coroutine is resumed with the
-- first result that is not one, whatever comes after it; a descriptor is returned with errno as it
-- was, and a failure gives -1 and the failure's errno.
pub accept_ends :
    (n : ℕ) (r : CallResult) (more : List CallResult) (errno : ℕ)
    → r ≢ refused ewouldblock
    → (c : AcceptContext) × (callbacks smart_accept_impl (attempts n r more) new_accept
        ≡ some (c, true))
      × (end_accept c errno ≡ outcome r errno)
unfolding callbacks smart_accept_impl
accept_ends zero r more errno ne = first_result r more errno ne
accept_ends (suc n) r more errno ne = accept_ends n r more errno ne
