-- ===== src/Callbacks.antt =====
-- The calls of a readiness callback of src/internal/smart_routine_impl.cpp while its coroutine is
-- suspended in a call of src/smart_routine.cpp. `step` is the callback: for what the system call
-- returns it gives the new context, and `true` if it resumes the coroutine.
use smart_routine.Prelude.{
  ◌≡◌, ap, Bool, true, false, Option, none, some, List, [], ◌∷◌, ◌++◌, if◌then◌else◌,
}
use smart_routine.DynamicBuffer.{◌>>=◌}

-- The calls for a sequence of results, up to the one that resumes the coroutine.
unfoldable pub callbacks {ℓ κ} :
    {R : Type ℓ} {C : Type κ} → (R → C → Option (C × Bool)) → List R → C → Option (C × Bool)
callbacks step [] context = some (context, false)
callbacks step (r ∷ rs) context = do
  (context', resumed) ← step r context
  if resumed then some (context', true) else callbacks step rs context'

module _ {ℓ κ} {R : Type ℓ} {C : Type κ} (step : R → C → Option (C × Bool)) where
  abbrev follow : List R → C × Bool → Option (C × Bool)
  follow rs (c, resumed) = if resumed then some (c, true) else callbacks step rs c

  follow-append :
      (rs more : List R) (c' : C) (o : Option (C × Bool))
      → ((c : C)
          → callbacks step rs c ≡ some (c', false)
          → callbacks step (rs ++ more) c ≡ callbacks step more c')
      → (o >>= follow rs) ≡ some (c', false)
      → (o >>= follow (rs ++ more)) ≡ callbacks step more c'
  follow-append rs more c' none rest e = absurd cc
  follow-append rs more c' (some (c, true)) rest e = absurd cc
  follow-append rs more c' (some (c, false)) rest e = rest c e

  -- A run that does not resume goes on with the next events.
  pub callbacks-append :
      (rs more : List R) (c c' : C)
      → callbacks step rs c ≡ some (c', false)
      → callbacks step (rs ++ more) c ≡ callbacks step more c'
  unfolding callbacks
  callbacks-append [] more c c' e = ap (callbacks step more) cc
  callbacks-append (r ∷ rs) more c c' e =
      follow-append rs more c' (step r c) (λ d. callbacks-append rs more d c') e
