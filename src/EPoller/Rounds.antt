-- ===== src/EPoller/Rounds.antt =====
-- What the rounds of `eventloop` of src/smart_epoller.cpp call.
use smart_routine.Prelude.{ℕ, ◌≡◌, sym, ap, ◌∙◌, Option, some, List, [], ◌∷◌}
use smart_routine.EPoller.{
  Callback, SmartEPoller, ready, timeout, interrupted, collect, handle_all, round,
}

-- A round in which epoll_wait is interrupted, or times out, calls again what the round before it
-- called, for the items of that round, although no event has happened: ready_list_ is cleared only
-- when there are events.
pub interrupted-repeats :
    (e e' : SmartEPoller) (calls : List (ℕ × List Callback)) (ev : Option ℕ × ℕ)
    (evs : List (Option ℕ × ℕ))
    → round (ready ev evs) e ≡ some (calls, e')
    → (round interrupted e' ≡ some (calls, e')) × (round timeout e' ≡ some (calls, e'))
unfolding round
interrupted-repeats e e' calls ev evs done =
    let after = collect (ev ∷ evs) (record e { ready_list = [] }) in
    let same : after ≡ e' = cc in
    let called : handle_all after.ready_list after.items ≡ calls = cc in
    let again : handle_all e'.ready_list e'.items ≡ calls =
      ap (λ (s : SmartEPoller). handle_all s.ready_list s.items) (sym same) ∙ called in
    (ap (λ c. some (c, e')) again, ap (λ c. some (c, e')) again)
