-- ===== src/EPoller/Batches.antt =====
-- A batch of events of `eventloop` in src/smart_epoller.cpp: which callbacks its round calls.
use smart_routine.Prelude.{
  ℕ, ◌≡◌, refl, sym, ap, ap₂, ◌∙◌, Bool, true, false, ◌||◌, Option, none, some, List, [], ◌∷◌, ◌++◌,
  append_assoc, append-nil, arith, ◌==◌, ==_refl, if◌then◌else◌,
}
use smart_routine.EPoller.{Callback, SmartEPoller, ready, collect, handle_events, handle_all, round}
use smart_routine.EPoller.Loop.{Memory}

-- The items of a batch of events.
abbrev pub pointers : List (Option ℕ × ℕ) → List ℕ
pointers [] = []
pointers ((none, flags) ∷ evs) = pointers evs
pointers ((some p, flags) ∷ evs) = p ∷ pointers evs

abbrev pub is_in : ℕ → List ℕ → Bool
is_in q [] = false
is_in q (p ∷ ps) = q == p || is_in q ps

-- No item has two events of a batch.
pub data IsApart : List (Option ℕ × ℕ) → Type 0 where
  no_event : IsApart []
  no_item : (flags : ℕ) {evs : List (Option ℕ × ℕ)} → IsApart evs → IsApart ((none, flags) ∷ evs)
  new_item :
      (p flags : ℕ) {evs : List (Option ℕ × ℕ)}
      → is_in p (pointers evs) ≡ false
      → IsApart evs
      → IsApart ((some p, flags) ∷ evs)

-- The callbacks for a batch: those of each item for the flags reported for it.
abbrev pub for_events : Memory → List (Option ℕ × ℕ) → List (ℕ × List Callback)
for_events memory [] = []
for_events memory ((none, flags) ∷ evs) = for_events memory evs
for_events memory ((some p, flags) ∷ evs) =
    (p, handle_events (record (memory p) { revents = flags })) ∷ for_events memory evs

pub ready_list-collect :
    (evs : List (Option ℕ × ℕ)) (e : SmartEPoller)
    → (collect evs e).ready_list ≡ e.ready_list ++ pointers evs
unfolding collect
ready_list-collect [] e = sym (append-nil e.ready_list)
ready_list-collect ((none, flags) ∷ evs) e = ready_list-collect evs e
ready_list-collect ((some p, flags) ∷ evs) e =
    ready_list-collect evs _ ∙ append_assoc e.ready_list (p ∷ []) (pointers evs)

||-false : (a b : Bool) → (a || b) ≡ false → (a ≡ false) × (b ≡ false)
||-false false b e = (refl, e)
||-false true b e = absurd cc

-- What collecting leaves as it is.
pub collect-kept :
    (evs : List (Option ℕ × ℕ)) (e : SmartEPoller)
    → ((collect evs e).epoll_fd ≡ e.epoll_fd)
      × ((collect evs e).maxevents ≡ e.maxevents)
      × ((collect evs e).evlist ≡ e.evlist)
unfolding collect
collect-kept [] e = (refl, refl, refl)
collect-kept ((none, flags) ∷ evs) e = collect-kept evs e
collect-kept ((some p, flags) ∷ evs) e = collect-kept evs _

items-collect :
    (evs : List (Option ℕ × ℕ)) (e : SmartEPoller) (q : ℕ)
    → is_in q (pointers evs) ≡ false
    → (collect evs e).items q ≡ e.items q
unfolding collect
items-collect [] e q out = refl
items-collect ((none, flags) ∷ evs) e q out = items-collect evs e q out
items-collect ((some p, flags) ∷ evs) e q out =
    let (apart, out') = ||-false (q == p) (is_in q (pointers evs)) out in
    items-collect evs _ q out'
    ∙ ap (λ b. if b then record (e.items p) { revents = flags } else e.items q) apart

-- One item with the flags reported for it.
abbrev with_flags : ℕ → ℕ → Memory → Memory
with_flags p flags memory = λ q. if q == p then record (memory p) { revents = flags } else memory q

for_events-with_flags :
    (evs : List (Option ℕ × ℕ)) (p flags : ℕ) (memory : Memory)
    → is_in p (pointers evs) ≡ false
    → for_events (with_flags p flags memory) evs ≡ for_events memory evs
for_events-with_flags [] p flags memory out = refl
for_events-with_flags ((none, flags') ∷ evs) p flags memory out =
    for_events-with_flags evs p flags memory out
for_events-with_flags ((some q, flags') ∷ evs) p flags memory out =
    let (apart, out') = ||-false (p == q) (is_in p (pointers evs)) out in
    let other : (q == p) ≡ false = ground (arith, apart) in
    ap₂
      (λ b rest.
        (
          q,
          handle_events (record (if b then record (memory p) { revents = flags } else memory q) {
            revents = flags';
          }),
        )
        ∷ rest)
      other (for_events-with_flags evs p flags memory out')

handle_all-collect :
    {evs : List (Option ℕ × ℕ)}
    → IsApart evs
    → (e : SmartEPoller) → handle_all (pointers evs) (collect evs e).items ≡ for_events e.items evs
unfolding collect handle_all
handle_all-collect no_event e = refl
handle_all-collect (no_item flags apart) e = handle_all-collect apart e
handle_all-collect (new_item p flags {evs} fresh apart) e =
    ap₂ (λ item rest. (p, handle_events item) ∷ rest)
      (items-collect evs _ p fresh
        ∙ ap (λ b. if b then record (e.items p) { revents = flags } else e.items p) (==_refl p))
      (handle_all-collect apart _ ∙ for_events-with_flags evs p flags e.items fresh)

-- A round with events calls what is reported.
pub round-ready :
    (ev : Option ℕ × ℕ) (evs : List (Option ℕ × ℕ)) (e : SmartEPoller)
    → IsApart (ev ∷ evs)
    → round (ready ev evs) e
      ≡ some (for_events e.items (ev ∷ evs), collect (ev ∷ evs) (record e { ready_list = [] }))
unfolding round
round-ready ev evs e apart =
    let cleared = record e { ready_list = [] } in
    let after = collect (ev ∷ evs) cleared in
    let calls : handle_all after.ready_list after.items ≡ for_events e.items (ev ∷ evs) =
      ap (λ ps. handle_all ps after.items) (ready_list-collect (ev ∷ evs) cleared)
      ∙ handle_all-collect apart cleared in
    ap (λ c. some (c, after)) calls
