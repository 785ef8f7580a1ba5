-- ===== src/EPoller/Served.antt =====
-- What the epoll thread of src/smart_epoller.cpp and src/smart_runtime.cpp calls over its life.
use smart_routine.Prelude.{
  ℕ, suc, ◌^◌, ◌≤◌, ◌<◌, ◌≡◌, refl, ap, subst, ◌⊎◌, ◌∙◌, inl, inr, true, false, ◌&&◌, Option, none,
  some, List, [], ◌∷◌, length, arith, ltb, leb, ◌==◌, if◌then◌else◌, u32,
}
use smart_routine.EPoller.{
  Callback, SmartEPoller, Waited, ready, timeout, interrupted, broken, collect, handle_all, round,
}
use smart_routine.EPoller.Loop.{
  Memory, default_evlist_size, new_epoller, InitResult, initialised, bad_length, init, Loop,
  waiting, returned, entries_read, entries_there, eventloop, after_init, run_epoller,
}
use smart_routine.EPoller.Batches.{
  pointers, IsApart, for_events, ready_list-collect, collect-kept, round-ready,
}

-- What epoll_wait(2) documents for a descriptor of -1, and for one that epoll_create made: it
-- fails with EBADF; with EINVAL if it is asked for no event; it brings at least one event and at
-- most as many as it is asked for, one for each descriptor, or is interrupted. It is called with
-- no timeout, so it does not time out.
pub data Documented (maxevents : ℕ) : Option ℕ → Waited → Type 0 where
  bad_descriptor : Documented maxevents none broken
  bad_number : (fd : ℕ) → maxevents ≡ 0 → Documented maxevents (some fd) broken
  events :
      (fd : ℕ) (ev : Option ℕ × ℕ) (evs : List (Option ℕ × ℕ))
      → suc (length evs) ≤ maxevents
      → IsApart (ev ∷ evs)
      → Documented maxevents (some fd) (ready ev evs)
  signal : (fd : ℕ) → 0 < maxevents → Documented maxevents (some fd) interrupted

pub data AllDocumented (maxevents : ℕ) (fd : Option ℕ) : List (Memory × Waited) → Type 0 where
  done : AllDocumented maxevents fd []
  also :
      (memory : Memory) {w : Waited} {ws : List (Memory × Waited)}
      → Documented maxevents fd w
      → AllDocumented maxevents fd ws
      → AllDocumented maxevents fd ((memory, w) ∷ ws)

-- The callbacks of each round, where `old` are the items of the last batch. An interrupted round
-- takes these items as they are by then.
abbrev pub expected : List ℕ → List (Memory × Waited) → List (List (ℕ × List Callback))
expected old [] = []
expected old ((memory, ready ev evs) ∷ ws) =
    for_events memory (ev ∷ evs) ∷ expected (pointers (ev ∷ evs)) ws
expected old ((memory, timeout) ∷ ws) = handle_all old memory ∷ expected old ws
expected old ((memory, interrupted) ∷ ws) = handle_all old memory ∷ expected old ws
expected old ((memory, broken) ∷ ws) = []

-- A round that stays within `evlist_`, and the rounds after it.
eventloop-round :
    (memory : Memory) (w : Waited) (ws : List (Memory × Waited)) (e e' : SmartEPoller)
    (calls : List (ℕ × List Callback)) (out : List (List (ℕ × List Callback)) × Loop)
    → entries_read w ≤ entries_there e
    → round w (record e { items = memory }) ≡ some (calls, e')
    → eventloop ws e' ≡ out
    → eventloop ((memory, w) ∷ ws) e ≡ (calls ∷ out.0, out.1)
unfolding eventloop
eventloop-round memory w ws e e' calls out few called rest =
    let within : leb (entries_read w) (entries_there e) ≡ true = ground arith in
    rw (within, called, rest) refl

-- The loop goes on, and makes the calls expected.
eventloop-served :
    (maxevents fd : ℕ) {ws : List (Memory × Waited)}
    → AllDocumented maxevents (some fd) ws
    → 0 < maxevents
    → (e : SmartEPoller) → e.evlist ≡ some maxevents
    → (e' : SmartEPoller) × (eventloop ws e ≡ (expected e.ready_list ws, waiting e'))
unfolding eventloop entries_read entries_there round
eventloop-served maxevents fd done p e room = (e, refl)
eventloop-served maxevents fd (also memory (bad_number fd' zero_events) more) p e room =
    absurd (omega arith)
eventloop-served maxevents fd (also memory {ws = ws} (signal fd' p') more) p e room =
    let next : SmartEPoller = record e { items = memory } in
    let (e', rest) = eventloop-served maxevents fd more p next room in
    (
      e',
      eventloop-round memory interrupted ws e next (handle_all e.ready_list memory)
          (expected e.ready_list ws, waiting e') (omega arith) refl rest,
    )
eventloop-served maxevents fd (also memory {ws = ws} (events fd' ev evs few apart) more) p e room =
    let before : SmartEPoller = record e { items = memory } in
    let cleared : SmartEPoller = record before { ready_list = [] } in
    let after = collect (ev ∷ evs) cleared in
    let (_, _, kept) = collect-kept (ev ∷ evs) cleared in
    let (e', rest) = eventloop-served maxevents fd more p after (kept ∙ room) in
    let listed : after.ready_list ≡ pointers (ev ∷ evs) = ready_list-collect (ev ∷ evs) cleared in
    let there : entries_there e ≡ maxevents = rw room refl in
    (
      e',
      eventloop-round memory (ready ev evs) ws e after (for_events memory (ev ∷ evs))
          (expected (pointers (ev ∷ evs)) ws, waiting e') (omega (arith, there, few))
          (round-ready ev evs before apart) (rest ∙ ap (λ ps. (expected ps ws, waiting e')) listed),
    )

-- The number of entries for a value of the flag evlist_size.
abbrev pub entries : ℕ → ℕ
entries evlist_size =
    if evlist_size == 0 then 10000 else if leb (2 ^ 63) evlist_size then 10000 else u32 evlist_size

chosen_lem :
    (evlist_size : ℕ)
    → (if ltb 0 evlist_size && ltb evlist_size (2 ^ 63)
        then u32 evlist_size
        else default_evlist_size)
      ≡ entries evlist_size
chosen_lem evlist_size = ground arith

init_lem :
    (fd evlist_size : ℕ) (memory : Memory)
    → init (some fd) evlist_size (new_epoller memory) ≡ (
        let e : SmartEPoller = record (new_epoller memory) {
          epoll_fd = some fd;
          maxevents = entries evlist_size;
        } in
        if leb (2 ^ 31) (entries evlist_size)
        then (e, bad_length)
        else (record e { evlist = some (entries evlist_size) }, initialised))
unfolding init new_epoller
init_lem fd evlist_size memory =
    ap
      (λ (n : ℕ).
        let e : SmartEPoller = record (new_epoller memory) { epoll_fd = some fd; maxevents = n } in
        if leb (2 ^ 31) n then (e, bad_length) else (record e { evlist = some n }, initialised))
      (chosen_lem evlist_size)

-- What `init` makes of a new object.
abbrev pub started : Option ℕ → ℕ → Memory → SmartEPoller
started created evlist_size memory = (init created evlist_size (new_epoller memory)).0

abbrev initialised_epoller : ℕ → ℕ → Memory → SmartEPoller
initialised_epoller fd evlist_size memory = record (new_epoller memory) {
  epoll_fd = some fd;
  maxevents = entries evlist_size;
  evlist = some (entries evlist_size);
}

init_small :
    (fd evlist_size : ℕ) (memory : Memory)
    → entries evlist_size < 2 ^ 31
    → init (some fd) evlist_size (new_epoller memory)
      ≡ (initialised_epoller fd evlist_size memory, initialised)
init_small fd evlist_size memory small =
    let few : leb (2 ^ 31) (entries evlist_size) ≡ false = ground arith in
    init_lem fd evlist_size memory
    ∙ ap
        (λ b.
          let e : SmartEPoller = record (new_epoller memory) {
            epoll_fd = some fd;
            maxevents = entries evlist_size;
          } in
          if b
          then (e, bad_length)
          else (record e { evlist = some (entries evlist_size) }, initialised))
        few

-- If epoll_create gives a descriptor and the flag evlist_size, cut to an int, is positive (or not
-- positive itself, so that there are 10000 entries), then the epoll thread never ends, whatever
-- epoll_wait returns of what it documents. It reads evlist_ only where it is allocated, and in
-- each round with events it calls the callbacks of each item that is ready for the flags reported
-- for it, in the order of the events. In a round that is interrupted it calls again those of the
-- items of the last batch, with the flags that their memory holds by then.
pub run_epoller-serves :
    (fd evlist_size : ℕ) (memory : Memory) (ws : List (Memory × Waited))
    → 0 < entries evlist_size
    → entries evlist_size < 2 ^ 31
    → (let e = started (some fd) evlist_size memory in AllDocumented e.maxevents e.epoll_fd ws)
    → (e : SmartEPoller) × (run_epoller (some fd) evlist_size ws (new_epoller memory)
        ≡ some (expected [] ws, waiting e))
unfolding run_epoller after_init new_epoller
run_epoller-serves fd evlist_size memory ws p small documented =
    let n = entries evlist_size in
    let e = initialised_epoller fd evlist_size memory in
    let start = init_small fd evlist_size memory small in
    let (e', served) =
      eventloop-served n fd
        (subst (λ (s : SmartEPoller × InitResult). AllDocumented s.0.maxevents s.0.epoll_fd ws)
          start documented)
        p e refl in
    (e', ap (after_init ws) start ∙ ap some served)

never_waited :
    {maxevents : ℕ} {created : Option ℕ} {memory : Memory} {w : Waited}
    {ws : List (Memory × Waited)} (e : SmartEPoller)
    → (created ≡ none) ⊎ (maxevents ≡ 0)
    → AllDocumented maxevents created ((memory, w) ∷ ws)
    → eventloop ((memory, w) ∷ ws) e ≡ ([], returned)
unfolding eventloop entries_read round
never_waited e why (also memory bad_descriptor more) = ground arith
never_waited e why (also memory (bad_number fd none_asked) more) = ground arith
never_waited e (inl none_there) (also memory (events fd ev evs few apart) more) = absurd cc
never_waited e (inr none_asked) (also memory (events fd ev evs few apart) more) =
    absurd (omega arith)
never_waited e (inl none_there) (also memory (signal fd p) more) = absurd cc
never_waited e (inr none_asked) (also memory (signal fd p) more) = absurd (omega arith)

-- If epoll_create fails, or the flag evlist_size is cut to 0, so that init returns 0 all the same,
-- then the epoll thread ends at its first epoll_wait, of what epoll_wait documents, with no callback
-- called: a coroutine that waits for a descriptor is never resumed.
pub run_epoller-ends :
    (created : Option ℕ) (evlist_size : ℕ) (memory first : Memory) (w : Waited)
    (ws : List (Memory × Waited))
    → (created ≡ none) ⊎ (entries evlist_size ≡ 0)
    → (let e = started created evlist_size memory in
        AllDocumented e.maxevents e.epoll_fd ((first, w) ∷ ws))
    → run_epoller created evlist_size ((first, w) ∷ ws) (new_epoller memory) ≡ some ([], returned)
unfolding run_epoller after_init init new_epoller
run_epoller-ends none evlist_size memory first w ws why documented =
    ap some (never_waited (started none evlist_size memory) (inl refl) documented)
run_epoller-ends (some fd) evlist_size memory first w ws (inl nowhere) documented = absurd cc
run_epoller-ends (some fd) evlist_size memory first w ws (inr zero_asked) documented =
    let start = init_small fd evlist_size memory (omega arith) in
    ap (after_init ((first, w) ∷ ws)) start
    ∙ ap some (
        never_waited (initialised_epoller fd evlist_size memory) (inr zero_asked) (
          subst
            (λ (s : SmartEPoller × InitResult).
              AllDocumented s.0.maxevents s.0.epoll_fd ((first, w) ∷ ws))
            start documented))
