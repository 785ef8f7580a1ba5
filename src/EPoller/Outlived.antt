-- ===== src/EPoller/Outlived.antt =====
-- Which items `handle_events` of src/epoll_item.cpp may read when they are gone.
use smart_routine.Prelude.{
  ◌≡◌, ◌≢◌, ◌↔◌, refl, sym, ap, ◌∙◌, Bool, true, false, ◌&&◌, ◌||◌, Option, none, some, List, [],
  ◌∷◌, ◌++◌, Bool-cases, inl, inr,
}
use smart_routine.EPoller.{EPollItem, Callback, handle_events}
use smart_routine.EPoller.Lifetime.{
  Stage, at_close, at_error, at_read, at_write, at_end, Handling, start_handling, Moment, tests,
  returns, called_at, any_of, make_test, moment, run,
}

-- The callbacks that are called before the last test.
abbrev pub early : EPollItem → List Callback
early item = called_at at_close item ++ called_at at_error item ++ called_at at_read item

-- No callback is called before the last test.
record Quiet (item : EPollItem) : Type 0 where
  no_close : any_of (called_at at_close item) ≡ false
  no_error : any_of (called_at at_error item) ≡ false
  no_read : any_of (called_at at_read item) ≡ false

-- The item is there, or is not read any more.
data Alive (item : EPollItem) : Handling → Type 0 where
  before :
      (p : Stage) (called : List Callback)
      → Alive item (record { item = some item; stage = p; pushed = false; called = called })
  over :
      (item' : Option EPollItem) (pushed : Bool) (called : List Callback)
      → Alive item (record { item = item'; stage = at_end; pushed = pushed; called = called })

never_pushed : (b c : Bool) → c ≡ false → (false || b && c) ≡ false
never_pushed true c e = e
never_pushed false c e = refl

moment-Alive :
    (item : EPollItem) (t : Moment) {h : Handling}
    → Quiet item
    → Alive item h
    → (h' : Handling) × (moment t h ≡ some h') × Alive item h'
unfolding moment make_test
moment-Alive item (tests b) q (before at_close called) =
    (_, refl, rw (never_pushed b (any_of (called_at at_close item)) q.no_close) (before at_error _))
moment-Alive item (tests b) q (before at_error called) =
    (_, refl, rw (never_pushed b (any_of (called_at at_error item)) q.no_error) (before at_read _))
moment-Alive item (tests b) q (before at_read called) =
    (_, refl, rw (never_pushed b (any_of (called_at at_read item)) q.no_read) (before at_write _))
moment-Alive item (tests b) q (before at_write called) = (_, refl, over _ _ _)
moment-Alive item (tests b) q (before at_end called) = (_, refl, over _ _ _)
moment-Alive item returns q (before p called) = (_, refl, before p called)
moment-Alive item (tests b) q (over item' pushed called) = (_, refl, over item' pushed called)
moment-Alive item returns q (over item' true called) = (_, refl, over none true called)
moment-Alive item returns q (over item' false called) = (_, refl, over item' false called)

abbrev then_run : List Moment → Option Handling → Option Handling
then_run ts none = none
then_run ts (some h) = run ts h

run-Alive :
    (item : EPollItem) (ts : List Moment) {h : Handling}
    → Quiet item
    → Alive item h
    → run ts h ≢ none
unfolding run
run-Alive item [] q alive e = cc
run-Alive item (t ∷ ts) q alive e =
    let (h', one, alive') = moment-Alive item t q alive in
    run-Alive item ts q alive' (sym (ap (then_run ts) one) ∙ e)

any_of-append : (cs cs' : List Callback) → any_of (cs ++ cs') ≡ (any_of cs || any_of cs')
any_of-append [] cs' = refl
any_of-append (c ∷ cs) cs' = refl

all_false : (a b c : Bool) → (a || b || c) ≡ false → (a ≡ false) × (b ≡ false) × (c ≡ false)
all_false false false c e = (refl, refl, e)
all_false false true c e = cc
all_false true b c e = cc

early_lem :
    (item : EPollItem)
    → any_of (early item) ≡ (
        any_of (called_at at_close item)
        || any_of (called_at at_error item)
        || any_of (called_at at_read item))
early_lem item =
    any_of-append (called_at at_close item ++ called_at at_error item) (called_at at_read item)
    ∙ ap (λ b. b || any_of (called_at at_read item))
        (any_of-append (called_at at_close item) (called_at at_error item))

early-Quiet : (item : EPollItem) → any_of (early item) ≡ false → Quiet item
early-Quiet item e =
    let (no_close, no_error, no_read) = all_false _ _ _ (sym (early_lem item) ∙ e) in
    record { no_close = no_close; no_error = no_error; no_read = no_read }

-- All callbacks resume, and the worker is there before the last test.
abbrev overtaken : List Moment
overtaken = tests true ∷ tests true ∷ tests true ∷ returns ∷ tests true ∷ []

overtaken_lem :
    (item : EPollItem) → any_of (early item) ≡ true → run overtaken (start_handling item) ≡ none
unfolding run moment make_test start_handling
overtaken_lem item e = rw (sym (early_lem item) ∙ e, run) refl

-- The four tests with no worker between them call what `handle_events` calls.
pub undisturbed-same :
    (item : EPollItem) (a b c d : Bool)
    → (h : Handling) × (run (tests a ∷ tests b ∷ tests c ∷ tests d ∷ []) (start_handling item)
        ≡ some h)
      × (h.stage ≡ at_end)
      × (h.called ≡ handle_events item)
unfolding run moment make_test start_handling handle_events called_at
undisturbed-same item a b c d = (_, refl, refl, refl)

-- With workers between the tests of `handle_events`, and callbacks that may resume the coroutine on
-- whose stack the item is, a test can read an item that is gone exactly if the item's flags and
-- callbacks make it call one before the last test, which is that for writing.
pub run-outlived :
    (item : EPollItem)
    → ((ts : List Moment) × (run ts (start_handling item) ≡ none)) ↔ (any_of (early item) ≡ true)
unfolding run moment make_test start_handling
run-outlived item = (
  λ (ts, gone). elim (Bool-cases (any_of (early item))) [
    | inl e ↦ e
    | inr e ↦ absurd (run-Alive item ts (early-Quiet item e) (before at_close []) gone)
  ],
  λ e. (overtaken, overtaken_lem item e),
)
