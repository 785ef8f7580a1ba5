-- ===== src/Scheduler/Balance.antt =====
-- Where the coroutines of src/smart_thread.cpp are: running, in a queue, held by the delayed
-- callback, watched by the epoll thread, or destroyed.
use smart_routine.Prelude.{
  one_if, count, count-append, Bool, true, ℕ, ◌+◌, ◌≤◌, ◌<◌, ◌≡◌, ◌≢◌, refl, ap, inl, inr, Option,
  none, some, List, [], ◌∷◌, arith,
}
use smart_routine.BoundedQueue.Refine.{Represents}
use smart_routine.Runtime.{Coro, SmartRuntime}
use smart_routine.Thread.{
  SmartThread, DelayCallback, add_back_to_queue, enable_epoll_reading, enable_epoll_writing,
  destroy_coro,
}
use smart_routine.Thread.Take.{Takes, nothing, next, get_task-Got, Pushed, push_task-Pushed}
use smart_routine.Scheduler.{World, in_main_loop, call, set_callback, delayed, run_delayed, fetch}

abbrev pub held : Coro → Option Coro → ℕ
held c none = 0
held c (some d) = one_if c d

-- A coroutine in the delayed callback is alive, but for one that is to be destroyed.
abbrev pub callback_live : Coro → Option DelayCallback → ℕ
callback_live c none = 0
callback_live c (some (add_back_to_queue d)) = one_if c d
callback_live c (some (enable_epoll_reading d)) = one_if c d
callback_live c (some (enable_epoll_writing d)) = one_if c d
callback_live c (some (destroy_coro d)) = 0

abbrev pub callback_dead : Coro → Option DelayCallback → ℕ
callback_dead c (some (destroy_coro d)) = one_if c d
callback_dead c _ = 0

-- How often `c` is at a place from which it can run, with `running` the coroutine that runs and
-- `xs` those in the thread's queue.
abbrev pub live : Coro → World → Option Coro → List Coro → ℕ
live c w running xs =
    held c running
    + (count c xs + count c w.runtime.task_list)
    + (callback_live c w.thread.delay_callback + count c w.watched)

abbrev pub dead : Coro → World → ℕ
dead c w = callback_dead c w.thread.delay_callback + count c w.destroyed

-- What is outside the world: how often other workers hold a coroutine that can run, or one that is
-- to be destroyed; every worker's main coroutine; and those of other workers that are not running.
pub record Outside : Type 0 where
  pub alive : Coro → ℕ
  pub dying : Coro → ℕ
  pub is_main : Coro → Bool
  pub is_away : Coro → Bool

pub record Balance (batch : ℕ) (env : Outside) (lost : Coro → Bool) (w : World)
    (running : Option Coro) : Type 0 where
  pub xs : List Coro
  pub queued : Represents w.thread.task_queue xs
  pub some_batch : 0 < batch
  pub batch_fits : batch ≤ w.thread.task_queue.capacity
  -- No coroutine is at two places.
  pub once : (c : Coro) → live c w running xs + dead c w + (env.alive c + env.dying c) ≤ 1
  -- A name not yet given is at none.
  pub fresh :
      (c : Coro)
      → w.next_coro ≤ c
      → live c w running xs + dead c w + (env.alive c + env.dying c) ≡ 0
  -- Nor is a main coroutine.
  pub apart :
      (m : Coro)
      → env.is_main m ≡ true
      → (live m w running xs + dead m w + (env.alive m + env.dying m) ≡ 0) × (m < w.next_coro)
  pub own_main : env.is_main w.thread.main_coro ≡ true
  -- The coroutines that `lost` names are at no place from which they can run.
  pub gone :
      (c : Coro) → lost c ≡ true → (live c w running xs + env.alive c ≡ 0) × (c < w.next_coro)
  -- A coroutine that can run again has not left through `main_loop`.
  pub resumable :
      (c : Coro) → 0 < live c w running xs + env.alive c → (w.context c).point ≢ in_main_loop

-- The fields that an operation on the queues and lists leaves alone.
pub record SameCoros (w w' : World) : Type 0 where
  pub main_kept : w'.thread.main_coro ≡ w.thread.main_coro
  pub current_kept : w'.thread.current_coro ≡ w.thread.current_coro
  pub context_kept : w'.context ≡ w.context
  pub next_kept : w'.next_coro ≡ w.next_coro
  pub control_kept : w'.control ≡ w.control

-- The rule by which an operation keeps the balance: it makes no coroutine more frequent, neither
-- alive nor in all. `lost'` may name others than before.
module _ {batch : ℕ} {env : Outside} {lost : Coro → Bool} {w w' : World} {r r' : Option Coro}
    (b : Balance batch env lost w r) (ys : List Coro) (q : Represents w'.thread.task_queue ys)
    (size : w'.thread.task_queue.capacity ≡ w.thread.task_queue.capacity) (s : SameCoros w w')
    (less : (c : Coro)
      → (live c w' r' ys ≤ live c w r b.xs)
        × (live c w' r' ys + dead c w' ≤ live c w r b.xs + dead c w)) where
  pub Balance-lose :
      (lost' : Coro → Bool)
      → ((c : Coro) → lost' c ≡ true → (live c w' r' ys + env.alive c ≡ 0) × (c < w.next_coro))
      → Balance batch env lost' w' r'
  Balance-lose lost' gone = record {
    xs = ys;
    queued = q;
    some_batch = b.some_batch;
    batch_fits = omega (arith, b.batch_fits);
    once = λ c. omega (arith, b.once c, less c);
    fresh = λ c old. omega (arith, b.fresh c (omega arith), less c);
    apart = λ m e. omega (arith, b.apart m e, less m);
    own_main = rw s.main_kept b.own_main;
    gone = λ c h. omega (arith, gone c h);
    resumable = λ c alive. rw s.context_kept (b.resumable c (omega (arith, less c)));
  }

  pub Balance-of : Balance batch env lost w' r'
  Balance-of = Balance-lose lost λ c h. omega (arith, b.gone c h, less c)

Takes-count :
    (c : Coro) {all left : List Coro} {o : Option Coro}
    → Takes all left o
    → count c all ≡ held c o + count c left
Takes-count c (nothing e f) = omega (arith, ap (count c) e, ap (count c) f)
Takes-count c (next d e) = ap (count c) e

pub Pushed-count :
    (d c : Coro) {t : SmartThread} {r : SmartRuntime} {xs : List Coro}
    {out : SmartThread × SmartRuntime} (p : Pushed t r c xs out)
    → count d p.ys + count d out.1.task_list ≡ count d xs + count d r.task_list + one_if d c
Pushed-count d c {r} {xs} p = elim p.placed [
  | inl (_, ys, same) ↦
      omega (arith, ap (count d) ys, ap (λ s. count d s.task_list) same, count-append d xs (c ∷ []))
  | inr (_, ys, more) ↦
      omega (arith, ap (count d) ys, ap (count d) more, count-append d r.task_list (c ∷ []))
]

watch_same :
    (w : World) (ws ds : List Coro)
    → SameCoros w (set_callback none (record w { watched = ws; destroyed = ds }))
unfolding set_callback
watch_same w ws ds = record {
  main_kept = refl;
  current_kept = refl;
  context_kept = refl;
  next_kept = refl;
  control_kept = refl;
}

module _ {batch : ℕ} {env : Outside} {lost : Coro → Bool} {w : World} where
  -- A task that is fetched goes from the queues to the running coroutine.
  pub fetch-Balance :
      Balance batch env lost w none
      → Balance batch env lost (fetch batch w).1 (fetch batch w).0
        × SameCoros w (fetch batch w).1
        × ((fetch batch w).1.thread.delay_callback ≡ w.thread.delay_callback)
  unfolding fetch
  fetch-Balance b =
      let g = get_task-Got w.thread w.runtime batch b.xs b.some_batch b.batch_fits b.queued in
      let kept : SameCoros w (fetch batch w).1 = record {
        main_kept = g.same.main_kept;
        current_kept = g.same.current_kept;
        context_kept = refl;
        next_kept = refl;
        control_kept = refl;
      } in
      (
        Balance-of b g.ys g.queued g.same.capacity_kept kept λ c.
            let tally = Takes-count c g.taken in
            rw g.same.callback_kept (omega (arith, tally, count-append c _ _)),
        kept,
        g.same.callback_kept,
      )

  push-Balance :
      {r : Option Coro} (c : Coro)
      → w.thread.delay_callback ≡ some (add_back_to_queue c)
      → Balance batch env lost w r
      → Balance batch env lost (set_callback none (call (add_back_to_queue c) w)) r
        × SameCoros w (set_callback none (call (add_back_to_queue c) w))
  unfolding call set_callback
  push-Balance c e b =
      let p = push_task-Pushed w.thread w.runtime c b.xs b.queued in
      let kept : SameCoros w (set_callback none (call (add_back_to_queue c) w)) = record {
        main_kept = p.same.main_kept;
        current_kept = p.same.current_kept;
        context_kept = refl;
        next_kept = refl;
        control_kept = refl;
      } in
      (
        Balance-of b p.ys p.queued p.same.capacity_kept kept
            λ d. omega (arith, ap (callback_live d) e, ap (callback_dead d) e, Pushed-count d c p),
        kept,
      )

  pub call-Balance :
      {r : Option Coro} (cb : DelayCallback)
      → w.thread.delay_callback ≡ some cb
      → Balance batch env lost w r
      → Balance batch env lost (set_callback none (call cb w)) r
        × SameCoros w (set_callback none (call cb w))
  unfolding call set_callback
  call-Balance (add_back_to_queue c) e b = push-Balance c e b
  call-Balance (enable_epoll_reading c) e b =
      let same = watch_same w (c ∷ w.watched) w.destroyed in
      (
        Balance-of b b.xs b.queued refl same
            (λ d. omega (arith, ap (callback_live d) e, ap (callback_dead d) e)),
        same,
      )
  call-Balance (enable_epoll_writing c) e b =
      let same = watch_same w (c ∷ w.watched) w.destroyed in
      (
        Balance-of b b.xs b.queued refl same
            (λ d. omega (arith, ap (callback_live d) e, ap (callback_dead d) e)),
        same,
      )
  call-Balance (destroy_coro c) e b =
      let same = watch_same w w.watched (c ∷ w.destroyed) in
      (
        Balance-of b b.xs b.queued refl same
            (λ d. omega (arith, ap (callback_live d) e, ap (callback_dead d) e)),
        same,
      )

  delayed-Balance :
      {r : Option Coro} (cb : Option DelayCallback)
      → w.thread.delay_callback ≡ cb
      → Balance batch env lost w r
      → Balance batch env lost (delayed cb w) r
        × SameCoros w (delayed cb w)
        × ((delayed cb w).thread.delay_callback ≡ none)
  unfolding delayed
  delayed-Balance none e b = (
    b,
    record {
      main_kept = refl;
      current_kept = refl;
      context_kept = refl;
      next_kept = refl;
      control_kept = refl;
    },
    e,
  )
  delayed-Balance (some cb) e b = let (b', same) = call-Balance cb e b in (b', same, refl)

  -- The delayed callback moves its coroutine to where it belongs, and is cleared.
  pub run_delayed-Balance :
      {r : Option Coro}
      → Balance batch env lost w r
      → Balance batch env lost (run_delayed w) r
        × SameCoros w (run_delayed w)
        × ((run_delayed w).thread.delay_callback ≡ none)
  unfolding run_delayed
  run_delayed-Balance b = delayed-Balance w.thread.delay_callback refl b
