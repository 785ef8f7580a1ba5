-- ===== src/Thread/Take.antt =====
-- What `get_task` and `push_task` of src/smart_thread.cpp do with the tasks.
use smart_routine.Prelude.{
  ℕ, zero, suc, ◌+◌, ◌≤◌, ◌<◌, ◌≡◌, refl, sym, ap, ◌∙◌, Option, none, some, List, [], ◌∷◌, ◌++◌,
  append-nil, append_assoc, arith, length, length-append, length-take, take, take-append-drop, ◌==◌,
  Bool-cases, inl, inr, ltb, ltb→lt, ltb→le, true, false, min, ◌⊎◌,
}
use smart_routine.BoundedQueue
use smart_routine.BoundedQueue.{BoundedQueue}
use smart_routine.BoundedQueue.Refine.{
  Represents, empty_lem, push-full, push-Represents, front_lem, pop-Represents,
}
use smart_routine.BoundedQueue.Fifo.{capacity-push, capacity-pop}
use smart_routine.Runtime.{Coro, SmartRuntime, get_tasks_lem}
use smart_routine.Runtime
use smart_routine.Thread.{SmartThread, push_all, take_front, get_task, push_task}

-- Everything but the queue is as before, and so is the queue's capacity.
pub record SameThread (t t' : SmartThread) : Type 0 where
  pub main_kept : t'.main_coro ≡ t.main_coro
  pub current_kept : t'.current_coro ≡ t.current_coro
  pub callback_kept : t'.delay_callback ≡ t.delay_callback
  pub capacity_kept : t'.task_queue.capacity ≡ t.task_queue.capacity

-- What was taken off the front of `all`, and what is left.
pub data Takes (all : List Coro) (left : List Coro) : Option Coro → Type 0 where
  nothing : all ≡ [] → left ≡ [] → Takes all left none
  next : (c : Coro) → all ≡ c ∷ left → Takes all left (some c)

push_all-Represents :
    (cs : List Coro) {q : BoundedQueue Coro} {xs : List Coro}
    → Represents q xs
    → length xs + length cs ≤ q.capacity
    → Represents (push_all q cs) (xs ++ cs) × ((push_all q cs).capacity ≡ q.capacity)
unfolding push_all
push_all-Represents [] {xs} r fits = (rw (append-nil xs) r, refl)
push_all-Represents (c ∷ cs) {q} {xs} r fits =
    let p = push-Represents r c (omega arith) in
    let (held, size) =
      push_all-Represents cs p.1 (omega (arith, length-append xs (c ∷ []), capacity-push q c)) in
    (rw (append_assoc xs (c ∷ []) cs) at held, size ∙ capacity-push q c)

module _ (t : SmartThread) (r : SmartRuntime) where
  -- `xs` in the thread's queue and the shared list, before; `ys` in the queue after.
  pub record Got (xs : List Coro) (out : Option Coro × SmartThread × SmartRuntime) : Type 0 where
    pub ys : List Coro
    pub queued : Represents out.1.task_queue ys
    pub taken : Takes (xs ++ r.task_list) (ys ++ out.2.task_list) out.0
    pub same : SameThread t out.1

  get_queued :
      (batch : ℕ) {x : Coro} {xs : List Coro}
      → Represents t.task_queue (x ∷ xs)
      → Got (x ∷ xs) (get_task batch t r)
  unfolding get_task take_front
  get_queued batch {x} {xs} h =
      let p = pop-Represents h in
      let vacant : BoundedQueue.empty t.task_queue ≡ false = empty_lem h ∙ ground arith in
      rw (vacant, front_lem h)
        (record {
          ys = xs;
          queued = p.1;
          taken = next x refl;
          same = record {
            main_kept = refl;
            current_kept = refl;
            callback_kept = refl;
            capacity_kept = capacity-pop t.task_queue;
          };
        })

  get_shared :
      (n : ℕ) (shared : List Coro)
      → suc n ≤ t.task_queue.capacity
      → r.task_list ≡ shared
      → Represents t.task_queue []
      → Got [] (get_task (suc n) t r)
  unfolding get_task take_front
  get_shared n [] fits e h =
      let got = get_tasks_lem r (suc n) [] (omega (arith, h.small)) in
      let counted : (min (suc n) 0 == 0) ≡ true = ground arith in
      rw (empty_lem h, got, e, counted)
        (record {
          ys = [];
          queued = h;
          taken = nothing refl refl;
          same = record {
            main_kept = refl;
            current_kept = refl;
            callback_kept = refl;
            capacity_kept = refl;
          };
        })
  get_shared n (c ∷ cs) fits e h =
      let got = get_tasks_lem r (suc n) [] (omega (arith, h.small)) in
      let counted : (min (suc n) (suc (length cs)) == 0) ≡ false = ground arith in
      let (held, size) = push_all-Represents (c ∷ take n cs) h (omega (arith, length-take n cs)) in
      let p = pop-Represents held in
      rw (empty_lem h, got, e, counted, front_lem held)
        (record {
          ys = take n cs;
          queued = p.1;
          taken = next c (ap (◌∷◌ c) (sym (take-append-drop n cs)));
          same = record {
            main_kept = refl;
            current_kept = refl;
            callback_kept = refl;
            capacity_kept = capacity-pop (push_all t.task_queue (c ∷ take n cs)) ∙ size;
          };
        })

  -- With a batch size from 1 to the capacity of the queue, `get_task` returns the oldest task of
  -- the thread's queue followed by the shared list, and a null pointer exactly if both are empty;
  -- the other tasks stay, in their order, in one or the other, and nothing else of the thread
  -- changes.
  pub get_task-Got :
      (batch : ℕ) (xs : List Coro)
      → 0 < batch
      → batch ≤ t.task_queue.capacity
      → Represents t.task_queue xs
      → Got xs (get_task batch t r)
  get_task-Got zero xs p fits h = absurd (omega arith)
  get_task-Got (suc n) [] p fits h = get_shared n r.task_list fits refl h
  get_task-Got (suc n) (x ∷ xs) p fits h = get_queued (suc n) h

  -- Where a pushed task goes.
  pub record Pushed (c : Coro) (xs : List Coro) (out : SmartThread × SmartRuntime) : Type 0 where
    pub ys : List Coro
    pub queued : Represents out.0.task_queue ys
    pub placed :
        ((length xs < t.task_queue.capacity) × (ys ≡ xs ++ c ∷ []) × (out.1 ≡ r))
        ⊎ ((length xs ≡ t.task_queue.capacity)
            × (ys ≡ xs)
            × (out.1.task_list ≡ r.task_list ++ c ∷ []))
    pub same : SameThread t out.0

  -- `push_task` puts the task at the end of the thread's queue if it has room, and at the end of
  -- the shared list if it is full; every other task keeps its place.
  pub push_task-Pushed :
      (c : Coro) (xs : List Coro) → Represents t.task_queue xs → Pushed c xs (push_task t r c)
  unfolding push_task Runtime.push_task
  push_task-Pushed c xs h = elim (Bool-cases (ltb (length xs) t.task_queue.capacity)) [
    | inl room ↦
        let p = push-Represents h c (ltb→lt _ _ room) in
        rw p.0 (record {
          ys = xs ++ c ∷ [];
          queued = p.1;
          placed = inl (ltb→lt _ _ room, refl, refl);
          same = record {
            main_kept = refl;
            current_kept = refl;
            callback_kept = refl;
            capacity_kept = capacity-push t.task_queue c;
          };
        })
    | inr over ↦
        let at_limit : length xs ≡ t.task_queue.capacity = omega (arith, h.fits, ltb→le _ _ over) in
        rw (push-full h c at_limit) (record {
          ys = xs;
          queued = h;
          placed = inr (at_limit, refl, refl);
          same = record {
            main_kept = refl;
            current_kept = refl;
            callback_kept = refl;
            capacity_kept = refl;
          };
        })
  ]
