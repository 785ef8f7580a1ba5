-- ===== src/EPoller/Watches.antt =====
-- What an EPollItem of include/epoll_item.h is registered for with the epoll instance.
use smart_routine.Prelude.{
  ℕ, ◌+◌, ◌≡◌, refl, ap, ◌∙◌, ◌⊎◌, inl, inr, Bool, true, false, Bool-cases, none, some, List, [],
  ◌∷◌, ◌==◌, ==→eq, if◌then◌else◌,
}
use smart_routine.EPoller.{
  epollin, epollout, set_flag, clear_flag, Epoll, EPollItem, new, watch_event, enable_reading,
  disable_reading, enable_writing, disable_writing, disable_all,
}

-- What a client asks of an item.
pub data Change : Type 0 where
  read_on read_off write_on write_off all_off : Change

abbrev pub mask : Bool × Bool → ℕ
mask (r, w) = (if r then epollin else 0) + (if w then epollout else 0)

-- Whether it wants to read, and to write, after a change.
abbrev pub wants : Change → Bool × Bool → Bool × Bool
wants read_on (r, w) = (true, w)
wants read_off (r, w) = (false, w)
wants write_on (r, w) = (r, true)
wants write_off (r, w) = (r, false)
wants all_off (r, w) = (false, false)

abbrev pub wants_all : List Change → Bool × Bool → Bool × Bool
wants_all [] b = b
wants_all (c ∷ cs) b = wants_all cs (wants c b)

module _ (E : Epoll) where
  unfoldable pub change : Change → EPollItem → E.K → EPollItem × E.K
  unfolding enable_reading disable_reading enable_writing disable_writing disable_all
  change read_on = enable_reading E
  change read_off = disable_reading E
  change write_on = enable_writing E
  change write_off = disable_writing E
  change all_off = disable_all E

  unfoldable pub change_all : List Change → EPollItem → E.K → EPollItem × E.K
  unfolding change
  change_all [] item k = (item, k)
  change_all (c ∷ cs) item k = let (item', k') = change c item k in change_all cs item' k'

  -- The flag `watching_` tells whether the descriptor is registered.
  abbrev Registered : EPollItem → E.K → Type 0
  Registered item k =
      ((item.watching ≡ true) × ((old : ℕ) × (E.interest k item.fd ≡ some old)))
      ⊎ ((item.watching ≡ false) × (E.interest k item.fd ≡ none))

  -- It is registered for what the item says, or not at all and the item says nothing.
  abbrev pub Shown : ℕ → Bool × Bool → EPollItem × E.K → Type 0
  Shown fd b (item, k) =
      (item.fd ≡ fd)
      × (item.events ≡ mask b)
      × (((item.watching ≡ true) × (E.interest k item.fd ≡ some item.events))
          ⊎ ((item.watching ≡ false) × (item.events ≡ 0) × (E.interest k item.fd ≡ none)))

  watch_lem :
      (fd : ℕ) (b : Bool × Bool) (item : EPollItem) (k : E.K)
      → item.fd ≡ fd
      → item.events ≡ mask b
      → Registered item k
      → Shown fd b (watch_event E item k)
  unfolding watch_event
  watch_lem fd b item k at_fd at_mask (inr (off, vacant)) =
      rw off (at_fd, at_mask, inl (refl, E.add_lem item.fd item.events k vacant))
  watch_lem fd b item k at_fd at_mask (inl (on, (old, here))) =
      elim (Bool-cases (item.events == 0)) [
        | inl e ↦
            rw (on, e)
              (at_fd, at_mask, inr (refl, ==→eq item.events 0 e, E.delete_lem item.fd old k here))
        | inr e ↦
            rw (on, e) (at_fd, at_mask, inl (refl, E.modify_lem item.fd item.events old k here))
      ]

  Shown-Registered :
      {fd : ℕ} (b : Bool × Bool) (item : EPollItem) (k : E.K)
      → Shown fd b (item, k)
      → Registered item k
  Shown-Registered b item k (_, _, inl (on, here)) = inl (on, (item.events, here))
  Shown-Registered b item k (_, _, inr (off, _, vacant)) = inr (off, vacant)

  change_lem :
      (c : Change) {fd : ℕ} (b : Bool × Bool) (item : EPollItem) (k : E.K)
      → item.fd ≡ fd
      → item.events ≡ mask b
      → Registered item k
      → Shown fd (wants c b) (change c item k)
  unfolding change enable_reading disable_reading enable_writing disable_writing disable_all
  change_lem read_on {fd} b item k at_fd e v =
      watch_lem fd (wants read_on b) (record item { events = set_flag epollin item.events }) k at_fd
        (ap (set_flag epollin) e ∙ read_on_mask b) v
    where
      read_on_mask : (b : Bool × Bool) → set_flag epollin (mask b) ≡ mask (wants read_on b)
      read_on_mask (true, true) = refl
      read_on_mask (true, false) = refl
      read_on_mask (false, true) = refl
      read_on_mask (false, false) = refl
  change_lem read_off {fd} b item k at_fd e v =
      watch_lem fd (wants read_off b) (record item { events = clear_flag epollin item.events }) k
        at_fd (ap (clear_flag epollin) e ∙ read_off_mask b) v
    where
      read_off_mask : (b : Bool × Bool) → clear_flag epollin (mask b) ≡ mask (wants read_off b)
      read_off_mask (true, true) = refl
      read_off_mask (true, false) = refl
      read_off_mask (false, true) = refl
      read_off_mask (false, false) = refl
  change_lem write_on {fd} b item k at_fd e v =
      watch_lem fd (wants write_on b) (record item { events = set_flag epollout item.events }) k
        at_fd (ap (set_flag epollout) e ∙ write_on_mask b) v
    where
      write_on_mask : (b : Bool × Bool) → set_flag epollout (mask b) ≡ mask (wants write_on b)
      write_on_mask (true, true) = refl
      write_on_mask (true, false) = refl
      write_on_mask (false, true) = refl
      write_on_mask (false, false) = refl
  change_lem write_off {fd} b item k at_fd e v =
      watch_lem fd (wants write_off b) (record item { events = clear_flag epollout item.events }) k
        at_fd (ap (clear_flag epollout) e ∙ write_off_mask b) v
    where
      write_off_mask : (b : Bool × Bool) → clear_flag epollout (mask b) ≡ mask (wants write_off b)
      write_off_mask (true, true) = refl
      write_off_mask (true, false) = refl
      write_off_mask (false, true) = refl
      write_off_mask (false, false) = refl
  change_lem all_off {fd} b item k at_fd e v =
      watch_lem fd (false, false) (record item { events = 0 }) k at_fd refl v

  changes_lem :
      (cs : List Change) {fd : ℕ} (b : Bool × Bool) (item : EPollItem) (k : E.K)
      → Shown fd b (item, k)
      → Shown fd (wants_all cs b) (change_all cs item k)
  unfolding change_all
  changes_lem [] b item k v = v
  changes_lem (c ∷ cs) b item k v =
      let (at_fd, e, _) = v in
      changes_lem cs (wants c b) (change c item k).0 (change c item k).1
        (change_lem c b item k at_fd e (Shown-Registered b item k v))

-- For any epoll instance in which a descriptor is not yet registered, and any sequence of enabling
-- and disabling of reading and writing on a new item for it: the item's events are exactly what was
-- enabled last, the descriptor is registered for these events, and while watching_ is false it is
-- not registered and nothing is enabled.
pub changes-Shown :
    (E : Epoll) (fd : ℕ) (k : E.K) (cs : List Change)
    → E.interest k fd ≡ none
    → Shown E fd (wants_all cs (false, false)) (change_all E cs (new fd) k)
unfolding new
changes-Shown E fd k cs vacant =
    changes_lem E cs (false, false) (new fd) k (refl, refl, inr (refl, refl, vacant))
