-- ===== src/Socket/Unique.antt =====
-- No descriptor of the sockets of src/tcp_socket.cpp leaks or is closed twice.
use smart_routine.Prelude.{
  ℕ, ◌+◌, ◌≤◌, ◌≡◌, refl, ap, subst, sym, ◌∙◌, inl, inr, Option-cases, some, List, [], ◌∷◌, ◌++◌,
  set, get_elem?, count, count-append, arith,
}
use smart_routine.ErrorCode.{success}
use smart_routine.Socket.{TcpSocket, new, move, owned, destroy, Call, step}
use smart_routine.Socket.Owns.{shut, acquired_by, step-Kept, Kept}
use smart_routine.Socket.Store.{
  System, no_sockets, remove_at, close_all, Act, construct, move_from, on, destroy_at, call_at, act,
  acts, handed_out, AreFresh, no_act, then_act,
}
use smart_routine.Socket.Owners.{
  owners, AllValid, no_socket, close_all-Closed, owners-set, owners-remove_at, owners-append,
  AllValid-get, AllValid-set, AllValid-remove_at, AllValid-append,
}

-- Every object's flags are right, and the open descriptors are those owned, by one object each.
pub record Inv (s : System) : Type 0 where
  pub valid : AllValid s.sockets
  pub owned_as_open : (fd : ℕ) → owners fd s.sockets ≡ count fd s.opened
  pub open_once : (fd : ℕ) → count fd s.opened ≤ 1
  pub no_bad_close : s.bad_closes ≡ []

call_at-Inv :
    {s : System} (i : ℕ) (c : Call) (t : TcpSocket)
    → Inv s
    → get_elem? s.sockets i ≡ some t
    → ((fd : ℕ) → count fd (acquired_by c t) + count fd s.opened ≤ 1)
    → Inv (call_at i c t s)
unfolding call_at Kept
call_at-Inv {s} i c t v there fresh =
    let (valid, kept) = step-Kept c t success (AllValid-get v.valid i t there) in
    let t' = (step c (t, success)).0.0 in
    let closed = (step c (t, success)).1 in
    let moved = λ (d : ℕ). owners-set d s.sockets i t' there in
    let same : (d : ℕ)
        → count d closed + count d (owned t'.socket)
          ≡ count d (owned t.socket) + count d (acquired_by c t) =
      λ d. omega (
        arith,
        count-append d closed (owned t'.socket),
        count-append d (owned t.socket) (acquired_by c t),
        ap (count d) kept,
      ) in
    let opened = λ (d : ℕ). count-append d (acquired_by c t) s.opened in
    let after =
      close_all-Closed closed
        (record s { sockets = set s.sockets i t'; opened = acquired_by c t ++ s.opened })
        (λ d. omega (arith, opened d, moved d, same d, v.owned_as_open d)) in
    record {
      valid = subst AllValid (sym after.sockets) (AllValid-set v.valid i valid);
      owned_as_open = λ d.
          ap (owners d) after.sockets
          ∙ omega (arith, opened d, moved d, same d, v.owned_as_open d, after.opened d);
      open_once = λ d. omega (arith, opened d, after.opened d, fresh d);
      no_bad_close = after.bad_closes ∙ v.no_bad_close;
    }

destroy_at-Inv :
    {s : System} (i : ℕ) (t : TcpSocket)
    → Inv s
    → get_elem? s.sockets i ≡ some t
    → Inv (close_all (destroy t) (record s { sockets = remove_at i s.sockets }))
unfolding destroy
destroy_at-Inv {s} i t v there =
    let left = λ (d : ℕ). owners-remove_at d s.sockets i there in
    let after =
      close_all-Closed (owned t.socket) (record s { sockets = remove_at i s.sockets })
        (λ d. omega (arith, left d, v.owned_as_open d)) in
    record {
      valid = subst AllValid (sym after.sockets) (AllValid-remove_at v.valid i);
      owned_as_open = λ d.
          ap (owners d) after.sockets ∙ omega (arith, left d, v.owned_as_open d, after.opened d);
      open_once = λ d. omega (arith, after.opened d, v.open_once d);
      no_bad_close = after.bad_closes ∙ v.no_bad_close;
    }

move_from-Inv :
    {s : System} (i : ℕ) (t : TcpSocket)
    → Inv s
    → get_elem? s.sockets i ≡ some t
    → Inv (record s { sockets = set s.sockets i (move t).1 ++ (move t).0 ∷ [] })
unfolding move new
move_from-Inv {s} i t v there = record {
  valid = AllValid-append (AllValid-set v.valid i shut) (AllValid-get v.valid i t there);
  owned_as_open = λ d. omega (
    arith,
    owners-set d s.sockets i new there,
    owners-append d (set s.sockets i new) (t ∷ []),
    v.owned_as_open d,
  );
  open_once = v.open_once;
  no_bad_close = v.no_bad_close;
}

act-Inv :
    (a : Act) (s : System)
    → Inv s
    → ((fd : ℕ) → count fd (handed_out a s) + count fd s.opened ≤ 1)
    → Inv (act a s)
unfolding act handed_out new
act-Inv construct s v fresh = record {
  valid = AllValid-append v.valid shut;
  owned_as_open = λ d. omega (arith, owners-append d s.sockets (new ∷ []), v.owned_as_open d);
  open_once = v.open_once;
  no_bad_close = v.no_bad_close;
}
act-Inv (move_from i) s v fresh = elim (Option-cases (get_elem? s.sockets i)) [
  | inl nobody ↦ rw (act, nobody) v
  | inr (t, there) ↦ rw (act, there) (move_from-Inv i t v there)
]
act-Inv (on i c) s v fresh = elim (Option-cases (get_elem? s.sockets i)) [
  | inl nobody ↦ rw (act, nobody) v
  | inr (t, there) ↦ rw (act, there) (call_at-Inv i c t v there (rw (handed_out, there) at fresh))
]
act-Inv (destroy_at i) s v fresh = elim (Option-cases (get_elem? s.sockets i)) [
  | inl nobody ↦ rw (act, nobody) v
  | inr (t, there) ↦ rw (act, there) (destroy_at-Inv i t v there)
]

run-Inv : (more : List Act) {s : System} → Inv s → AreFresh more s → Inv (acts more s)
unfolding acts
run-Inv [] v no_act = v
run-Inv (a ∷ more) {s} v (then_act fresh rest) = run-Inv more (act-Inv a s v fresh) rest

-- Over any constructions, moves, calls and destructions of any number of sockets, whatever the
-- system calls return of what the kernel documents (a descriptor that it hands out is not open):
-- the flags of each object tell whether it has a descriptor, the descriptors open are those that the
-- objects own, each owned by one of them, and no descriptor is closed that is not open.
pub acts-Inv : (more : List Act) → AreFresh more no_sockets → Inv (acts more no_sockets)
unfolding no_sockets
acts-Inv more fresh =
    run-Inv more
      (record {
        valid = no_socket;
        owned_as_open = λ fd. refl;
        open_once = λ fd. omega arith;
        no_bad_close = refl;
      })
      fresh
