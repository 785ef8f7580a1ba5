-- ===== src/Socket/Owners.antt =====
-- Which object of src/tcp_socket.cpp owns a descriptor, when several are alive.
use smart_routine.Prelude.{
  ℕ, zero, suc, ◌+◌, ◌≤◌, ◌<◌, ◌≡◌, refl, ap, subst, true, some, List, [], ◌∷◌, ◌++◌, set,
  get_elem?, count, one_if, ltb, lt→ltb, arith,
}
use smart_routine.Socket.{TcpSocket, owned}
use smart_routine.Socket.Owns.{IsValid}
use smart_routine.Socket.Store.{System, remove_one, remove_at, close_all}

-- How many objects own a descriptor.
abbrev pub owners : ℕ → List TcpSocket → ℕ
owners fd [] = 0
owners fd (t ∷ ts) = count fd (owned t.socket) + owners fd ts

pub data AllValid : List TcpSocket → Type 0 where
  no_socket : AllValid []
  one_more : {t : TcpSocket} {ts : List TcpSocket} → IsValid t → AllValid ts → AllValid (t ∷ ts)

count-remove_one :
    (fd d : ℕ) (xs : List ℕ)
    → 0 < count fd xs
    → count d (remove_one fd xs) + one_if d fd ≡ count d xs
count-remove_one fd d [] p = absurd (omega arith)
count-remove_one fd d (x ∷ xs) p = ground (arith, count-remove_one fd d xs)

self : (fd : ℕ) → one_if fd fd ≡ 1
self fd = ground arith

-- What closing open descriptors leaves.
pub record Closed (fds : List ℕ) (s s' : System) : Type 0 where
  pub sockets : s'.sockets ≡ s.sockets
  pub bad_closes : s'.bad_closes ≡ s.bad_closes
  pub opened : (d : ℕ) → count d s'.opened + count d fds ≡ count d s.opened

pub close_all-Closed :
    (fds : List ℕ) (s : System)
    → ((d : ℕ) → count d fds ≤ count d s.opened)
    → Closed fds s (close_all fds s)
unfolding close_all
close_all-Closed [] s open_all = record {
  sockets = refl;
  bad_closes = refl;
  opened = λ d. omega arith;
}
close_all-Closed (fd ∷ fds) s open_all =
    let here : 0 < count fd s.opened = omega (arith, open_all fd, self fd) in
    let is_open : ltb 0 (count fd s.opened) ≡ true = lt→ltb _ _ here in
    let next : System = record s { opened = remove_one fd s.opened } in
    let rest =
      close_all-Closed fds next
        λ d. omega (arith, open_all d, count-remove_one fd d s.opened here) in
    rw is_open (record {
      sockets = rest.sockets;
      bad_closes = rest.bad_closes;
      opened = λ d. omega (arith, rest.opened d, count-remove_one fd d s.opened here);
    })

module _ {t : TcpSocket} (d : ℕ) where
  pub owners-set :
      (ts : List TcpSocket) (i : ℕ) (t' : TcpSocket)
      → get_elem? ts i ≡ some t
      → owners d (set ts i t') + count d (owned t.socket) ≡ owners d ts + count d (owned t'.socket)
  owners-set [] i t' e = absurd cc
  owners-set (u ∷ ts) zero t' e =
      let same : u ≡ t = cc in omega (arith, ap (λ (x : TcpSocket). count d (owned x.socket)) same)
  owners-set (u ∷ ts) (suc i) t' e = omega (arith, owners-set ts i t' e)

  pub owners-remove_at :
      (ts : List TcpSocket) (i : ℕ)
      → get_elem? ts i ≡ some t
      → owners d (remove_at i ts) + count d (owned t.socket) ≡ owners d ts
  owners-remove_at [] i e = absurd cc
  owners-remove_at (u ∷ ts) zero e =
      let same : u ≡ t = cc in omega (arith, ap (λ (x : TcpSocket). count d (owned x.socket)) same)
  owners-remove_at (u ∷ ts) (suc i) e = omega (arith, owners-remove_at ts i e)

pub owners-append :
    (d : ℕ) (ts us : List TcpSocket) → owners d (ts ++ us) ≡ owners d ts + owners d us
owners-append d [] us = omega arith
owners-append d (t ∷ ts) us = omega (arith, owners-append d ts us)

pub AllValid-get :
    {ts : List TcpSocket}
    → AllValid ts
    → (i : ℕ) (t : TcpSocket) → get_elem? ts i ≡ some t
    → IsValid t
AllValid-get no_socket i t e = absurd cc
AllValid-get (one_more {t = u} v vs) zero t e = let same : u ≡ t = cc in subst IsValid same v
AllValid-get (one_more v vs) (suc i) t e = AllValid-get vs i t e

pub AllValid-set :
    {ts : List TcpSocket}
    → AllValid ts
    → (i : ℕ) {t : TcpSocket} → IsValid t
    → AllValid (set ts i t)
AllValid-set no_socket i v' = no_socket
AllValid-set (one_more v vs) zero v' = one_more v' vs
AllValid-set (one_more v vs) (suc i) v' = one_more v (AllValid-set vs i v')

pub AllValid-remove_at : {ts : List TcpSocket} → AllValid ts → (i : ℕ) → AllValid (remove_at i ts)
AllValid-remove_at no_socket i = no_socket
AllValid-remove_at (one_more v vs) zero = vs
AllValid-remove_at (one_more v vs) (suc i) = one_more v (AllValid-remove_at vs i)

pub AllValid-append :
    {ts : List TcpSocket} → AllValid ts → {t : TcpSocket} → IsValid t → AllValid (ts ++ t ∷ [])
AllValid-append no_socket v' = one_more v' no_socket
AllValid-append (one_more v vs) v' = one_more v (AllValid-append vs v')
