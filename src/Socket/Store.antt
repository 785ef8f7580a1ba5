-- ===== src/Socket/Store.antt =====
-- Several `TcpSocket` objects of src/tcp_socket.cpp at once, with the descriptors that the kernel
-- has open: constructions, moves, calls and destructions in any order.
use smart_routine.Prelude.{
  ℕ, zero, suc, ◌+◌, ◌≤◌, none, some, List, [], ◌∷◌, ◌++◌, ◌==◌, if◌then◌else◌, set, get_elem?,
  count, ltb,
}
use smart_routine.ErrorCode.{success}
use smart_routine.Socket.{TcpSocket, new, move, destroy, Call, step}
use smart_routine.Socket.Owns.{acquired_by}

-- The objects in the order of their construction, the open descriptors, and the calls of `close`
-- for a descriptor that is not open.
pub record System : Type 0 where
  pub sockets : List TcpSocket
  pub opened : List ℕ
  pub bad_closes : List ℕ

unfoldable pub no_sockets : System
no_sockets = record { sockets = []; opened = []; bad_closes = [] }

abbrev pub remove_one : ℕ → List ℕ → List ℕ
remove_one fd [] = []
remove_one fd (x ∷ xs) = if fd == x then xs else x ∷ remove_one fd xs

abbrev pub remove_at : {A : Type 0} → ℕ → List A → List A
remove_at i [] = []
remove_at zero (x ∷ xs) = xs
remove_at (suc i) (x ∷ xs) = x ∷ remove_at i xs

-- The calls of `close` of the kernel.
unfoldable pub close_all : List ℕ → System → System
close_all [] s = s
close_all (fd ∷ fds) s = close_all fds (
    if ltb 0 (count fd s.opened)
    then record s { opened = remove_one fd s.opened }
    else record s { bad_closes = fd ∷ s.bad_closes })

pub data Act : Type 0 where
  construct : Act
  -- The object at a place is moved from.
  move_from : ℕ → Act
  on : ℕ → Call → Act
  destroy_at : ℕ → Act

-- A call of the object at place `i`; the kernel opens descriptors before old ones are closed.
unfoldable pub call_at : ℕ → Call → TcpSocket → System → System
unfolding step acquired_by close_all
call_at i c t s =
    let ((t', ec), closed) = step c (t, success) in
    close_all closed
      (record s { sockets = set s.sockets i t'; opened = acquired_by c t ++ s.opened })

-- An act on a place where no object is changes nothing.
unfoldable pub act : Act → System → System
unfolding new move destroy call_at close_all
act construct s = record s { sockets = s.sockets ++ new ∷ [] }
act (move_from i) s = elim (get_elem? s.sockets i) [
  | none ↦ s
  | some t ↦
      let (moved, other) = move t in record s { sockets = set s.sockets i other ++ moved ∷ [] }
]
act (on i c) s = elim (get_elem? s.sockets i) [ none ↦ s | some t ↦ call_at i c t s ]
act (destroy_at i) s = elim (get_elem? s.sockets i) [
  | none ↦ s
  | some t ↦ close_all (destroy t) (record s { sockets = remove_at i s.sockets })
]

unfoldable pub acts : List Act → System → System
unfolding act
acts [] s = s
acts (a ∷ more) s = acts more (act a s)

-- What the kernel hands out in an act: a descriptor that is not open, as socket(2) and accept(2)
-- document.
unfoldable pub handed_out : Act → System → List ℕ
unfolding acquired_by
handed_out construct s = []
handed_out (move_from i) s = []
handed_out (on i c) s = elim (get_elem? s.sockets i) [ none ↦ [] | some t ↦ acquired_by c t ]
handed_out (destroy_at i) s = []

pub data AreFresh : List Act → System → Type 0 where
  no_act : {s : System} → AreFresh [] s
  then_act :
      {a : Act} {more : List Act} {s : System}
      → ((fd : ℕ) → count fd (handed_out a s) + count fd s.opened ≤ 1)
      → AreFresh more (act a s)
      → AreFresh (a ∷ more) s
