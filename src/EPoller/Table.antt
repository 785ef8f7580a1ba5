-- ===== src/EPoller/Table.antt =====
-- An epoll instance for the tests of src/smart_epoller.cpp: the interest list as a function.
use smart_routine.Prelude.{ℕ, ◌≡◌, refl, Option, none, some, ◌==◌, if◌then◌else◌, ==_refl}
use smart_routine.EPoller.{Epoll}

abbrev pub put : ℕ → Option ℕ → (ℕ → Option ℕ) → ℕ → Option ℕ
put fd v k fd' = if fd' == fd then v else k fd'

pub put_self : (fd : ℕ) (v : Option ℕ) (k : ℕ → Option ℕ) → put fd v k fd ≡ v
put_self fd v k = rw (==_refl fd) refl

abbrev pub table : Epoll
table = record {
  K = ℕ → Option ℕ;
  interest = λ k. k;
  add = λ fd events k. elim (k fd) [ none ↦ put fd (some events) k | some old ↦ k ];
  modify = λ fd events k. put fd (some events) k;
  delete = λ fd k. put fd none k;
  add_lem = λ fd events k vacant. rw vacant (put_self fd (some events) k);
  add_taken = λ fd events old k here. rw here refl;
  modify_lem = λ fd events old k here. put_self fd (some events) k;
  delete_lem = λ fd old k here. put_self fd none k;
}
