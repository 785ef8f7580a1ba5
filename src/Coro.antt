-- ===== src/Coro.antt =====
-- src/smart_coro.cpp with include/smart_coro.h: a coroutine with its stack. `pagesize` is what
-- getpagesize returns, a power of two, so `x & ~(pagesize - 1)` is `x - x % pagesize`.
pub mod Stack
mod Tests
use native.Mathlib.Nat.{mod-lt, mod-eq-sub-div-mul, div-mul-le_self}
use smart_routine.Prelude.{
  ℕ, ◌+◌, ◌-◌, ◌*◌, ◌/◌, ◌%◌, ◌^◌, ◌≤◌, ◌<◌, ◌≡◌, refl, arith, max, u32, u64, ltb, if◌then◌else◌,
  Option, none, some,
}

-- The default of the flag stack_size.
abbrev pub default_stack_size : ℕ
default_stack_size = 128 * 1024

-- `stack_size` is the value of the flag, an unsigned 64-bit number that is cut to 32 bits.
unfoldable pub aligned_stack_size : ℕ → ℕ → ℕ
aligned_stack_size pagesize stack_size =
    let pagesize_m1 = pagesize - 1 in
    let min_stacksize = u32 (pagesize * 2) in
    let size = u32 (max (u32 stack_size) min_stacksize + pagesize_m1) in size - size % pagesize

-- An `int`, kept modulo 2 ^ 32, as a `size_t` or a distance of pointers.
abbrev pub sign_extended : ℕ → ℕ
sign_extended n = if ltb n (2 ^ 31) then n else n + (2 ^ 64 - 2 ^ 32)

-- The contexts of libcontext, by the stack that they run on, from its lowest address to the one
-- behind its highest.
pub record Libcontext : Type 1 where
  pub F : Type 0
  pub make_fcontext : ℕ → ℕ → F
  pub lowest : F → ℕ
  pub highest : F → ℕ
  pub stack_lem :
      (bp size : ℕ)
      → size ≤ bp
      → (lowest (make_fcontext bp size) + size ≡ bp) × (highest (make_fcontext bp size) ≡ bp)

abbrev pub address : Option ℕ → ℕ
address none = 0
address (some sp) = sp

module _ (L : Libcontext) where
  -- `sp` is an address; a null pointer is 0.
  pub record CoroContext : Type 0 where
    pub sp : ℕ
    pub stack_size : ℕ
    pub fcontext : L.F

  -- `fn` is none for a null pointer, as the main coroutine has it.
  pub record SmartCoro : Type 0 where
    pub fn : Option ℕ
    pub args : ℕ
    pub context : CoroContext

  -- The constructor, for what `malloc` returns of a size; a failure is only logged.
  unfoldable pub new_coro : (ℕ → Option ℕ) → ℕ → ℕ → Option ℕ → ℕ → SmartCoro
  new_coro malloc pagesize stack_size fn args =
      let size = aligned_stack_size pagesize stack_size in
      let asked = sign_extended size in
      let sp = address (malloc asked) in
      let bp = u64 (sp + asked) in
      record {
        fn = fn;
        args = args;
        context = record { sp = sp; stack_size = size; fcontext = L.make_fcontext bp asked };
      }

  -- The destructor: what `free` is called with.
  unfoldable pub free_stack : SmartCoro → ℕ
  free_stack c = c.context.sp

-- Below 2 ^ 31 with the pages added, the stack has a whole number of pages, at least two of them
-- and at least the bytes asked for, fewer than a page more than it must have, and its size is a
-- positive int.
pub aligned_stack_size_lem :
    (pagesize stack_size : ℕ)
    → 0 < pagesize
    → stack_size + 3 * pagesize < 2 ^ 31
    → ((pages : ℕ) × (aligned_stack_size pagesize stack_size ≡ pages * pagesize))
      × (2 * pagesize ≤ aligned_stack_size pagesize stack_size)
      × (stack_size ≤ aligned_stack_size pagesize stack_size)
      × (aligned_stack_size pagesize stack_size < max stack_size (2 * pagesize) + pagesize)
      × (aligned_stack_size pagesize stack_size < 2 ^ 31)
unfolding aligned_stack_size
aligned_stack_size_lem pagesize stack_size p small =
    let size = u32 (max (u32 stack_size) (u32 (pagesize * 2)) + (pagesize - 1)) in
    let whole : size ≡ max stack_size (2 * pagesize) + (pagesize - 1) = omega arith in
    let rest : size % pagesize < pagesize = mod-lt size p in
    let pages : size % pagesize ≡ size - size / pagesize * pagesize =
      mod-eq-sub-div-mul size pagesize in
    let below : size / pagesize * pagesize ≤ size = div-mul-le_self size pagesize in
    ((size / pagesize, omega arith), omega arith, omega arith, omega arith, omega arith)
