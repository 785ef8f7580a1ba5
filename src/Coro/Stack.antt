-- ===== src/Coro/Stack.antt =====
-- The stack that the constructor of src/smart_coro.cpp gives to a coroutine.
use smart_routine.Prelude.{
  ℕ, ◌+◌, ◌-◌, ◌*◌, ◌^◌, ◌≤◌, ◌<◌, ◌≡◌, refl, ap, ap₂, ◌∙◌, arith, max, u64, lt→ltb, if◌then◌else◌,
  Option,
}
use smart_routine.Coro.{
  aligned_stack_size, aligned_stack_size_lem, sign_extended, address, Libcontext, SmartCoro,
  new_coro, free_stack,
}

module _ (L : Libcontext) where
  -- The coroutine runs on the `bytes` bytes from `sp` on, and on no others.
  pub record RunsOn (sp bytes : ℕ) (c : SmartCoro L) : Type 0 where
    pub size_told : c.context.stack_size ≡ bytes
    pub lowest : L.lowest c.context.fcontext ≡ sp
    pub highest : L.highest c.context.fcontext ≡ sp + bytes
    pub freed : free_stack L c ≡ sp

  on_address :
      (malloc : ℕ → Option ℕ) (pagesize stack_size : ℕ) (fn : Option ℕ) (args sp bytes : ℕ)
      → aligned_stack_size pagesize stack_size ≡ bytes
      → bytes < 2 ^ 31
      → address (malloc bytes) ≡ sp
      → sp + bytes < 2 ^ 64
      → RunsOn sp bytes (new_coro L malloc pagesize stack_size fn args)
  unfolding new_coro free_stack
  on_address malloc pagesize stack_size fn args sp bytes size small given fits =
      let same : sign_extended (aligned_stack_size pagesize stack_size) ≡ bytes =
        ap sign_extended size
        ∙ ap (λ b. if b then bytes else bytes + (2 ^ 64 - 2 ^ 32)) (lt→ltb bytes (2 ^ 31) small) in
      let at_sp : address (malloc (sign_extended (aligned_stack_size pagesize stack_size))) ≡ sp =
        ap (λ n. address (malloc n)) same ∙ given in
      let bp : u64 (sp + bytes) ≡ sp + bytes = omega arith in
      let made =
        ap₂ (λ a n. L.make_fcontext (u64 (a + n)) n) at_sp same
        ∙ ap (λ a. L.make_fcontext a bytes) bp in
      let (low, high) = L.stack_lem (sp + bytes) bytes (omega arith) in
      record {
        size_told = size;
        lowest = ap L.lowest made ∙ omega (arith, low);
        highest = ap L.highest made ∙ high;
        freed = at_sp;
      }

  -- Let the flag stack_size be below 2 ^ 31 with three pages added. Then the constructor asks malloc
  -- for a whole number of pages, at least two of them and the bytes of the flag, and fewer than a
  -- page more than these. If the block ends below 2 ^ 64, the coroutine runs on the bytes of the
  -- block and on no others, and the destructor frees the block; but if malloc fails, the coroutine
  -- is made all the same and runs on that many bytes from address 0.
  pub new_coro-RunsOn :
      (malloc : ℕ → Option ℕ) (pagesize stack_size : ℕ) (fn : Option ℕ) (args : ℕ)
      → 0 < pagesize
      → stack_size + 3 * pagesize < 2 ^ 31
      → address (malloc (aligned_stack_size pagesize stack_size)) + 2 ^ 31 ≤ 2 ^ 64
      → (bytes : ℕ) × RunsOn
          (address (malloc bytes))
          bytes
          (new_coro L malloc pagesize stack_size fn args)
        × ((pages : ℕ) × (bytes ≡ pages * pagesize))
        × (2 * pagesize ≤ bytes)
        × (stack_size ≤ bytes)
        × (bytes < max stack_size (2 * pagesize) + pagesize)
  new_coro-RunsOn malloc pagesize stack_size fn args p small fits =
      let (pages, two, enough, few, int) = aligned_stack_size_lem pagesize stack_size p small in
      let bytes = aligned_stack_size pagesize stack_size in
      (
        bytes,
        on_address malloc pagesize stack_size fn args (address (malloc bytes)) bytes refl int refl
            (omega arith),
        pages,
        two,
        enough,
        few,
      )
