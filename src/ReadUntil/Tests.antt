-- ===== src/ReadUntil/Tests.antt =====
-- A delimiter that arrives in two parts, for `smart_read_until_impl` of
-- src/internal/smart_routine_impl.cpp.
use mathlib.Core.Option
use smart_routine.Prelude.{ℕ, ◌≡◌, refl, Bool, some, true, [], ◌∷◌}
use smart_routine.DynamicBuffer
use smart_routine.DynamicBuffer.{
  append, write_section, writable_bytes, store, load, read_buffer, readable_bytes,
}
use smart_routine.ErrorCode.{fail}
use smart_routine.Search.{stop, test_from, answer, search_from, partial_search}
use smart_routine.Callbacks.{callbacks}
use smart_routine.ReadUntil.{
  received, failed, ewouldblock, ReadUntilContext, new, values, unsearched, searched, take_in,
  smart_read_until_impl,
}

-- The last read is not needed.
two_parts_run :
    Option.map {B = ℕ × Bool}
      (λ (out : ReadUntilContext × Bool). (out.0.ret, out.1))
      (callbacks
        (smart_read_until_impl 4)
        (received (7 ∷ 13 ∷ [])
          ∷ failed ewouldblock
          ∷ received (10 ∷ 8 ∷ [])
          ∷ received (9 ∷ [])
          ∷ [])
        (new (DynamicBuffer.new 16 8) (13 ∷ 10 ∷ [])))
    ≡ some (4, true)
unfolding callbacks smart_read_until_impl take_in append write_section writable_bytes store load
    read_buffer readable_bytes DynamicBuffer.new new values unsearched searched partial_search
    search_from test_from stop answer fail
two_parts_run = refl
