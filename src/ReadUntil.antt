-- ===== src/ReadUntil.antt =====
-- `smart_read_until_impl` of src/internal/smart_routine_impl.cpp: the read callback behind
-- `smart_read_until`, once per readiness event, with `ReadUntilContext` of
-- include/internal/smart_routine_impl.h. What the system call `read` returns is an argument.
-- `int` is kept modulo 2 ^ 32, so -1 is `minus_one`. `resume_read_coro` is the result `true`.

pub mod Delivers
pub mod Resumes
mod Tests
use smart_routine.Prelude.{
  ℕ, ◌+◌, ◌-◌, ◌^◌, Bool, true, false, not, ◌&&◌, Option, none, some, List, [], ◌∷◌, if◌then◌else◌,
  length, drop, ◌==◌, leb, u32, u64,
}
use smart_routine.ErrorCode.{ErrorCode, fail, success}
use smart_routine.DynamicBuffer.{DynamicBuffer, Byte, append, read_buffer, ◌>>=◌}
use smart_routine.Search.{PartialSearchResult, match_at, partial_match, not_match, partial_search}

-- What `read` returns: the bytes it put in the buffer (none at the end of file), or -1 with `errno`.
pub data ReadResult : Type 0 where
  received : List ℕ → ReadResult
  failed : ℕ → ReadResult

abbrev pub ewouldblock : ℕ
ewouldblock = 11

abbrev pub minus_one : ℕ
minus_one = 2 ^ 32 - 1

pub record ReadUntilContext : Type 0 where
  pub buffer : DynamicBuffer
  pub delim : List ℕ
  pub ec : ErrorCode
  pub ret : ℕ
  pub last_search_end : ℕ

-- The constructor.
unfoldable pub new : DynamicBuffer → List ℕ → ReadUntilContext
new buffer delim = record {
  buffer = buffer;
  delim = delim;
  ec = success;
  ret = 0;
  last_search_end = 0;
}

-- The values of bytes; one that was never written has none.
unfoldable pub values : List Byte → Option (List ℕ)
values [] = some []
values (none ∷ bytes) = none
values (some x ∷ bytes) = do xs ← values bytes; some (x ∷ xs)

-- The bytes from `data() + last_search_end_` on; there is no result when that is past the end.
unfoldable pub unsearched : List ℕ → ℕ → Option (List ℕ)
unsearched bytes last_search_end =
    if leb last_search_end (length bytes) then some (drop last_search_end bytes) else none

-- The `switch` on what the search of `size` bytes found.
unfoldable pub searched :
    PartialSearchResult × ℕ → ℕ → ReadUntilContext → Bool → ReadUntilContext × Bool
searched (match_at, i) size context need_resume = (context, true)
searched (partial_match, i) size context need_resume =
    (record context { last_search_end = u64 (context.last_search_end + i) }, need_resume)
searched (not_match, i) size context need_resume =
    (record context { last_search_end = size }, need_resume)

-- The branch `ret > 0`.
unfoldable pub take_in : ℕ → List ℕ → ReadUntilContext → Option (ReadUntilContext × Bool)
take_in threshold bytes context = do
  (buffer, ec) ← append threshold context.buffer bytes context.ec
  let ret = if fail ec then minus_one else u32 (context.ret + length bytes)
  span ← read_buffer buffer
  const_buffer ← values span
  search_buffer ← unsearched const_buffer context.last_search_end
  let result = partial_search search_buffer context.delim
  let context' = record context { buffer = buffer; ec = ec; ret = ret }
  some (searched result (length const_buffer) context' (fail ec))

unfoldable pub smart_read_until_impl :
    ℕ → ReadResult → ReadUntilContext → Option (ReadUntilContext × Bool)
unfolding take_in
smart_read_until_impl threshold (received []) context = some (context, true)
smart_read_until_impl threshold (received (x ∷ xs)) context = take_in threshold (x ∷ xs) context
smart_read_until_impl threshold (failed errno) context =
    if errno == ewouldblock
    then some (context, false)
    else some (record context { ret = minus_one }, true)
