-- ===== src/Api/Tests.antt =====
-- Calls of src/smart_routine.cpp on a worker, for a few events.
use smart_routine.Prelude.{
  ℕ, ◌≡◌, refl, Bool, true, false, ◌==◌, length-drop, take, some, none, Option, List, [], ◌∷◌,
  arith,
}
use smart_routine.ErrorCode.{success, exceed_buffer_bound}
use smart_routine.DynamicBuffer.{Byte, DynamicBuffer}
use smart_routine.DynamicBuffer
use smart_routine.DynamicBuffer.Holds.{Holds, IsValid, Holds-new}
use smart_routine.Search.Spec.{no_room}
use smart_routine.Search.Chunks.{Occurs}
use smart_routine.Callbacks.{callbacks}
use smart_routine.ReadUntil.{
  ReadResult, smart_read_until_impl, ReadUntilContext, received, failed, ewouldblock,
}
use smart_routine.ReadUntil.Resumes.{Ends, IsFlowing, some_bytes, spurious, silent}
use smart_routine.Runtime.{SmartRuntime}
use smart_routine.EPoller.{epollin, epollout}
use smart_routine.EPoller.Table.{table}
use smart_routine.Io.{CallResult, new_write, returned, refused, minus_one}
use smart_routine.Suspension.{reading, writing}
use smart_routine.Suspension.Once.{results}
use smart_routine.Api.{
  Called, smart_read, smart_write, smart_read_until, smart_socket, new_flags, after_getfl,
  after_setfl, system_call,
}
use smart_routine.Api.Ends.{Returned, smart_read-arrived, smart_read_ends}
use smart_routine.Io.Writes.{written, taken}
use smart_routine.Io.Writes
use smart_routine.Api.Streams.{Gives, smart_write-sent, smart_write-nothing, smart_read_until-Ends}
use smart_routine.Api.Cut.{smart_read_until_ends}
use smart_routine.ReadUntil

abbrev nothing_watched : ℕ → Option ℕ
nothing_watched fd = none

abbrev shared : SmartRuntime
shared = record { task_list = 4 ∷ [] }

abbrev memory : List Byte
memory = none ∷ none ∷ none ∷ []

abbrev reads : List (ℕ × ReadResult)
reads =
    (epollin, received (7 ∷ [])) ∷ (epollin, failed ewouldblock) ∷ (epollin, received (8 ∷ [])) ∷ []

reads-IsFlowing : IsFlowing (results reading reads)
reads-IsFlowing = some_bytes 7 [] (spurious (some_bytes 8 [] silent))

smart_read-arrived_example :
    (a : Called table (List Byte × ℕ)) × (smart_read table
        (some 5)
        3
        memory
        2
        reads
        (received [])
        0
        nothing_watched
        shared
      ≡ some a)
    × (a.outcome ≡ some ((some 7 ∷ some 8 ∷ none ∷ [], 2), 0))
    × (a.runtime.task_list ≡ 4 ∷ 5 ∷ [])
smart_read-arrived_example =
    smart_read-arrived table 5 3 nothing_watched shared refl 0 memory 2 (omega arith) (omega arith)
      (omega arith) (received []) reads reads-IsFlowing refl (omega arith)

abbrev reads_to_end : List (ℕ × ReadResult)
reads_to_end = (epollin, received (7 ∷ [])) ∷ (epollin, received []) ∷ []

abbrev reads_to_error : List (ℕ × ReadResult)
reads_to_error = (epollin, received (7 ∷ [])) ∷ (epollin, failed 104) ∷ []

smart_read_ends_example :
    ((buf' : List Byte) × Returned table 5 3 nothing_watched shared refl 0
        (buf', 1)
        0
        (smart_read table (some 5) 3 memory 2 reads_to_end (received []) 0 nothing_watched shared))
    × ((buf' : List Byte) × Returned table 5 3 nothing_watched shared refl 0
          (buf', minus_one)
          0
          (smart_read table
            (some 5)
            3
            memory
            2
            reads_to_error
            (received [])
            0
            nothing_watched
            shared))
smart_read_ends_example =
    smart_read_ends table 5 3 nothing_watched shared refl 0 memory 2 (omega arith) (omega arith)
      (omega arith) (received []) reads_to_end reads_to_error (received (7 ∷ []) ∷ []) 104 refl refl
      (some_bytes 7 [] silent) refl (omega arith) (λ e. absurd (omega arith))

abbrev writes : List (ℕ × CallResult)
writes = (epollout, returned 1) ∷ (epollout, refused ewouldblock) ∷ (epollout, returned 2) ∷ []

smart_write-sent_example :
    (taken (results writing writes) (new_write (5 ∷ 6 ∷ 7 ∷ []) 3)
      ≡ take (written (results writing writes)) (5 ∷ 6 ∷ 7 ∷ []))
    × Gives table 5 3 nothing_watched shared refl 0 (written (results writing writes) == 3) 3 (
        smart_write table
          (some 5)
          3
          (5 ∷ 6 ∷ 7 ∷ [])
          3
          writes
          (returned 0)
          0
          nothing_watched
          shared)
smart_write-sent_example =
    smart_write-sent table 5 3 nothing_watched shared refl 0 (5 ∷ 6 ∷ 7 ∷ []) 3 (returned 0) writes
      (Writes.IsSending.some_bytes 0
        (Writes.IsSending.spurious (Writes.IsSending.some_bytes 1 Writes.IsSending.silent)))
      refl (omega arith) (omega arith) (omega arith)

smart_write-nothing_example : Gives table 5 3 nothing_watched shared refl 0 false 0 (
    smart_write table
      (some 5)
      3
      []
      0
      ((epollout, returned 0) ∷ (epollout, returned 0) ∷ [])
      (returned 0)
      0
      nothing_watched
      shared)
smart_write-nothing_example =
    smart_write-nothing table 5 3 nothing_watched shared refl 0 [] (returned 0)
      ((epollout, returned 0) ∷ (epollout, returned 0) ∷ [])
      (Writes.IsVoid.zero_bytes (Writes.IsVoid.zero_bytes Writes.IsVoid.silent))

abbrev delim : List ℕ
delim = 13 ∷ 10 ∷ []

abbrev empty_buffer : DynamicBuffer
empty_buffer = DynamicBuffer.new 16 8

empty-IsValid : IsValid empty_buffer
unfolding DynamicBuffer.new
empty-IsValid = record {
  covers = omega arith;
  bounded = omega arith;
  small = omega arith;
  max_small = omega arith;
}

delim_missing : ¬ Occurs delim []
delim_missing (k, p) = no_room delim _ (omega (arith, length-drop {A = ℕ} k [])) p

-- The delimiter arrives in two parts.
abbrev parts : List (ℕ × ReadResult)
parts =
    (epollin, received (7 ∷ 13 ∷ []))
    ∷ (epollin, failed ewouldblock)
    ∷ (epollin, received (10 ∷ 8 ∷ []))
    ∷ (epollin, received (9 ∷ []))
    ∷ []

smart_read_until-Ends_example :
    (out : ReadUntilContext × Bool) × (callbacks
        (smart_read_until_impl 4)
        (results reading parts)
        (ReadUntil.new empty_buffer delim)
      ≡ some out)
    × Ends delim [] 0 (results reading parts) out
    × Gives table 5 3 nothing_watched shared refl 0 out.1
        (out.0.buffer, out.0.ret, success)
        (smart_read_until table 4
          (some 5)
          3
          empty_buffer
          delim
          parts
          success
          0
          nothing_watched
          shared)
unfolding DynamicBuffer.new
smart_read_until-Ends_example =
    smart_read_until-Ends table 5 3 nothing_watched shared refl 0 4 empty_buffer delim [] parts
      success (Holds-new 16 8) empty-IsValid (λ e. cc) delim_missing
      (some_bytes 7 (13 ∷ []) (spurious (some_bytes 10 (8 ∷ []) (some_bytes 9 [] silent))))
      (omega arith) (omega arith)

one_byte_missing : ¬ Occurs delim (7 ∷ [])
one_byte_missing (k, p) = no_room delim _ (omega (arith, length-drop {A = ℕ} k (7 ∷ []))) p

smart_read_until_ends_example :
    (buffer' : DynamicBuffer) × Holds buffer' (7 ∷ [])
    × Gives table 5 3 nothing_watched shared refl 0 true
        (buffer', 1, exceed_buffer_bound)
        (smart_read_until table 4
          (some 5)
          3
          empty_buffer
          delim
          reads_to_end
          exceed_buffer_bound
          0
          nothing_watched
          shared)
    × Gives table 5 3 nothing_watched shared refl 0 true
        (buffer', ReadUntil.minus_one, success)
        (smart_read_until table 4
          (some 5)
          3
          empty_buffer
          delim
          reads_to_error
          exceed_buffer_bound
          0
          nothing_watched
          shared)
unfolding DynamicBuffer.new
smart_read_until_ends_example =
    smart_read_until_ends table 5 3 nothing_watched shared refl 0 4 empty_buffer delim []
      reads_to_end reads_to_error (received (7 ∷ []) ∷ []) 104 exceed_buffer_bound (Holds-new 16 8)
      empty-IsValid (λ e. cc) one_byte_missing refl refl (some_bytes 7 [] silent)
      (λ e. absurd (omega arith)) (omega arith) (omega arith)

-- A socket on which fcntl fails is returned.
unset_socket_is_returned :
    smart_socket (some 5) (returned 3) (returned 2) (refused 9) 0 ≡ ((some 3, 9), some 2050)
unfolding smart_socket new_flags after_getfl after_setfl system_call
unset_socket_is_returned = refl
