-- ===== src/Socket/Exchange.antt =====
-- Two coroutines of src/tcp_socket.cpp at the ends of one connection.
use smart_routine.Prelude.{
  ℕ, ◌≤◌, ◌<◌, ◌^◌, ◌≡◌, ap, ap₂, subst, ◌∙◌, Bool, true, none, some, List, ◌++◌, length, take,
  drop, map, arith, ◌==◌, ==_refl, length-take,
}
use smart_routine.Buffer.{MutableBuffer, ConstBuffer}
use smart_routine.DynamicBuffer.{Byte}
use smart_routine.ErrorCode.{ErrorCode}
use smart_routine.Runtime.{Coro, SmartRuntime}
use smart_routine.EPoller.{Epoll}
use smart_routine.ReadUntil.{ReadResult}
use smart_routine.ReadUntil.Resumes.{IsFlowing, arrived}
use smart_routine.Io.{CallResult, new_write}
use smart_routine.Io.Ints.{few_arrived}
use smart_routine.Io.Writes.{few_written, written, IsSending, taken}
use smart_routine.Suspension.{reading, writing}
use smart_routine.Suspension.Once.{results}
use smart_routine.Api.Streams.{Gives}
use smart_routine.Socket.Transfers.{bytes_at, read, write}
use smart_routine.Socket.Streams.{connected_socket, as_ssize, write-sent, read-arrived}

as_ssize_small : (n : ℕ) → n < 2 ^ 31 → as_ssize n ≡ n
as_ssize_small n small = ground arith

module _ (E : Epoll) (writer reader : Coro) (fd fd' : ℕ) (k k' : E.K)
    (runtime runtime' : SmartRuntime) (vacant : E.interest k fd ≡ none)
    (vacant' : E.interest k' fd' ≡ none) (errno errno' : ℕ) where
  -- One coroutine writes a buffer of below 2 ^ 31 bytes to its connected socket, in writes that
  -- take at least one byte each and in the end all of them; another reads as many bytes from its
  -- own, where the bytes taken arrive in order, in parts of any size; neither descriptor is
  -- registered before, and no epoll_wait is interrupted. Then both return, each to the end of the
  -- shared list, with the number of bytes, and the reader's memory begins with the bytes of the
  -- writer's buffer and goes on as it was.
  pub write-read :
      (bound bound' : Bool) (sent : ConstBuffer ℕ) (buffer : MutableBuffer Byte)
      (ec ec' : ErrorCode) (r : CallResult) (r' : ReadResult) (es : List (ℕ × CallResult))
      (es' : List (ℕ × ReadResult))
      → IsSending (results writing es)
      → written (results writing es) ≡ sent.size
      → sent.size ≤ length (bytes_at sent.data_of)
      → 0 < sent.size
      → sent.size < 2 ^ 31
      → buffer.size ≡ sent.size
      → buffer.size ≤ length (bytes_at buffer.data_of)
      → IsFlowing (results reading es')
      → arrived (results reading es')
        ≡ taken (results writing es) (new_write (bytes_at sent.data_of) sent.size)
      → Gives E writer fd k runtime vacant errno true sent.size
          (write E (connected_socket fd bound) sent ec (some writer) es r errno k runtime).0
        × Gives E reader fd' k' runtime' vacant' errno' {A = List Byte × ℕ} true
            (
              map some (take sent.size (bytes_at sent.data_of))
                  ++ drop sent.size (bytes_at buffer.data_of),
              sent.size,
            )
            (read E
              (connected_socket fd' bound')
              buffer
              ec'
              (some reader)
              es'
              r'
              errno'
              k'
              runtime').0
  write-read bound bound' sent buffer ec ec' r r' es es' sending all enough p small same room
        flowing delivered =
      let n = sent.size in
      let (bytes, (wrote, _)) =
        write-sent E writer fd k runtime vacant errno bound sent ec r es sending
          (few_written (results writing es) (omega arith)) p (omega arith) (omega arith) in
      let carried : arrived (results reading es') ≡ take n (bytes_at sent.data_of) =
        delivered ∙ bytes ∙ ap (λ i. take i (bytes_at sent.data_of)) all in
      let whole : length (arrived (results reading es')) ≡ n =
        ap length carried ∙ omega (arith, length-take n (bytes_at sent.data_of)) in
      let (got, _) =
        read-arrived E reader fd' k' runtime' vacant' errno' bound' buffer ec' r' es' flowing
          (few_arrived (results reading es') (omega arith)) (omega arith) (omega arith) room
          (omega arith) in
      let xs = arrived (results reading es') in
      let memory = bytes_at buffer.data_of in
      let result : (map some xs ++ drop (length xs) memory, as_ssize (length xs))
          ≡ (map some (take n (bytes_at sent.data_of)) ++ drop n memory, n) =
        ap₂ (λ ys m. (map some ys ++ drop m memory, as_ssize m)) carried whole
        ∙ ap (λ m. (map some (take n (bytes_at sent.data_of)) ++ drop n memory, m))
            (as_ssize_small n small) in
      (
        subst
            (λ m.
              Gives E writer fd k runtime vacant errno true m
                (write E (connected_socket fd bound) sent ec (some writer) es r errno k runtime).0)
            (as_ssize_small n small)
            (subst
              (λ b.
                Gives E writer fd k runtime vacant errno b (as_ssize n)
                  (write E (connected_socket fd bound) sent ec (some writer) es r errno k
                    runtime).0)
              (ap (λ w. w == n) all ∙ ==_refl n) wrote),
        subst
            (λ (out : List Byte × ℕ).
              Gives E reader fd' k' runtime' vacant' errno' true out
                (read E (connected_socket fd' bound') buffer ec' (some reader) es' r' errno' k'
                  runtime').0)
            result
            (subst
              (λ b.
                Gives E reader fd' k' runtime' vacant' errno' {A = List Byte × ℕ} b
                  (map some xs ++ drop (length xs) memory, as_ssize (length xs))
                  (read E (connected_socket fd' bound') buffer ec' (some reader) es' r' errno' k'
                    runtime').0)
              (ap₂ ◌==◌ whole same ∙ ==_refl n) got),
      )
