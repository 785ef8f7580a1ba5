-- ===== src/Lib.antt =====
-- SmartRoutine, a coroutine library in C++: worker threads run coroutines taken from bounded
-- queues over one shared list; a coroutine that waits for a descriptor is put on the list again
-- by the epoll thread; a timer thread fires callbacks; TCP sockets stand on top.
--
-- The parts and their files, with the sources from the repository's root:
-- * BoundedQueue (include/common/bounded_queue.h): the ring. BoundedQueue/Refine relates it to a
--   list, which BoundedQueue/Unique shows to be the only one, BoundedQueue/Fifo to a bounded
--   first-in first-out list over sequences of calls.
-- * ErrorCode (include/common/error_code.h): the codes and their texts.
-- * DynamicBuffer (src/common/dynamic_buffer.cpp, include/common/dynamic_buffer.h): the heap
--   block with its indices and capacity; DynamicBuffer/Holds is its invariant, Append and Consume
--   the operations. An access outside the block has no result.
-- * Runtime (src/smart_runtime.cpp): push_task, get_tasks and wait_on_task_list on the shared
--   list, each one critical section. Runtime/Lifecycle is the one instance, with the threads that
--   init creates and the destructor joins.
-- * Thread (src/smart_thread.cpp): get_task and push_task, the queue of a thread over that list.
-- * Scheduler (src/smart_thread.cpp, src/smart_routine.cpp, resume_read_coro and the delayed
--   callbacks of src/internal/smart_routine_impl.cpp): one worker as a state, World, and the
--   functions yield, turn (a round of main_loop), finish (the end of coro_runner), switch_to,
--   smart_routine_start and resume_coro on it. Scheduler/Steps has the relation of its
--   transitions in any order; Scheduler/Balance counts where each coroutine is, Arrive and Start
--   keep that count over single operations, Moves over each transition, Safety over all; Mains is
--   about main_coro_; Lost is about the delayed callback in yield, Round and Drain about rounds
--   whose coroutines run to their end without a call of the library.
-- * Cluster (src/smart_runtime.cpp, src/smart_thread.cpp): any number of workers over one shared
--   list, as an interleaving of their transitions. What is one transition in Scheduler, a round
--   or a yield, is two here, the taking of tasks and the going on to one, each with at most one
--   critical section of the list (Cluster/Phases). Cluster/Shared is the count over all of them
--   and what each worker sees of the others, Cluster/Moves keeps it over a transition,
--   Cluster/Safety over all; Cluster/Lost is about the delayed callback in yield,
--   Cluster/Elsewhere is about a coroutine that returns on another worker than it started on.
-- * Coro (src/smart_coro.cpp, include/smart_coro.h): a coroutine with its stack and its context
--   of libcontext, which is an interface; Coro/Stack says which bytes it runs on.
-- * Search (partial_search of src/internal/smart_routine_impl.cpp): Search/Spec says what it
--   finds, Search/Chunks what that tells of bytes that arrive in chunks.
-- * ReadUntil (smart_read_until_impl of the same file, over DynamicBuffer and Search):
--   ReadUntil/Delivers is one event, ReadUntil/Resumes a whole smart_read_until.
-- * Io (smart_read_impl, smart_write_impl, smart_connect_impl and smart_accept_impl of the same
--   file, and the ends of the calls in src/smart_routine.cpp): Io/Ints the counts that are kept
--   in an int, Io/Transfers reads, Io/Writes writes, Io/Accepts accepts.
-- * Callbacks (set_read_callback and set_write_callback, as src/smart_routine.cpp uses them): the
--   calls of a readiness callback up to the one that resumes its coroutine.
-- * Suspension (the same calls, with src/epoll_item.cpp and src/smart_epoller.cpp): a coroutine
--   between its yield and its resumption, over the epoll item, the readiness callback and the
--   shared list. Suspension/Once follows it over any events, Suspension/Rounds over the rounds of
--   the event loop, Suspension/Taken a second call for its descriptor.
-- * Api (src/smart_routine.cpp): the calls on a worker, each a Suspension with its callback and
--   its end, and outside one, where they are the system's. Api/Awaited says how a suspended call
--   settles, Api/Ends how smart_read, smart_accept and smart_connect end, Api/Streams how
--   smart_write and smart_read_until do, Api/Cut how smart_read_until does when the stream ends
--   first, Api/Sockets what smart_socket sets.
-- * Timer (src/smart_timer.cpp): set_timer, set_timer_after, set_timer_until and a round of run.
--   Timer/Due is one round, Timer/Bag a sequence of calls and rounds, Timer/Clock the time scale.
--   Timer/Loop is the timer thread, Timer/OnTime says when it fires what.
-- * Socket (src/tcp_socket.cpp, src/acceptor.cpp): flags, error codes and descriptors.
--   Socket/Owns follows the descriptors of one object; Socket/Store is several objects with the
--   descriptors that the kernel has open, Socket/Owners counts who owns one, Socket/Unique says
--   who does. Socket/Reports what a caller is told. Socket/Transfers is read, read_until and
--   write over the public API, Socket/Dials is open, connect and accept over it, with the peer's
--   endpoint, Socket/Codes the error codes by lists, Socket/Peers how the last two end,
--   Socket/Dialled a socket that is opened and connected. Socket/Streams is what transfers give,
--   Socket/Exchange two of them at the ends of a connection.
-- * Buffer (include/common/const_buffer.h, include/common/mutable_buffer.h,
--   src/common/buffer.cpp): the memory that these calls are lent.
-- * EPoller (src/smart_epoller.cpp, src/epoll_item.cpp, include/epoll_item.h): the events of an
--   item, its registration with an epoll instance (the interface Epoll, with the laws of
--   epoll_ctl when it succeeds and of EEXIST), and a round of the event loop. EPoller/Watches is
--   the registration, EPoller/Batches the events of a round, EPoller/Rounds two rounds.
--   EPoller/Loop is the epoller from its constructor over init and eventloop, as run_epoller of
--   src/smart_runtime.cpp calls them, to its destructor; EPoller/Served is what that thread
--   calls. EPoller/Lifetime is handle_events test by test, with workers that run the resumed
--   coroutine between the tests, EPoller/Outlived says which items they can take from it.
-- * Endpoint (src/endpoint.cpp, src/address.cpp): addresses and ports in network byte order
--   (Endpoint/Ports) and their texts (Endpoint/Texts).
-- Prelude holds the shared names, tests and list lemmas; a Tests module beside each part runs it.
--
-- Conventions. 32-bit and 64-bit arithmetic wraps (u32, u64, sub_u64). The results of system
-- calls, the clock, inet_pton and inet_ntop are arguments. Loops are structural recursion, so
-- there is no fuel, but that a port is printed with at most 5 digits, which is enough below
-- 65536. A queue has fewer than 2 ^ 32 slots, buffers searched are shorter than 2 ^ 32, and a
-- batch of tasks is no larger than the thread's queue, as the defaults of the flags (10 and 25)
-- are.
--
-- The epoll thread: after an interrupted epoll_wait it handles the items of its last batch again,
-- and it can handle an event between epoll_ctl and set_watching of watch_event. EPoller/Rounds,
-- EPoller/Served and Suspension/Rounds have the first; in the transitions of Scheduler and
-- Cluster both are a resumption of a coroutine that is not watched. Theorems that do not hold
-- then say that it has not happened: orderly (only watched coroutines have been resumed) in
-- Scheduler and Cluster, uninterrupted in Suspension/Rounds. The events of a call in Api and
-- Socket come in rounds that are not interrupted. A read or a write moves fewer than 2 ^ 31 bytes
-- at once, as on Linux; more do not fit the int of the readiness callbacks, and have no result.
--
-- Not modelled: an event between the two halves of enabling an item, as steps of watch_event;
-- what follows when a coroutine has returned on another worker than it started on (there two
-- threads run one main_loop); failures of epoll_ctl other than EEXIST, and of the creation of
-- threads; the vendored context switch (src/internal/libcontext.cpp), which is the move to a
-- saved point; logging.
pub mod Prelude
pub mod BoundedQueue
pub mod Buffer
pub mod ErrorCode
pub mod DynamicBuffer
pub mod Runtime
pub mod Coro
pub mod Thread
pub mod Scheduler
pub mod Cluster
pub mod Search
pub mod Callbacks
pub mod ReadUntil
pub mod Io
pub mod Suspension
pub mod Api
pub mod Timer
pub mod Socket
pub mod Endpoint
pub mod EPoller
