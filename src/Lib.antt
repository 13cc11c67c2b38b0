-- ===== src/Lib.antt =====
-- Verification of asio_experiments, a library of experimental asynchronous primitives over Asio.
--
-- The parts of the program and the files that model them:
--
--   * Bilist (include/asioex/detail/bilist_node.hpp): the circular doubly linked list whose nodes
--     stand inside the objects that are linked. `init`, `unlink`, `link_before` and `size` are the
--     member functions, commands on a heap (Bilist/Heap) in which each field of a node is a map from
--     addresses; a command faults (`none`) where it reads or writes an object that is not there.
--     Bilist/Chain and Bilist/Ring say what well-formed links are.
--   * ErrorCode (include/asioex/error.hpp, error_code.hpp): the codes that operations complete with.
--     ErrorCode/Message is the error category of the latches, with `message` on texts as lists of
--     bytes, and ErrorCode/Decimal the numerals in it.
--   * Semaphore (include/asioex/impl/async_semaphore_base.hpp, impl/basic_async_semaphore.hpp,
--     detail/semaphore_wait_op*.hpp): the asynchronous semaphore on that list. A `Semaphore` is the
--     state of one semaphore and of the world that it acts on: the heap of its waiting operations, the
--     callbacks in the cancellation slots, and what has been posted to the executors. `complete` is
--     `semaphore_wait_op_model::complete`, `emit` a cancellation signal that runs the callback which
--     the operation's constructor installed, and the other operations have the source's names.
--     Semaphore/Spec is the promise, an abstract counter with a queue, Semaphore/Abs relates the two,
--     and Semaphore/History takes any sequence of allowed calls.
--   * Mutex (include/asioex/mutex.hpp): the asynchronous mutex over the specification of the semaphore,
--     with the tasks that the executors hold. `enter` is the body of `async_lock`, run again with what
--     the semaphore reports; `perform` is an executor that runs a task; LockGuard is
--     `basic_lock_guard`, and `guard_of` what `async_guard` completes with. Mutex/Exclusion has the
--     histories, with a count of the locks that `try_lock` has taken, Mutex/Handover the guards that are moved and assigned. Mutex/Linked is the mutex with
--     the linked semaphore in memory; Mutex/Linked/Simulates relates it to the one over the
--     specification.
--   * Condvar (include/asioex/condition_variable.hpp): the condition variable over the same
--     specification. The predicates are functions of a state that changes between the calls; `enter`
--     is the body of `async_wait` with a predicate. Condvar/Linked is the condition variable with the
--     linked semaphore in memory.
--   * Latch (include/asioex/basic_transfer_latch.hpp, include/asioex/transaction.hpp and
--     impl/transaction.hpp): latches by address, each with the state of its mutex; locking a mutex
--     that is locked, unlocking one that is not, and a failed assertion are faults. `begin1`,
--     `commit1`, `rollback1` and `destroy1` are for `transaction1`, those with a 2 for `transaction2`.
--     Latch/Single and Latch/Pair run contenders on one latch and on two, one after the other.
--     Latch/Threads has them all at work together: a program is what is left of a thread, `act` is one
--     access to a mutex or to `transferred_`, and `Run` lets the threads act in any order. A job is one
--     transaction, or an atomic read with the number of waits after which it would block. `std::lock`
--     is one action that waits until both mutexes are free. Latch/Threads/Alone relates a thread that is
--     alone to the transaction run as a whole.
--   * Channel (test/transactions.cpp): the channel prototype on these latches: `offer` is the loop of
--     `try_send` over the objects of the operations that wait. A call of `transfer` is recorded and
--     destroys its object, and reading an object that is destroyed is a fault. Channel/Select sends
--     values on several channels, on which one operation may wait with an object for each,
--     Channel/Places follows the objects; Channel/Atomic has `atomic_transfer` and
--     `atomic_deliver`.
--   * AtomicRead (include/asioex/impl/async_read_some.hpp): `resume` is the body of `atomic_read_op`
--     from one wait for the socket to the next; the socket is a state with a function `read_some`.
--     AtomicRead/Race resumes reads that share a latch.
--   * Debug (debug/report_fatal.hpp): the handler that prints what an operation completed with. What is
--     printed is a list of bytes; an argument or a context is what `<<` writes of it, with the
--     exception that ends the writing, if any.
--   * Copy (include/asioex/copy.hpp): the call operators of `async_copy_op`, and the calls that a copy
--     makes for given reports of its source and its sink.
--   * Range (include/asioex/for.hpp): the `wait` functions of both ranges, their destructors and the
--     loop of `co_for`; a read or a destruction of a value that is not alive ends as `undefined`.
--   * Compose (include/asioex/async.hpp): coroutines as composed operations. A body is the tree of what
--     it awaits; `run` is the coroutine between its suspensions, for given ends of the awaited
--     operations, and `destroy` the promise's destructor; Asio's cancellation states are a parameter.
--     Compose/Tokens is the choice of the token for awaited operations, Compose/Frame is `operator new` and
--     `operator delete` of a frame with an allocator, Compose/Awaitable the promises behind an
--     `asio::awaitable`.
--   * AsyncOp (include/asioex/async_op.hpp): handlers and operations with erased types. An initiation
--     is the sequence of what it does with its handler; `run` gives it a `poly_handler`;
--     AsyncOp/Operation is the operation as it is called.
--   * Redirect (include/asioex/redirect_cancellation.hpp): completion handlers that learn of a
--     cancellation through a variable. `run` gives an operation the redirected handler; an operation
--     is the sequence of what it does with its handler and of the signals to the handler's slot. Asio's
--     cancellation states are a parameter, with the laws that the code relies on.
--   * Lifetime (include/asioex/bind_lifetime.hpp): objects that are shared with a completion handler.
--     `copy` and `release` count the owners, `run` is the operation with the bound handler, and
--     `initiate` makes the binder and ends with `finish`, which destroys the copies made on the way;
--     `associated` is what Asio's associators find with the binder.
--   * TickState (include/asioex/tick_state.hpp): handlers with a flag. A class of handlers is data, with
--     its bases, and `class_of` is the class of an object; `has_tick_state` is the trait.
--   * CircularBuffer (filing-cabinet/expanding_circular_buffer.hpp): the queue in an array that
--     doubles when it is full. CircularBuffer/Window reads an array round its end.
--
-- Bounds and fuel: an `int` is an integer, and an increment at its largest value is a fault. The promise
-- of the semaphore, and so Mutex and Condvar over it, have a counter without a largest value; Semaphore,
-- Mutex/Linked and Condvar/Linked have the `int`, and their theorems the bound. The loops
-- that walk the list take a number of rounds and fault, or return nothing, when it runs out; one round
-- more than there are nodes is enough. Threads need no fuel: the number of their actions is bounded. The
-- capacity of the circular buffer is a number that `grow` keeps below 2 ^ 64 by its own test.
--
-- Not modelled: Asio itself. A handler is seen through what its associators return, `asio::post` adds
-- to the list of what is posted, and a cancellation slot holds at most one callback. The address that
-- an allocator returns is an argument. Exceptions of move constructors are not modelled.
-- A second initiation of the same erased operation works on what the first has left of the stored one,
-- and is not modelled. Left out too are the concepts and traits that only constrain template arguments,
-- the macros that specialise `coroutine_traits`, `wrap_executor_type` and `associated_tick_state`, which
-- nothing uses, and the test programs but for the channel: what they define of their own are trials of
-- completion tokens and initiations over Asio's timers and groups.
pub mod Prelude
pub mod Bilist
pub mod ErrorCode
pub mod Semaphore
pub mod Mutex
pub mod Condvar
pub mod CircularBuffer
pub mod Latch
pub mod AtomicRead
pub mod Copy
pub mod Range
pub mod Compose
pub mod AsyncOp
pub mod Redirect
pub mod Lifetime
pub mod TickState
pub mod Debug
pub mod Channel
