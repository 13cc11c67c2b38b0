-- ===== src/Semaphore.antt =====
-- include/asioex/impl/async_semaphore_base.hpp, impl/basic_async_semaphore.hpp and
-- detail/impl/semaphore_wait_op_model.hpp: the operations of an asynchronous semaphore.
pub mod State
pub mod Spec
pub mod Abs
pub mod Complete
pub mod Release
pub mod Drain
pub mod Acquire
pub mod Cancel
pub mod Make
pub mod Ledger
pub mod History
mod Tests
use Prim.Native.Nat.{bit_and, bit_or}
use asio_experiments.Prelude.{
  ℕ, zero, suc, ◌+◌, ◌-◌, ◌%◌, ◌^◌, Bool, true, false, not, Option, none, some, List, [], ltb, ◌==◌,
  if◌then◌else◌,
}
use asio_experiments.Prelude.Int.{
  ℤ, pos, negsuc, inc, dec, is_pos, non_zero, is_int_max, sub_int, to_int,
}
use asio_experiments.ErrorCode.{ErrorCode, success, operation_aborted}
use asio_experiments.Bilist.{init, unlink, link_before, size}
use asio_experiments.Bilist.Heap.{Ptr, Heap, get_next, free, update}
use State.{
  Handler, get_associated_executor, WaitOp, Post, completion, Semaphore, M, pure, fault, ◌>>=◌,
  ◌>>◌, on_heap, load_op, assign_slot, clear_slot, post, get, set_count,
}

-- `async_semaphore_base(initial_count)` with the default executor `exec`, at the address `at`.
unfoldable pub make : Ptr → ℕ → ℤ → Semaphore
make at exec initial_count = record {
  waiters = at;
  count = initial_count;
  exec = exec;
  heap = record {
    next = update (λ _. none) at (some at);
    prev = update (λ _. none) at (some at);
    item = λ _. none;
  };
  slots = λ _. none;
  posted = [];
}

-- `semaphore_wait_op_model::complete`: the slot is cleared, the node unlinked and destroyed, and the
-- handler posted. What is moved out of the object is read before the object goes.
pub complete : Ptr → ErrorCode → M (Unit {0})
complete this ec = do
  w ← load_op this
  clear_slot w.handler.slot
  on_heap (unlink this)
  on_heap (free this)
  post (completion w ec)

-- The bits of `asio::cancellation_type`.
abbrev pub terminal : ℕ
terminal = 1

abbrev pub partial : ℕ
partial = 2

abbrev pub total : ℕ
total = 4

abbrev pub cancels : ℕ → Bool
cancels type = not (bit_and type (bit_or (bit_or terminal partial) total) == 0)

-- The callback that the constructor puts in the cancellation slot.
on_cancel : Ptr → ℕ → M (Unit {0})
unfolding complete
on_cancel this type = if cancels type then complete this operation_aborted else pure tt

-- A cancellation signal is emitted: a slot that holds a callback calls it.
pub emit : ℕ → ℕ → M (Unit {0})
unfolding on_cancel
emit slot type s = elim (s.slots slot) [ none ↦ pure tt s | some p ↦ on_cancel p type s ]

-- `semaphore_wait_op_model::construct` and its constructor, in storage at `mem`.
pub construct : Ptr → Ptr → ℕ → Handler → M (Unit {0})
construct mem host e handler = do
  on_heap (init mem (some (record { host = host; work_guard = e; handler = handler })))
  assign_slot handler.slot mem

pub add_waiter : Ptr → M (Unit {0})
add_waiter waiter = do s ← get; on_heap (link_before waiter s.waiters)

pub decrement : M ℤ
decrement = do
  s ← get
  if is_pos s.count then (do set_count (dec s.count); pure (dec s.count)) else fault

-- An `int` that is at its largest value cannot be incremented.
pub increment : M (Unit {0})
increment = do s ← get; if is_int_max s.count then fault else set_count (inc s.count)

unfoldable pub release : M (Unit {0})
unfolding decrement increment
release = do
  increment
  s ← get
  next ← on_heap (get_next s.waiters)
  if next == s.waiters
      then pure tt
      else do _ ← decrement; front ← on_heap (get_next s.waiters); complete front success

-- `while (nx != &waiters_) complete(ec)`, with the number of rounds; a fault where the fuel runs out.
drain : ℕ → ErrorCode → ℕ → M ℕ
drain zero ec sz = fault
drain (suc fuel) ec sz = do
  s ← get
  nx ← on_heap (get_next s.waiters)
  if nx == s.waiters then pure sz else do complete nx ec; drain fuel ec (sz + 1)

pub release_all : ℕ → M ℕ
unfolding drain
release_all fuel = drain fuel success 0

-- `~async_semaphore_base`
pub destroy : ℕ → M (Unit {0})
unfolding drain
destroy fuel = do _ ← drain fuel operation_aborted 0; pure tt

pub value : ℕ → M ℤ
value fuel = do
  s ← get
  next ← on_heap (get_next s.waiters)
  if next == s.waiters
      then pure s.count
      else do sz ← on_heap (size fuel s.waiters); pure (sub_int s.count (to_int sz))

pub try_acquire : M Bool
try_acquire = do
  s ← get
  if is_pos s.count then (do set_count (dec s.count); pure true) else pure false

-- How the initiation of `async_acquire` ends.
pub data Initiated : Type 0 where
  immediate : Initiated
  waiting : Ptr → Initiated
  bad_alloc : Initiated

-- The path of `async_acquire` on which the caller has to wait; `mem` is what the handler's allocator
-- returns, `none` where it throws.
enqueue : Option Ptr → Ptr → ℕ → Handler → M Initiated
unfolding construct add_waiter
enqueue none host e handler = pure bad_alloc
enqueue (some model) host e handler = do
  construct model host e handler
  add_waiter model
  pure (waiting model)

pub async_acquire : Option Ptr → Handler → M Initiated
unfolding decrement enqueue
async_acquire mem handler = do
  s ← get
  let e = get_associated_executor handler s.exec
  if non_zero s.count
      then (do
        _ ← decrement
        post (record { executor = e; handler = handler; code = success })
        pure immediate)
      else enqueue mem s.waiters e handler
