-- ===== src/Semaphore/State.antt =====
-- The objects that include/asioex/async_semaphore.hpp and detail/semaphore_wait_op_model.hpp work on.
use asio_experiments.Prelude.{ℕ, Option, none, some, List, [], ◌∷◌, ◌++◌}
use asio_experiments.Prelude.Int.{ℤ}
use asio_experiments.ErrorCode.{ErrorCode}
use asio_experiments.Bilist.Heap.{Ptr, Heap, Cmd, update}

-- A completion handler, by what its associators give: the executor that is bound to it, if any, and
-- its cancellation slot, if that is connected.
pub record Handler : Type 0 where
  pub id : ℕ
  pub executor : Option ℕ
  pub slot : Option ℕ

-- `asio::get_associated_executor(handler, candidate)`
abbrev pub get_associated_executor : Handler → ℕ → ℕ
get_associated_executor h candidate = elim h.executor [ none ↦ candidate | some e ↦ e ]

-- What `semaphore_wait_op_model` adds to its `bilist_node`.
pub record WaitOp : Type 0 where
  pub host : Ptr
  pub work_guard : ℕ
  pub handler : Handler

-- `asio::post(executor, append(handler, ec))`
pub record Post : Type 0 where
  pub executor : ℕ
  pub handler : Handler
  pub code : ErrorCode

abbrev pub completion : WaitOp → ErrorCode → Post
completion w ec = record { executor = w.work_guard; handler = w.handler; code = ec }

-- An `async_semaphore` with the world around it: `waiters` is the address of the list head
-- `waiters_`; `slots` has the wait op whose callback a cancellation slot holds; `posted` is what has
-- been posted, oldest first.
pub record Semaphore : Type 0 where
  pub waiters : Ptr
  pub count : ℤ
  pub exec : ℕ
  pub heap : Heap WaitOp
  pub slots : ℕ → Option Ptr
  pub posted : List Post

-- `none` is a fault: undefined behaviour or a failed assertion.
abbrev pub M {ℓ} : Type ℓ → Type ℓ
M B = Semaphore → Option (B × Semaphore)

abbrev pub pure {ℓ} : {B : Type ℓ} → B → M B
pure b s = some (b, s)

abbrev pub fault {ℓ} : {B : Type ℓ} → M B
fault s = none

infixl 5 ◌>>=◌ ◌>>◌
abbrev pub ◌>>=◌ {ℓ κ} : {B : Type ℓ} {C : Type κ} → M B → (B → M C) → M C
◌>>=◌ m f s = elim (m s) [ none ↦ none | some (b, s') ↦ f b s' ]

abbrev pub ◌>>◌ {ℓ} : {C : Type ℓ} → M (Unit {0}) → M C → M C
m >> k = m >>= λ _. k

abbrev pub on_heap {ℓ} : {B : Type ℓ} → Cmd WaitOp B → M B
on_heap c s = elim (c s.heap) [ none ↦ none | some (b, h) ↦ some (b, record s { heap = h }) ]

-- `static_cast< semaphore_wait_op * >(p)` and the read that follows it.
abbrev pub load_op : Ptr → M WaitOp
load_op p s = elim (s.heap.item p) [ none ↦ none | some w ↦ some (w, s) ]

abbrev pub assign : Option ℕ → Ptr → (ℕ → Option Ptr) → ℕ → Option Ptr
assign none p f = f
assign (some k) p f = update f k (some p)

abbrev pub clear : Option ℕ → (ℕ → Option Ptr) → ℕ → Option Ptr
clear none f = f
clear (some k) f = update f k none

abbrev pub assign_slot : Option ℕ → Ptr → M (Unit {0})
assign_slot k p s = some (tt, record s { slots = assign k p s.slots })

abbrev pub clear_slot : Option ℕ → M (Unit {0})
clear_slot k s = some (tt, record s { slots = clear k s.slots })

abbrev pub post : Post → M (Unit {0})
post c s = some (tt, record s { posted = s.posted ++ (c ∷ []) })

abbrev pub get : M Semaphore
get s = some (s, s)

abbrev pub set_count : ℤ → M (Unit {0})
set_count n s = some (tt, record s { count = n })
