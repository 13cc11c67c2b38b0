-- ===== src/Bilist.antt =====
-- include/asioex/detail/bilist_node.hpp: the circular doubly linked list that a node is in.
pub mod Heap
pub mod Chain
pub mod Ring
pub mod Unlink
pub mod Link
pub mod Size
mod Tests
use asio_experiments.Prelude.{ℕ, zero, suc, ◌+◌, Option, none, some, ◌==◌, if◌then◌else◌}
use Heap.{Ptr, Cmd, pure, ◌>>=◌, ◌>>◌, get_next, get_prev, set_next, set_prev, alloc}

module _ {ℓ} {A : Type ℓ} where
  -- `bilist_node()`: the object at `p` begins as a ring of itself.
  unfoldable pub init : Ptr → Option A → Cmd A (Unit {0})
  init p a = alloc p a

  unfoldable pub unlink : Ptr → Cmd A (Unit {0})
  unlink this = do p ← get_prev this; n ← get_next this; set_prev n p; set_next p n

  unfoldable pub link_before : Ptr → Ptr → Cmd A (Unit {0})
  link_before this next = do
    set_next this next
    before ← get_prev next
    set_prev this before
    p ← get_prev this
    set_next p this
    set_prev next this

  -- The walk of `size` from `p`; `none` also where the rounds run out.
  size_loop : ℕ → Ptr → Ptr → ℕ → Cmd A ℕ
  size_loop zero this p sz = λ _. none
  size_loop (suc k) this p sz =
      if p == this then pure sz else do q ← get_next p; size_loop k this q (sz + 1)

  unfoldable pub size : ℕ → Ptr → Cmd A ℕ
  unfolding size_loop
  size fuel this = do p ← get_next this; size_loop fuel this p 0
