-- ===== src/Bilist/Size.antt =====
-- `bilist_node::size` on the head of a ring.
use asio_experiments.Prelude.{
  ℕ, zero, suc, ◌+◌, ◌<◌, ◌≡◌, false, some, List, [], ◌∷◌, arith, has, length,
}
use asio_experiments.Bilist.{size_loop, size}
use asio_experiments.Bilist.Heap.{Ptr, Heap}
use asio_experiments.Bilist.Chain.{Chain}
use asio_experiments.Bilist.Ring.{Ring}

module _ {ℓ} {A : Type ℓ} where
  size_loop-length :
      (h : Heap A) (s : Ptr) (k : ℕ) (p : Ptr) (xs : List Ptr) (sz : ℕ)
      → Chain h p xs s
      → has s (p ∷ xs) ≡ false
      → suc (length xs) < k
      → size_loop k s p sz h ≡ some (sz + suc (length xs), h)
  unfolding size_loop
  size_loop-length h s zero p xs sz c out fuel = absurd (omega arith)
  size_loop-length h s (suc zero) p xs sz c out fuel = absurd (omega arith)
  size_loop-length h s (suc (suc k)) p [] sz c out fuel = ground arith
  size_loop-length h s (suc (suc k)) p (x ∷ xs) sz c out fuel =
      ground (arith, size_loop-length h s (suc k) x xs (sz + 1) c.1)

  -- `size` counts the nodes of the ring, and ends: one round more than there are nodes is enough.
  pub size-length :
      (h : Heap A) (s : Ptr) (xs : List Ptr) (fuel : ℕ)
      → Ring h s xs
      → length xs < fuel
      → size fuel s h ≡ some (length xs, h)
  unfolding size size_loop
  size-length h s xs zero r fuel = elim fuel [ ]
  size-length h s [] (suc k) r fuel = ground (arith, r.chain)
  size-length h s (x ∷ xs) (suc k) r fuel =
      ground (arith, r.chain, r.distinct, size_loop-length h s (suc k) x xs 0 r.chain.1)
