-- ===== src/Bilist/Unlink.antt =====
-- `bilist_node::unlink` on a node of a ring.
use asio_experiments.Prelude.{
  ◌≡◌, refl, true, false, some, List, [], ◌∷◌, ◌++◌, arith, has, has-append, Distinct, Distinct-cut,
  Distinct-left, Distinct-right, Distinct-apart, append-nil,
}
use asio_experiments.Bilist.{unlink}
use asio_experiments.Bilist.Heap.{Ptr, Heap}
use asio_experiments.Bilist.Chain.{
  Linked, Chain, last, first, has-last, has-first, Chain-append, Chain-cut, Chain-last, Chain-first,
  Chain-frame, Chain-retarget,
}
use asio_experiments.Bilist.Ring.{Ring, SameOutside, joined}

module _ {ℓ} {A : Type ℓ} where
  unlink-joined :
      (h : Heap A) (p x n : Ptr)
      → Linked h p x
      → Linked h x n
      → unlink x h ≡ some (tt, joined h p n)
  unfolding unlink
  unlink-joined h p x n b f = ground arith

  joined-Chain :
      (h : Heap A) (s : Ptr) (xs : List Ptr) (x : Ptr) (ys : List Ptr)
      → Chain h s xs x
      → Chain h x ys s
      → Distinct (s ∷ (xs ++ (x ∷ ys)))
      → Chain (joined h (last s xs) (first ys s)) s (xs ++ ys) s
  joined-Chain h s xs x [] c e d = rw append-nil (
      Chain-retarget h (joined h (last s xs) s) s xs x s c (Distinct-left (s ∷ xs) (x ∷ []) d)
        (ground arith) (λ a i ne. ground arith)
        (λ a i.
          ground (arith, Distinct-apart s (s ∷ []) (xs ++ (x ∷ [])) d, has-append s xs (x ∷ []))))
  joined-Chain h s xs x (y ∷ ys) c e d =
      Chain-append g s xs y ys s
        (Chain-retarget h g s xs x y c (Distinct-left (s ∷ xs) (x ∷ y ∷ ys) d) (ground arith)
          (λ a i ne. ground arith) (λ a i. ground (arith, apart a)))
        (Chain-frame h g y ys s e.1
          (λ a i. ground (arith, has-last s xs, apart a, apart (last s xs)))
          (λ a i. ground (arith, right.1.0)) (ground (arith, apart s)))
    where
      g : Heap A
      g = joined h (last s xs) y

      apart : (a : Ptr) → has a (s ∷ xs) ≡ true → has a (x ∷ y ∷ ys) ≡ false
      apart a = Distinct-apart a (s ∷ xs) (x ∷ y ∷ ys) d

      right : Distinct (x ∷ y ∷ ys)
      right = Distinct-right (s ∷ xs) (x ∷ y ∷ ys) d

  -- `unlink` takes a node out of its ring: it does not fault, the other nodes stay in order, and no
  -- pointer outside what is left of the ring is written, the node's own ones included.
  pub unlink_lem :
      (h : Heap A) (s : Ptr) (xs : List Ptr) (x : Ptr) (ys : List Ptr)
      → Ring h s (xs ++ (x ∷ ys))
      → (g : Heap A) × (unlink x h ≡ some (tt, g))
        × Ring g s (xs ++ ys)
        × SameOutside (s ∷ (xs ++ ys)) h g
  unlink_lem h s xs x ys r =
      let (before, behind) = Chain-cut h s xs x ys s r.chain in
      let n = first ys s in
      (
        joined h (last s xs) n,
        unlink-joined h _ x _ (Chain-last h s xs x before) (Chain-first h x ys s behind),
        record {
          chain = joined-Chain h s xs x ys before behind r.distinct;
          distinct = Distinct-cut (s ∷ xs) x ys r.distinct;
        },
        record {
          next_same = λ a o. ground (arith, has-last s xs, has-append a xs ys);
          prev_same = λ a o. ground (arith, has-first ys s, has-append a xs ys);
          item_same = λ a. refl;
        },
      )
