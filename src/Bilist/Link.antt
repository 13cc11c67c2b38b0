-- ===== src/Bilist/Link.antt =====
-- `bilist_node::link_before` on a node that is in no ring.
use asio_experiments.Prelude.{
  ◌≡◌, refl, true, false, some, List, [], ◌∷◌, ◌++◌, arith, ◌==◌, has, has-append, Distinct,
  Distinct-left, Distinct-right, Distinct-apart, append-nil, Distinct-insert,
}
use asio_experiments.Bilist.{link_before}
use asio_experiments.Bilist.Heap.{Ptr, Heap, update}
use asio_experiments.Bilist.Chain.{
  Linked, Chain, last, first, has-last, has-first, Chain-append, Chain-cut, Chain-last, Chain-frame,
  Chain-retarget,
}
use asio_experiments.Bilist.Ring.{Ring, SameOutside}

module _ {ℓ} {A : Type ℓ} where
  -- The heap in which `x` stands between `p` and `n`.
  abbrev inserted : Heap A → Ptr → Ptr → Ptr → Heap A
  inserted h p x n = record h {
    next = update (update h.next x (some n)) p (some x);
    prev = update (update h.prev x (some p)) n (some x);
  }

  link_before-inserted :
      (h : Heap A) (p x n a b : Ptr)
      → Linked h p n
      → h.next x ≡ some a
      → h.prev x ≡ some b
      → (x == p) ≡ false
      → (x == n) ≡ false
      → link_before x n h ≡ some (tt, inserted h p x n)
  unfolding link_before
  link_before-inserted h p x n a b l e f np nn = ground arith

  inserted-Chain :
      (h : Heap A) (s : Ptr) (xs : List Ptr) (x : Ptr) (ys : List Ptr)
      → Chain h s (xs ++ ys) s
      → Distinct (s ∷ (xs ++ ys))
      → has x (s ∷ (xs ++ ys)) ≡ false
      → Chain (inserted h (last s xs) x (first ys s)) s (xs ++ (x ∷ ys)) s
  inserted-Chain h s xs x [] c d out =
      Chain-append g s xs x [] s
        (Chain-retarget h g s xs s x (rw append-nil at c) (rw append-nil at d) (ground arith)
          (λ a i ne. ground (arith, has-append x xs []))
          (λ a i. ground (arith, has-append x xs [], has-append s xs [])))
        (ground (arith, has-last s xs, has-append x xs []))
    where
      g : Heap A
      g = inserted h (last s xs) x s
  inserted-Chain h s xs x (y ∷ ys) c d out =
      let (before, behind) = Chain-cut h s xs y ys s c in
      Chain-append g s xs x (y ∷ ys) s
        (Chain-retarget h g s xs y x before (Distinct-left (s ∷ xs) (y ∷ ys) d)
          (ground (arith, has-append x xs (y ∷ ys)))
          (λ a i ne. ground (arith, has-append x xs (y ∷ ys)))
          (λ a i. ground (arith, has-append x xs (y ∷ ys), apart a)))
        (
          ground (arith, has-last s xs, has-append x xs (y ∷ ys)),
          Chain-frame h g y ys s behind
              (λ a i.
                ground (arith, has-last s xs, apart a, apart (last s xs), has-append x xs (y ∷ ys)))
              (λ a i. ground (arith, right.0, has-append x xs (y ∷ ys))) (ground (arith, apart s)),
        )
    where
      g : Heap A
      g = inserted h (last s xs) x y

      apart : (a : Ptr) → has a (s ∷ xs) ≡ true → has a (y ∷ ys) ≡ false
      apart a = Distinct-apart a (s ∷ xs) (y ∷ ys) d

      right : Distinct (y ∷ ys)
      right = Distinct-right (s ∷ xs) (y ∷ ys) d

  -- `link_before` puts a live node that is not in the ring in front of a node of it (of the head
  -- itself, if `ys` is empty): it does not fault, the others stay in order, and no pointer outside
  -- the new ring is written.
  pub link_before_lem :
      (h : Heap A) (s : Ptr) (xs ys : List Ptr) (x a b : Ptr)
      → Ring h s (xs ++ ys)
      → h.next x ≡ some a
      → h.prev x ≡ some b
      → has x (s ∷ (xs ++ ys)) ≡ false
      → (g : Heap A) × (link_before x (first ys s) h ≡ some (tt, g))
        × Ring g s (xs ++ (x ∷ ys))
        × SameOutside (s ∷ (xs ++ (x ∷ ys))) h g
  link_before_lem h s xs ys x a b r e f out = (
    inserted h (last s xs) x (first ys s),
    link_before-inserted h (last s xs) x (first ys s) a b (link ys r.chain) e f
        (ground (arith, has-last s xs, has-append x xs ys))
        (ground (arith, has-first ys s, has-append x xs ys)),
    record {
      chain = inserted-Chain h s xs x ys r.chain r.distinct out;
      distinct = Distinct-insert (s ∷ xs) x ys r.distinct out;
    },
    record {
      next_same = λ a o. ground (arith, has-last s xs, has-append a xs (x ∷ ys));
      prev_same = λ a o. ground (arith, has-first ys s, has-append a xs (x ∷ ys));
      item_same = λ a. refl;
    },
  )
    where
      link : (zs : List Ptr) → Chain h s (xs ++ zs) s → Linked h (last s xs) (first zs s)
      link [] c = Chain-last h s xs s (rw append-nil at c)
      link (z ∷ zs) c = Chain-last h s xs z (Chain-cut h s xs z zs s c).0
