-- ===== src/Bilist/Ring.antt =====
-- The ring of a list head: the well-formed states of the list of bilist_node.hpp.
use asio_experiments.Prelude.{◌≡◌, true, false, some, List, ◌∷◌, arith, has, Distinct}
use asio_experiments.Bilist.Heap.{Ptr, Heap, update}
use asio_experiments.Bilist.Chain.{Chain, Chain-frame}

module _ {ℓ} {A : Type ℓ} where
  -- The links go round from the head `s` through the distinct nodes `xs` and back to `s`.
  pub record Ring (h : Heap A) (s : Ptr) (xs : List Ptr) : Type ℓ where
    pub chain : Chain h s xs s
    pub distinct : Distinct (s ∷ xs)

  -- `g` has the links of `h` but at the nodes of `xs`, and the items of `h` everywhere.
  pub record SameOutside (xs : List Ptr) (h g : Heap A) : Type ℓ where
    pub next_same : (a : Ptr) → has a xs ≡ false → g.next a ≡ h.next a
    pub prev_same : (a : Ptr) → has a xs ≡ false → g.prev a ≡ h.prev a
    pub item_same : (a : Ptr) → g.item a ≡ h.item a

  -- A ring survives any change that spares its nodes.
  pub Ring-frame :
      (h g : Heap A) (s : Ptr) (xs : List Ptr)
      → Ring h s xs
      → ((a : Ptr) → has a (s ∷ xs) ≡ true → g.next a ≡ h.next a)
      → ((a : Ptr) → has a (s ∷ xs) ≡ true → g.prev a ≡ h.prev a)
      → Ring g s xs
  Ring-frame h g s xs r fn fp = record {
    chain = Chain-frame h g s xs s r.chain fn (λ a i. fp a (ground arith)) (fp s (ground arith));
    distinct = r.distinct;
  }

  -- The heap in which `n` follows `p`.
  abbrev pub joined : Heap A → Ptr → Ptr → Heap A
  joined h p n = record h { next = update h.next p (some n); prev = update h.prev n (some p) }
