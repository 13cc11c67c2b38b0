-- ===== src/Bilist/Chain.antt =====
-- Chains of linked nodes, cut and joined.
use asio_experiments.Prelude.{
  ◌≡◌, ◌≢◌, true, false, none, some, List, [], ◌∷◌, ◌++◌, arith, has, Distinct,
}
use asio_experiments.Bilist.Heap.{Ptr, Heap}

abbrev pub last : Ptr → List Ptr → Ptr
last p [] = p
last p (x ∷ xs) = last x xs

abbrev pub first : List Ptr → Ptr → Ptr
first [] q = q
first (x ∷ xs) q = x

pub has-last : (p : Ptr) (xs : List Ptr) → has (last p xs) (p ∷ xs) ≡ true
has-last p [] = ground arith
has-last p (x ∷ xs) = ground (arith, has-last x xs)

pub has-first : (xs : List Ptr) (q : Ptr) → has (first xs q) (q ∷ xs) ≡ true
has-first [] q = ground arith
has-first (x ∷ xs) q = ground arith

module _ {ℓ} {A : Type ℓ} where
  -- The node `q` follows the node `p`, by both of their pointers.
  abbrev pub Linked : Heap A → Ptr → Ptr → Type 0
  Linked h p q = (h.next p ≡ some q) × (h.prev q ≡ some p)

  -- From `p` the links lead through `xs` to `q`, and back.
  abbrev pub Chain : Heap A → Ptr → List Ptr → Ptr → Type 0
  Chain h p [] q = Linked h p q
  Chain h p (x ∷ xs) q = Linked h p x × Chain h x xs q

  pub Chain-append :
      (h : Heap A) (p : Ptr) (xs : List Ptr) (x : Ptr) (ys : List Ptr) (q : Ptr)
      → Chain h p xs x
      → Chain h x ys q
      → Chain h p (xs ++ (x ∷ ys)) q
  Chain-append h p [] x ys q c d = (c, d)
  Chain-append h p (y ∷ xs) x ys q c d = (c.0, Chain-append h y xs x ys q c.1 d)

  pub Chain-cut :
      (h : Heap A) (p : Ptr) (xs : List Ptr) (x : Ptr) (ys : List Ptr) (q : Ptr)
      → Chain h p (xs ++ (x ∷ ys)) q
      → Chain h p xs x × Chain h x ys q
  Chain-cut h p [] x ys q c = c
  Chain-cut h p (y ∷ xs) x ys q c = let r = Chain-cut h y xs x ys q c.1 in ((c.0, r.0), r.1)

  pub Chain-last :
      (h : Heap A) (p : Ptr) (xs : List Ptr) (q : Ptr) → Chain h p xs q → Linked h (last p xs) q
  Chain-last h p [] q c = c
  Chain-last h p (x ∷ xs) q c = Chain-last h x xs q c.1

  pub Chain-first :
      (h : Heap A) (p : Ptr) (xs : List Ptr) (q : Ptr) → Chain h p xs q → Linked h p (first xs q)
  Chain-first h p [] q c = c
  Chain-first h p (x ∷ xs) q c = c.0

  -- A chain survives a change that spares the `next` pointers of all its nodes and the `prev`
  -- pointers of all behind the first.
  pub Chain-frame :
      (h g : Heap A) (p : Ptr) (xs : List Ptr) (q : Ptr)
      → Chain h p xs q
      → ((a : Ptr) → has a (p ∷ xs) ≡ true → g.next a ≡ h.next a)
      → ((a : Ptr) → has a xs ≡ true → g.prev a ≡ h.prev a)
      → g.prev q ≡ h.prev q
      → Chain g p xs q
  Chain-frame h g p [] q c fn fp e = ground (arith, fn p)
  Chain-frame h g p (x ∷ xs) q c fn fp e = (
    ground (arith, fn p, fp x),
    Chain-frame h g x xs q c.1 (λ a i. fn a (ground arith)) (λ a i. fp a (ground arith)) e,
  )

  -- The last node of a chain is made to lead to `n` in place of `q`.
  pub Chain-retarget :
      (h g : Heap A) (p : Ptr) (xs : List Ptr) (q n : Ptr)
      → Chain h p xs q
      → Distinct (p ∷ xs)
      → Linked g (last p xs) n
      → ((a : Ptr) → has a (p ∷ xs) ≡ true → a ≢ last p xs → g.next a ≡ h.next a)
      → ((a : Ptr) → has a xs ≡ true → g.prev a ≡ h.prev a)
      → Chain g p xs n
  Chain-retarget h g p [] q n c d l fn fp = l
  Chain-retarget h g p (x ∷ xs) q n c d l fn fp = (
    ground (arith, fn p (ground arith) ne, fp x),
    Chain-retarget h g x xs q n c.1 d.1 l (λ a i. fn a (ground arith)) (λ a i. fp a (ground arith)),
  )
    where
      ne : p ≢ last x xs
      ne e = ground (arith, has-last x xs)

  -- Every node of a chain is live.
  pub Chain-live :
      (h : Heap A) (p : Ptr) (xs : List Ptr) (q : Ptr)
      → Chain h p xs q
      → (a : Ptr) → h.next a ≡ none
      → has a (p ∷ xs) ≡ false
  Chain-live h p [] q c a e = ground arith
  Chain-live h p (x ∷ xs) q c a e = ground (arith, Chain-live h x xs q c.1 a e)
