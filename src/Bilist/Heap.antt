-- ===== src/Bilist/Heap.antt =====
-- The memory that the intrusive list of include/asioex/detail/bilist_node.hpp lives in.
use asio_experiments.Prelude.{ℕ, Option, none, some, ◌==◌, if◌then◌else◌}

abbrev pub Ptr : Type 0
Ptr = ℕ

-- One map for each field. A field of an address that holds no live object is `none`. `item` is the
-- part of the object that a class derived from `bilist_node` adds; a bare node has none.
pub record Heap {ℓ} (A : Type ℓ) : Type ℓ where
  pub next : Ptr → Option Ptr
  pub prev : Ptr → Option Ptr
  pub item : Ptr → Option A

abbrev pub update {ℓ} : {B : Type ℓ} → (Ptr → B) → Ptr → B → Ptr → B
update f p v q = if q == p then v else f q

-- A command faults (`none`) where it reads or writes an object that is not there.
abbrev pub Cmd {ℓ κ} : Type ℓ → Type κ → Type (ℓ ⊔ κ)
Cmd A B = Heap A → Option (B × Heap A)

module _ {ℓ} {A : Type ℓ} where
  abbrev pub pure {κ} : {B : Type κ} → B → Cmd A B
  pure b h = some (b, h)

  infixl 5 ◌>>=◌ ◌>>◌
  abbrev pub ◌>>=◌ {κ μ} : {B : Type κ} {C : Type μ} → Cmd A B → (B → Cmd A C) → Cmd A C
  ◌>>=◌ m f h = elim (m h) [ none ↦ none | some (b, h') ↦ f b h' ]

  abbrev pub ◌>>◌ {κ} : {C : Type κ} → Cmd A (Unit {0}) → Cmd A C → Cmd A C
  m >> k = m >>= λ _. k

  abbrev pub get_next : Ptr → Cmd A Ptr
  get_next p h = elim (h.next p) [ none ↦ none | some q ↦ some (q, h) ]

  abbrev pub get_prev : Ptr → Cmd A Ptr
  get_prev p h = elim (h.prev p) [ none ↦ none | some q ↦ some (q, h) ]

  abbrev pub set_next : Ptr → Ptr → Cmd A (Unit {0})
  set_next p q h = elim (h.next p) [
    | none ↦ none
    | some _ ↦ some (tt, record h { next = update h.next p (some q) })
  ]

  abbrev pub set_prev : Ptr → Ptr → Cmd A (Unit {0})
  set_prev p q h = elim (h.prev p) [
    | none ↦ none
    | some _ ↦ some (tt, record h { prev = update h.prev p (some q) })
  ]

  -- Storage for an object is taken at `p`; its node is not linked to anything yet.
  abbrev pub alloc : Ptr → Option A → Cmd A (Unit {0})
  alloc p a h = some (
    tt,
    record {
      next = update h.next p (some p);
      prev = update h.prev p (some p);
      item = update h.item p a;
    },
  )

  abbrev pub free : Ptr → Cmd A (Unit {0})
  free p h = elim (h.next p) [
    | none ↦ none
    | some _ ↦ some (
      tt,
      record {
        next = update h.next p none;
        prev = update h.prev p none;
        item = update h.item p none;
      },
    )
  ]
