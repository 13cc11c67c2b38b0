-- ===== src/Compose/Frame.antt =====
-- The frame of a coroutine whose token has an allocator: where the allocator is kept.
use native.Mathlib.Nat.{mod-lt, mod_self, div-add-mod, mul-add-mod_self_left, add-mod, zero-mod}
use asio_experiments.Prelude.{
  ℕ, ◌+◌, ◌-◌, ◌*◌, ◌/◌, ap₂, ◌%◌, ◌≤◌, ◌<◌, ◌≡◌, refl, ap, ◌∙◌, fun_ext, true, false, not, ◌&&◌,
  Option, none, some, arith, ◌==◌, eq_refl, if◌then◌else◌, sym, inl, inr, ◌⊎◌, Bool-cases, ==_iff,
}

-- A kind of allocator: `sizeof(alloc_type)` and `alignof(alloc_type)`.
pub record AllocType : Type 0 where
  pub size_of : ℕ
  pub align_of : ℕ

-- A block that an allocator has handed out, with its size.
pub record Block : Type 0 where
  pub allocator : ℕ
  pub size : ℕ

-- The blocks that are allocated, and the allocator objects that are alive, by their addresses.
pub record Memory : Type 0 where
  pub blocks : ℕ → Option Block
  pub objects : ℕ → Option ℕ

unfoldable pub align_offset : AllocType → ℕ → ℕ
align_offset t size =
    let align_needed = size % t.align_of in
    if not (align_needed == 0) then t.align_of - align_needed else 0

unfoldable pub alloc_size : AllocType → ℕ → ℕ
unfolding align_offset
alloc_size t size = size + t.size_of + align_offset t size

-- `raw + size + align_offset`
unfoldable pub place : AllocType → ℕ → ℕ → ℕ
unfolding align_offset
place t raw size = raw + size + align_offset t size

unfoldable pub update {ℓ} : {A : Type ℓ} → (ℕ → A) → ℕ → A → ℕ → A
update f p a q = if q == p then a else f q

-- `operator new`; the token's allocator `alloc` returns the block at `raw`.
unfoldable pub operator_new : AllocType → ℕ → ℕ → ℕ → Memory → ℕ × Memory
unfolding alloc_size place
operator_new t size alloc raw m = (
  raw,
  record {
    blocks = update m.blocks raw (some (record { allocator = alloc; size = alloc_size t size }));
    objects = update m.objects (place t raw size) (some alloc);
  },
)

-- A block goes back to an allocator that has handed it out, with its size.
abbrev pub deallocate : ℕ → ℕ → ℕ → Memory → Option Memory
deallocate alloc raw size m = elim (m.blocks raw) [
  | none ↦ none
  | some b ↦
      if (b.allocator == alloc) && (b.size == size)
      then some (record m { blocks = update m.blocks raw none })
      else none
]

-- `operator delete`; it faults (`none`) if there is no allocator at the place where it looks.
unfoldable pub operator_delete : AllocType → ℕ → ℕ → Memory → Option Memory
unfolding alloc_size place
operator_delete t raw size m =
    let p = place t raw size in
    elim (m.objects p) [
      | none ↦ none
      | some alloc ↦
          deallocate alloc raw (alloc_size t size) (record m { objects = update m.objects p none })
    ]

update-update {ℓ} :
    {A : Type ℓ} (f : ℕ → A) (p : ℕ) (a b : A) → f p ≡ b → update (update f p a) p b ≡ f
unfolding update
update-update {A} f p a b e = fun_ext λ q. here q (Bool-cases (q == p))
  where
    here : (q : ℕ) → (((q == p) ≡ true) ⊎ ((q == p) ≡ false)) → update (update f p a) p b q ≡ f q
    here q (inl t) = rw t (sym e ∙ ap f (sym ((==_iff q p).0 t)))
    here q (inr n) = rw n refl

update-here {ℓ} : {A : Type ℓ} (f : ℕ → A) (p : ℕ) (a : A) → update f p a p ≡ a
unfolding update
update-here f p a = rw (eq_refl p) refl

deallocate-new :
    (alloc raw size : ℕ) (m : Memory)
    → m.blocks raw ≡ none
    → deallocate alloc raw size (record m {
      blocks = update m.blocks raw (some (record { allocator = alloc; size = size }));
    })
      ≡ some m
deallocate-new alloc raw size m b =
    simp (update-here, eq_refl, deallocate)
      (ap (λ f. some (record m { blocks = f }))
        (update-update m.blocks raw (some (record { allocator = alloc; size = size })) none b))

-- Deleting a new frame, whose block and whose place for the allocator were unused, finds the
-- allocator where it was put and gives the block back to it with the size that was asked for: the
-- memory is as it was.
pub delete-new :
    (t : AllocType) (size alloc raw : ℕ) (m : Memory)
    → m.blocks raw ≡ none
    → m.objects (place t raw size) ≡ none
    → operator_delete t (operator_new t size alloc raw m).0 size (operator_new t size alloc raw m).1
      ≡ some m
unfolding operator_new operator_delete
delete-new t size alloc raw m b o =
    simp
      (
        update-here,
        operator_new,
        operator_delete,
        update-update m.objects (place t raw size) (some alloc) none o,
      )
      (deallocate-new alloc raw (alloc_size t size) m b)

offset-aligned :
    (t : AllocType) (size : ℕ)
    → 0 < t.align_of
    → ((size + align_offset t size) % t.align_of ≡ 0) × (align_offset t size < t.align_of)
unfolding align_offset
offset-aligned t size pos = elim (Bool-cases (size % t.align_of == 0)) [
  | inl z ↦
      let r : size % t.align_of ≡ 0 = (==_iff (size % t.align_of) 0).0 z in
      (rw z (ap (λ n. n % t.align_of) (omega arith) ∙ r), rw z pos)
  | inr n ↦
      let r : 0 < size % t.align_of = ground arith in
      let whole : size + (t.align_of - size % t.align_of)
          ≡ t.align_of * (size / t.align_of) + t.align_of =
        omega (arith, div-add-mod size t.align_of, mod-lt size pos) in
      (
        rw n (
            ap (λ k. k % t.align_of) whole
            ∙ mul-add-mod_self_left t.align_of (size / t.align_of) t.align_of
            ∙ mod_self t.align_of),
        rw n (omega (arith, mod-lt size pos)),
      )
]

-- If the allocator's alignment is not 0, it stands behind the frame and inside the block, which has
-- less than one alignment to spare, and it is aligned in a block that is.
pub place-fits :
    (t : AllocType) (size raw : ℕ)
    → 0 < t.align_of
    → raw % t.align_of ≡ 0
    → (raw + size ≤ place t raw size)
      × (place t raw size + t.size_of ≡ raw + alloc_size t size)
      × (alloc_size t size < size + t.size_of + t.align_of)
      × (place t raw size % t.align_of ≡ 0)
unfolding place alloc_size
place-fits t size raw pos aligned =
    let (whole, small) = offset-aligned t size pos in
    let offset = align_offset t size in
    (
      omega arith,
      omega arith,
      omega arith,
      ap (λ n. n % t.align_of) (omega arith)
          ∙ add-mod raw (size + offset) t.align_of
          ∙ ap₂ (λ x y. (x + y) % t.align_of) aligned whole
          ∙ zero-mod t.align_of,
    )
