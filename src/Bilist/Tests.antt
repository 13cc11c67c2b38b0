-- ===== src/Bilist/Tests.antt =====
-- A ring of three nodes round the head at 1, and the theorems at it.
use asio_experiments.Prelude.{ℕ, ◌≡◌, refl, Option, none, some, [], ◌∷◌, arith}
use asio_experiments.Bilist.{init, unlink, link_before, size}
use asio_experiments.Bilist.Heap.{Heap, update, ◌>>=◌, ◌>>◌, pure}
use asio_experiments.Bilist.Ring.{Ring, SameOutside}
use asio_experiments.Bilist.Unlink.{unlink_lem}
use asio_experiments.Bilist.Link.{link_before_lem}

-- The node at 9 stands alone.
abbrev three : Heap ℕ
three = record {
  next =
      update
        (update (update (update (update (λ _. none) 9 (some 9)) 4 (some 1)) 3 (some 4)) 2 (some 3))
        1 (some 2);
  prev =
      update
        (update (update (update (update (λ _. none) 9 (some 9)) 4 (some 3)) 3 (some 2)) 2 (some 1))
        1 (some 4);
  item = λ _. none;
}

three-Ring : Ring three 1 (2 ∷ 3 ∷ 4 ∷ [])
three-Ring = record { chain = ground arith; distinct = ground arith }

abbrev result {κ} : {B : Type κ} → Option (B × Heap ℕ) → Option B
result none = none
result (some (b, h)) = some b

-- A head and two nodes; the first goes again.
two_then_one :
    result {B = ℕ × ℕ} (
      (do
        init 1 none
        init 2 none
        link_before 2 1
        init 3 none
        link_before 3 1
        before ← size 5 1
        unlink 2
        after ← size 5 1
        pure (before, after))
        three)
    ≡ some (2, 1)
unfolding init link_before size unlink
two_then_one = refl

unlink_lem_example :
    (g : Heap ℕ) × (unlink 3 three ≡ some (tt, g))
    × Ring g 1 (2 ∷ 4 ∷ [])
    × SameOutside (1 ∷ 2 ∷ 4 ∷ []) three g
unlink_lem_example = unlink_lem three 1 (2 ∷ []) 3 (4 ∷ []) three-Ring

link_before_lem_example :
    (g : Heap ℕ) × (link_before 9 4 three ≡ some (tt, g))
    × Ring g 1 (2 ∷ 3 ∷ 9 ∷ 4 ∷ [])
    × SameOutside (1 ∷ 2 ∷ 3 ∷ 9 ∷ 4 ∷ []) three g
link_before_lem_example =
    link_before_lem three 1 (2 ∷ 3 ∷ []) (4 ∷ []) 9 9 9 three-Ring refl refl refl
