-- ===== src/CircularBuffer/Tests.antt =====
-- A buffer that goes round its array, and the theorems at it.
use asio_experiments.Prelude.{ℕ, ◌≡◌, refl, some, [], ◌∷◌, arith}
use asio_experiments.CircularBuffer.{Buffer, Outcome, ok, ◌>>=◌, empty, push, pop}
use asio_experiments.CircularBuffer.Refine.{Contains, used}
use asio_experiments.CircularBuffer.Queue.{pushes, pops, run, run_queue, run_refines}

-- 7 and then 8, from the end of the array to its beginning.
abbrev round : Buffer ℕ
round = record {
  capacity = 3;
  size = 2;
  front_pos = 2;
  back_pos = 1;
  storage = some (8 ∷ 0 ∷ 7 ∷ []);
}

round-Contains : Contains 0 round (7 ∷ 8 ∷ [])
round-Contains =
    used (8 ∷ 0 ∷ 7 ∷ [])
      (record {
        storage = refl;
        length_lem = refl;
        some_room = omega arith;
        front_in = omega arith;
        size_in = omega arith;
        back = refl;
      })
      refl

-- The third element fills the array, and the fourth doubles it.
two_more : Outcome (ℕ × ℕ × ℕ × ℕ × ℕ)
unfolding push pop
two_more = do
  b ← push 0 9 round
  b ← push 0 10 b
  (x, b) ← pop 0 b
  ok (x, b.capacity, b.size, b.front_pos, b.back_pos)

grows : two_more ≡ ok (7, 6, 3, 1, 4)
unfolding two_more
grows = refl

run_refines_example :
    run {A = ℕ} 0 (pushes 1 ∷ pushes 2 ∷ pops ∷ pops ∷ pops ∷ []) empty
    ≡ run_queue {A = ℕ} (pushes 1 ∷ pushes 2 ∷ pops ∷ pops ∷ pops ∷ []) []
run_refines_example =
    run_refines {A = ℕ} 0 (pushes 1 ∷ pushes 2 ∷ pops ∷ pops ∷ pops ∷ []) (omega arith)
