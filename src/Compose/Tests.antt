-- ===== src/Compose/Tests.antt =====
-- A body that waits twice, and frames with an allocator of 16 bytes.
use asio_experiments.Prelude.{ℕ, ◌+◌, ◌%◌, ◌≤◌, ◌<◌, ◌≡◌, refl, none, some, [], ◌∷◌, arith}
use asio_experiments.Compose.{
  executor, Token, Cancellation, initiates, Body, co_return, co_await, reset_0, completes, dropped,
  call,
}
use asio_experiments.Compose.Once.{returned}
use asio_experiments.Compose.Frame.{
  AllocType, Memory, align_offset, alloc_size, place, operator_new, operator_delete, delete-new,
  place-fits,
}
use asio_experiments.Compose.Awaitable.{returned}

-- Cancellation states by their slot and the filters that they have.
abbrev states : Cancellation (ℕ × ℕ) ℕ
states = record {
  unfiltered = λ slot. (slot, 0);
  filtered = λ slot f. (slot, f);
  filtered_both = λ slot f g. (slot, f + g);
  slot = λ s. s.0;
  terminal = 1;
}

abbrev token : Token
token = record { executor = 1; allocator = 2; slot = 3 }

-- It waits for two operations, the second after a reset of the cancellation, and returns their sum.
abbrev sum_body : Body ℕ ℕ (ℕ × ℕ) ℕ
sum_body = co_await 20 λ a. reset_0 (co_await 21 λ b. co_return (a + b))

-- A frame that goes before the second operation has completed calls nothing.
abandoned_early :
    call states token 9 [] sum_body (completes 3 ∷ dropped ∷ completes 4 ∷ [])
    ≡ initiates 20 1 2 3 ∷ initiates 21 1 2 3 ∷ []
unfolding call
abandoned_early = refl

abbrev pointers : AllocType
pointers = record { size_of = 16; align_of = 8 }

abbrev no_memory : Memory
no_memory = record { blocks = λ p. none; objects = λ p. none }

-- A frame of 100 bytes has the allocator at its 104th.
placed : place pointers 4096 100 ≡ 4200
unfolding place align_offset
placed = refl

delete-new_example :
    operator_delete pointers
      (operator_new pointers 100 2 4096 no_memory).0
      100
      (operator_new pointers 100 2 4096 no_memory).1
    ≡ some no_memory
delete-new_example = delete-new pointers 100 2 4096 no_memory refl refl

place-fits_example :
    (4096 + 100 ≤ place pointers 4096 100)
    × (place pointers 4096 100 + 16 ≡ 4096 + alloc_size pointers 100)
    × (alloc_size pointers 100 < 100 + 16 + 8)
    × (place pointers 4096 100 % 8 ≡ 0)
place-fits_example = place-fits pointers 100 4096 (omega arith) refl
