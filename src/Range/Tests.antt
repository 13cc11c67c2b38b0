-- ===== src/Range/Tests.antt =====
-- Loops over a channel and a coroutine.
use asio_experiments.Prelude.{ℕ, ◌≡◌, refl, true, false, none, some, [], ◌∷◌, map}
use asio_experiments.Range.{
  returns, throws, undefined, Turn, range_from, wait_channel, wait_coro, co_for,
}
use asio_experiments.Range.Lifetime.{
  delivered, co_for_coro-delivered, co_for_channel-delivered, co_for_channel-undefined, endless,
}

abbrev turn : {D : Type 0} → D → Turn D
turn d = record { cancelled = false; is_open = true; delivers = d }

co_for_coro-delivered_example :
    co_for
      (wait_coro {T = ℕ})
      (turn (some (some 3)) ∷ turn (some (some 4)) ∷ turn (some none) ∷ turn none ∷ [])
      range_from
    ≡ (3 ∷ 4 ∷ [], returns tt)
unfolding delivered
co_for_coro-delivered_example =
    co_for_coro-delivered
      (turn (some (some 3)) ∷ turn (some (some 4)) ∷ turn (some none) ∷ turn none ∷ [])

co_for_channel-delivered_example :
    co_for (wait_channel {T = ℕ}) (turn (some 3) ∷ turn (some 4) ∷ turn none ∷ []) range_from
    ≡ (3 ∷ 4 ∷ [], throws)
unfolding delivered
co_for_channel-delivered_example =
    co_for_channel-delivered (turn (some 3)) (turn (some 4) ∷ turn none ∷ []) 3 refl

co_for_channel-undefined_example :
    (co_for (wait_channel {T = ℕ}) (turn none ∷ turn (some 4) ∷ []) range_from ≡ ([], undefined))
    × (co_for (wait_coro {T = ℕ}) (map endless (turn none ∷ turn (some 4) ∷ [])) range_from
        ≡ ([], throws))
co_for_channel-undefined_example =
    co_for_channel-undefined (turn none) (turn (some 4) ∷ []) refl refl
