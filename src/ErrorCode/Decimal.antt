-- ===== src/ErrorCode/Decimal.antt =====
-- Decimal numerals, as `std::to_string` prints them in include/asioex/error.hpp.
use Prim.Native.Nat.{zero, ◌+◌, ◌-◌, ◌*◌, ◌/◌, ◌%◌, ◌≤◌, ◌<◌}
use asio_experiments.Prelude.{
  ℕ, suc, ◌≡◌, ◌∙◌, List, [], ◌∷◌, ◌==◌, if◌then◌else◌, Bool-cases, inl, inr, arith,
}

-- The digits of a number in front of `out`; there are fewer than `fuel` rounds.
unfoldable pub emit : ℕ → ℕ → List ℕ → List ℕ
emit zero n out = out
emit (suc fuel) n out =
    let out' = (b'0' + n % 10) ∷ out in
    let rest = emit fuel (n / 10) out' in if n / 10 == 0 then out' else rest

unfoldable pub digits : ℕ → List ℕ
unfolding emit
digits n = emit (suc n) n []

-- The number that a numeral after `acc` stands for.
unfoldable pub value : ℕ → List ℕ → ℕ
value acc [] = acc
value acc (c ∷ s) = value (acc * 10 + (c - b'0')) s

-- The first byte.
abbrev pub head : List ℕ → ℕ
head [] = 0
head (c ∷ s) = c

value-emit : (fuel n : ℕ) (out : List ℕ) → n < fuel → value 0 (emit fuel n out) ≡ value n out
unfolding emit value
value-emit zero n out h = absurd (omega arith)
value-emit (suc fuel) n out h =
    let last : value (n / 10) ((b'0' + n % 10) ∷ out) ≡ value n out = ground arith in
    elim (Bool-cases (n / 10 == 0)) [
      | inl e ↦ rw e (ground arith)
      | inr e ↦ rw e (value-emit fuel (n / 10) ((b'0' + n % 10) ∷ out) (ground arith) ∙ last)
    ]

head-emit : (fuel n : ℕ) (out : List ℕ) → b'0' ≤ head out → b'0' ≤ head (emit fuel n out)
unfolding emit
head-emit zero n out h = h
head-emit (suc fuel) n out h =
    ground (arith, head-emit fuel (n / 10) ((b'0' + n % 10) ∷ out) (omega arith))

pub value-digits : (n : ℕ) → value 0 (digits n) ≡ n
unfolding digits value
value-digits n = value-emit (suc n) n [] (omega arith)

-- A numeral begins with a digit, not with a sign.
pub head-digits : (n : ℕ) → b'0' ≤ head (digits n)
unfolding digits emit
head-digits n = ground (arith, head-emit n (n / 10) ((b'0' + n % 10) ∷ []) (omega arith))
