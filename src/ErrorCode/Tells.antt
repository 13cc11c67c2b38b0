-- ===== src/ErrorCode/Tells.antt =====
-- A message tells which code it is for.
use asio_experiments.Prelude.{ℕ, zero, suc, ◌≡◌, ◌≢◌, refl, sym, ap, ◌∙◌, ◌↔◌, ◌++◌, drop, arith}
use asio_experiments.Prelude.Int.{ℤ, pos, negsuc}
use asio_experiments.ErrorCode.Decimal.{digits, value, head, value-digits, head-digits}
use asio_experiments.ErrorCode.Message.{
  codes, to_string, completion_denied, to_value, message, select_category, make_error_code,
}

digits-injective : (a b : ℕ) → digits a ≡ digits b → a ≡ b
digits-injective a b e = sym (value-digits a) ∙ ap (value 0) e ∙ value-digits b

pub to_string-injective : (a b : ℤ) → to_string a ≡ to_string b → a ≡ b
unfolding to_string
to_string-injective (pos a) (pos b) e = ap pos (digits-injective a b e)
to_string-injective (pos a) (negsuc b) e = absurd (omega (arith, head-digits a, ap head e))
to_string-injective (negsuc a) (pos b) e = absurd (omega (arith, head-digits b, ap head e))
to_string-injective (negsuc a) (negsuc b) e =
    ap negsuc (omega (arith, digits-injective (suc a) (suc b) (ap (drop 1) e)))

-- The codes without a message of their own.
data IsOther : ℤ → Type 0 where
  zeroth : IsOther (pos 0)
  later : (n : ℕ) → IsOther (pos (suc (suc n)))
  negative : (n : ℕ) → IsOther (negsuc n)

message-other : {ev : ℤ} → IsOther ev → message ev ≡ codes "Invalid code: " ++ to_string ev
unfolding message
message-other zeroth = refl
message-other (later n) = refl
message-other (negative n) = refl

data Kind (ev : ℤ) : Type 0 where
  denied : ev ≡ pos 1 → Kind ev
  other : IsOther ev → Kind ev

kind : (ev : ℤ) → Kind ev
kind (pos zero) = other zeroth
kind (pos (suc zero)) = denied refl
kind (pos (suc (suc n))) = other (later n)
kind (negsuc n) = other (negative n)

other-ne-denied : {ev : ℤ} → IsOther ev → message ev ≢ codes "Completion denied"
other-ne-denied o e = absurd (omega (arith, ap head (sym (message-other o) ∙ e)))

message-denied : {ev : ℤ} → ev ≡ pos 1 → message ev ≡ codes "Completion denied"
unfolding message
message-denied e = ap message e

kinds-injective : (a b : ℤ) → Kind a → Kind b → message a ≡ message b → a ≡ b
kinds-injective a b (denied p) (denied q) e = p ∙ sym q
kinds-injective a b (denied p) (other o) e = absurd (other-ne-denied o (sym e ∙ message-denied p))
kinds-injective a b (other o) (denied q) e = absurd (other-ne-denied o (e ∙ message-denied q))
kinds-injective a b (other o) (other o') e =
    to_string-injective a b (ap (drop 14) (sym (message-other o) ∙ e ∙ message-other o'))

denied-of_message : (a : ℤ) → Kind a → message a ≡ codes "Completion denied" → a ≡ pos 1
denied-of_message a (denied p) e = p
denied-of_message a (other o) e = absurd (other-ne-denied o e)

-- Two codes of the category have the same message exactly if they are the same, and the message of
-- `completion_denied` belongs to the code that `make_error_code` makes of it alone.
pub message-tells :
    (a b : ℤ)
    → ((select_category.message a ≡ select_category.message b) ↔ (a ≡ b))
      × ((select_category.message a ≡ codes "Completion denied")
          ↔ (a ≡ (make_error_code completion_denied).value))
unfolding select_category make_error_code to_value
message-tells a b = (
  (kinds-injective a b (kind a) (kind b), ap message),
  (denied-of_message a (kind a), message-denied),
)
