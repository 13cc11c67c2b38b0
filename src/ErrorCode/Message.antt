-- ===== src/ErrorCode/Message.antt =====
-- include/asioex/error.hpp: the category of the latches' errors and its messages.
use Prim.Native.Char.{code}
use Prim.Native.String.{String}
use asio_experiments.Prelude.{ℕ, zero, suc, List, [], ◌∷◌, ◌++◌}
use asio_experiments.Prelude.Int.{ℤ, pos, negsuc}
use asio_experiments.ErrorCode.Decimal.{digits}

-- The bytes of an ASCII text.
abbrev pub codes : String → List ℕ
codes String.[] = []
codes (String.◌∷◌ c s) = code c ∷ codes s

-- `std::to_string` of an `int`
unfoldable pub to_string : ℤ → List ℕ
to_string (pos n) = digits n
to_string (negsuc n) = b'-' ∷ digits (suc n)

pub data LatchError : Type 0 where
  completion_denied : LatchError

-- `static_cast< int >`
unfoldable pub to_value : LatchError → ℤ
to_value completion_denied = pos 1

-- The `message` of `select_category`.
unfoldable pub message : ℤ → List ℕ
unfolding to_string
message (pos (suc zero)) = codes "Completion denied"
message ev = codes "Invalid code: " ++ to_string ev

-- A `std::error_category`
pub record Category : Type 0 where
  pub name : List ℕ
  pub message : ℤ → List ℕ

unfoldable pub select_category : Category
unfolding message
select_category = record { name = codes "select_category"; message = message }

-- A `std::error_code`
pub record Code : Type 0 where
  pub value : ℤ
  pub category : Category

unfoldable pub make_error_code : LatchError → Code
unfolding to_value select_category
make_error_code ec = record { value = to_value ec; category = select_category }
