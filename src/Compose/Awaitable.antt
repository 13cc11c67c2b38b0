-- ===== src/Compose/Awaitable.antt =====
-- The promises of composed operations that return an `asio::awaitable`.
use asio_experiments.Prelude.{ℕ, ◌≡◌, refl, true, not, Option, none, some, ◌==◌, if◌then◌else◌}
use asio_experiments.ErrorCode.{ErrorCode, failed}

-- How the promise is settled; an exception is known by a number. `ill_formed` is a call for which
-- there is no function.
pub data Settled (R : Type 0) : Type 0 where
  returned : R → Settled R
  error : ErrorCode → Settled R
  except : ℕ → Settled R
  ill_formed : Settled R

-- What the coroutine returns: a code or an exception pointer with a result, or, where the awaitable's
-- result is the tuple itself, the tuple.
pub data Args (R : Type 0) : Type 0 where
  coded : ErrorCode → R → Args R
  excepted : Option ℕ → R → Args R
  whole : R → Args R

-- The same for an awaitable without a result.
pub data VoidArgs : Type 0 where
  no_args : VoidArgs
  void_coded : ErrorCode → VoidArgs
  void_excepted : Option ℕ → VoidArgs

-- The two `return_value_impl`.
abbrev pub settle_code : {R : Type 0} → ErrorCode → R → Settled R
settle_code ec result = if failed ec then error ec else returned result

abbrev pub settle_except : {R : Type 0} → Option ℕ → R → Settled R
settle_except none result = returned result
settle_except (some e) result = except e

-- `return_value` of the promise with a result.
unfoldable pub settle : {R : Type 0} → Args R → Settled R
settle (coded ec result) = settle_code ec result
settle (excepted e result) = settle_except e result
settle (whole result) = returned result

-- `sizeof...(Args_)`
abbrev pub arg_count : VoidArgs → ℕ
arg_count no_args = 0
arg_count (void_coded ec) = 1
arg_count (void_excepted e) = 1

-- `std::apply` of `return_value_impl`, which takes one argument.
abbrev pub apply_impl : VoidArgs → Settled (Unit {0})
apply_impl no_args = ill_formed
apply_impl (void_coded ec) = settle_code ec tt
apply_impl (void_excepted e) = settle_except e tt

-- `return_value` of the promise without a result.
unfoldable pub settle_void : VoidArgs → Settled (Unit {0})
settle_void args = if not (arg_count args == 0) then returned tt else apply_impl args

-- An awaitable without a result never reports the code of a failed operation, which one with a result
-- does, though the function that would report it stands beside it.
pub settle_void-drops :
    {R : Type 0} (ec : ErrorCode) (result : R)
    → failed ec ≡ true
    → (settle (coded ec result) ≡ error ec)
      × (settle_void (void_coded ec) ≡ returned tt)
      × (apply_impl (void_coded ec) ≡ error ec)
unfolding settle settle_void
settle_void-drops ec result f = (rw f refl, refl, rw f refl)
