-- ===== src/ErrorCode/Tests.antt =====
-- Messages of a few codes.
use asio_experiments.Prelude.{◌≡◌, refl, ◌↔◌}
use asio_experiments.Prelude.Int.{pos, negsuc}
use asio_experiments.ErrorCode.Decimal.{digits, emit}
use asio_experiments.ErrorCode.Message.{
  codes, to_string, completion_denied, message, select_category, make_error_code,
}
use asio_experiments.ErrorCode.Tells.{message-tells}

negative_code : message (negsuc 41) ≡ codes "Invalid code: -42"
unfolding message to_string digits emit
negative_code = refl

no_error : message (pos 0) ≡ codes "Invalid code: 0"
unfolding message to_string digits emit
no_error = refl

message-tells_example :
    ((select_category.message (pos 10) ≡ select_category.message (negsuc 9)) ↔ (pos 10 ≡ negsuc 9))
    × ((select_category.message (pos 10) ≡ codes "Completion denied")
        ↔ (pos 10 ≡ (make_error_code completion_denied).value))
message-tells_example = message-tells (pos 10) (negsuc 9)
