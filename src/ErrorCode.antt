-- ===== src/ErrorCode.antt =====
-- include/asioex/error.hpp and include/asioex/error_code.hpp: the error codes that the operations
-- complete with.
pub mod Decimal
pub mod Message
pub mod Tells
mod Tests
use asio_experiments.Prelude.{ℕ, Bool, true, false}

-- `success` is the default-constructed code, `operation_aborted` and `would_block` are Asio's,
-- `completion_denied` is the library's own, and `other` stands for what a source, a sink or a
-- socket may report besides.
pub data ErrorCode : Type 0 where
  success operation_aborted would_block completion_denied : ErrorCode
  other : ℕ → ErrorCode

-- `if (ec)`
abbrev pub failed : ErrorCode → Bool
failed success = false
failed operation_aborted = true
failed would_block = true
failed completion_denied = true
failed (other n) = true
