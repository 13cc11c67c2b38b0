-- ===== src/AtomicRead.antt =====
-- include/asioex/impl/async_read_some.hpp: a read that delivers its result through a latch.
pub mod Race
mod Tests
use asio_experiments.Prelude.{
  ℕ, Bool, true, false, not, Option, none, some, List, [], ◌∷◌, if◌then◌else◌,
}
use asio_experiments.ErrorCode.{ErrorCode, success, would_block, completion_denied, failed}
use asio_experiments.Latch.{
  Latches, Transaction1, may_commit1, begin1, rollback1, commit1, destroy1,
}

-- A socket with a state `S` of its own, and the latches.
pub record World (S : Type 0) : Type 0 where
  pub sock : S
  pub non_blocking : Bool
  pub latches : Latches

-- What one run of the operation's body comes to: it waits for the socket again, or completes.
pub data Reply : Type 0 where
  waits : Reply
  completes : ErrorCode → ℕ → Reply

abbrev pub is_would_block : ErrorCode → Bool
is_would_block success = false
is_would_block ErrorCode.operation_aborted = false
is_would_block would_block = true
is_would_block completion_denied = false
is_would_block (ErrorCode.other n) = false

infixl 5 ◌>>=◌
abbrev pub ◌>>=◌ : {B C : Type 0} → Option B → (B → Option C) → Option C
none >>= f = none
some b >>= f = f b

-- `read_some` gets the socket's state and whether it is in non-blocking mode.
module _ {S : Type 0} (read_some : Bool → S → (ErrorCode × ℕ) × S) where
  -- The body of `atomic_read_op`, run with what `async_wait` reports; the latch is at `p`.
  unfoldable pub resume : ℕ → ErrorCode → ℕ → World S → Option (Reply × World S)
  resume p ec size w = do
    (trans, l) ← begin1 p w.latches
    if not (may_commit1 trans)
        then (do
          (trans, l) ← rollback1 trans l
          (_, l) ← destroy1 trans l
          some (completes completion_denied 0, record w { latches = l }))
        else if failed ec
        then (do
          (trans, l) ← commit1 trans l
          (_, l) ← destroy1 trans l
          some (completes ec size, record w { latches = l }))
        else (let wasblocked = w.non_blocking in
            let ((ec, size), sock) = read_some true w.sock in
            if is_would_block ec
            then (do
              (trans, l) ← rollback1 trans l
              (_, l) ← destroy1 trans l
              some (waits, record { sock = sock; non_blocking = wasblocked; latches = l }))
            else (do
              (trans, l) ← commit1 trans l
              (_, l) ← destroy1 trans l
              some (
                completes ec size,
                record { sock = sock; non_blocking = wasblocked; latches = l },
              )))

  -- Operations that share the latch at `p` and are resumed one after the other, each with what its
  -- `async_wait` reports; the size is the default argument.
  unfoldable pub resume_all : ℕ → List ErrorCode → World S → Option (List Reply × World S)
  resume_all p [] w = some ([], w)
  resume_all p (ec ∷ events) w = do
    (reply, w) ← resume p ec 0 w
    (replies, w) ← resume_all p events w
    some (reply ∷ replies, w)
