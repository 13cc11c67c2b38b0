-- ===== src/Debug.antt =====
-- debug/report_fatal.hpp: a completion handler that prints what an operation completed with.
pub mod Output
mod Tests
use asio_experiments.Prelude.{ℕ, Option, none, some, List, [], ◌∷◌, ◌++◌}
use asio_experiments.ErrorCode.Message.{codes}

-- An exception derived from `std::exception`, by its `what()`, or any other.
pub data Exception : Type 0 where
  standard : List ℕ → Exception
  other : Exception

-- What is written to `std::cout`, and the exception that ends the writing, if any.
pub record Written : Type 0 where
  pub out : List ℕ
  pub raised : Option Exception

abbrev pub prints : List ℕ → Written
prints t = record { out = t; raised = none }

infixl 5 ◌>>◌
abbrev pub ◌>>◌ : Written → Written → Written
v >> w = elim v.raised [ none ↦ record { out = v.out ++ w.out; raised = w.raised } | some e ↦ v ]

abbrev pub newline : List ℕ
newline = 10 ∷ []

-- The body of the handler `catch(std::exception& e)`
unfoldable pub on_exception : Written → Written
on_exception w = elim w.raised [
  | none ↦ w
  | some e ↦ elim e [
    | standard what ↦ prints w.out >> prints (codes "exception: " ++ what ++ newline)
    | other ↦ w
  ]
]

-- `(emit(args),...)`, from the separator on; an argument is what `<<` does with it.
unfoldable pub emits : List ℕ → List Written → Written
emits sep [] = prints []
emits sep (arg ∷ args) = prints sep >> arg >> emits (codes ", ") args

-- `fatal_reporter`; a context is what `<<` does with it.
pub record FatalReporter : Type 0 where
  pub context : Written

-- `fatal_reporter::operator()`
unfoldable pub call : FatalReporter → Option Exception → List Written → Written
unfolding on_exception emits
call r ep args =
    r.context
    >> prints (codes ": ")
    >> on_exception
        (elim ep [ some e ↦ record { out = []; raised = some e } | none ↦ emits [] args ])
    >> prints newline

unfoldable pub report_fatal : Written → FatalReporter
report_fatal context = record { context = context }
