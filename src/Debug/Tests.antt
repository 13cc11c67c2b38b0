-- ===== src/Debug/Tests.antt =====
-- Two arguments, and an operation that has failed.
use asio_experiments.Prelude.{ℕ, ◌≡◌, refl, none, some, List, [], ◌∷◌, ◌++◌, map}
use asio_experiments.ErrorCode.Message.{codes}
use asio_experiments.Debug.{
  standard, other, prints, newline, on_exception, emits, FatalReporter, call, report_fatal,
}
use asio_experiments.Debug.Output.{call-report}

abbrev values : List (List ℕ)
values = codes "1" ∷ codes "two" ∷ []

call-values :
    call (report_fatal (prints (codes "main"))) none (map prints values)
    ≡ prints (codes "main: 1, two" ++ newline)
unfolding call report_fatal on_exception emits
call-values = refl

abbrev reporter : FatalReporter
unfolding report_fatal
reporter = report_fatal (prints (codes "main"))

call-report_example :
    (call reporter none (map prints values) ≡ prints (codes "main: 1, two" ++ newline))
    × (call reporter (some (standard (codes "oops"))) []
        ≡ prints (codes "main: exception: oops" ++ newline ++ newline))
    × (call reporter (some other) [] ≡ record { out = codes "main: "; raised = some other })
    × (call reporter none
          (map prints values ++ record { out = []; raised = some (standard (codes "oops")) } ∷ [])
        ≡ prints (codes "main: 1, two, exception: oops" ++ newline ++ newline))
unfolding report_fatal
call-report_example = call-report (codes "main") (codes "oops") [] values []
