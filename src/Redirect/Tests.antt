-- ===== src/Redirect/Tests.antt =====
-- An operation that is cancelled before it completes.
use asio_experiments.Prelude.{ℕ, ◌≡◌, ◌≢◌, refl, [], ◌∷◌, ◌+◌, arith}
use asio_experiments.ErrorCode.{operation_aborted, success}
use asio_experiments.Redirect.{
  States, Handler, coded, Operation, ends, asks, signals, calls, initiate, complete, run,
  redirect_handler, redirect_cancellation, init_wrapper, assign, get_cancellation_slot,
}
use asio_experiments.Redirect.Report.{initiate-reports, made_directly, last_report, seen}

-- A state that keeps the last type that its filter lets through; its slot is the next one.
record Last : Type 0 where
  slot : ℕ
  filter : ℕ → ℕ
  cancelled : ℕ

abbrev emit_last : ℕ → Last → Last
emit_last c s = record s { cancelled = s.filter c }

abbrev lasts : States Last
lasts = record {
  on_slot = λ p f. record { slot = p + 1; filter = f; cancelled = 0 };
  slot = λ s. s.slot;
  filter = λ s. s.filter;
  cancelled = λ s. s.cancelled;
  emit = emit_last;
  filter_made = λ p f c. refl;
  cancelled_made = λ p f. refl;
  slot_kept = λ c s. refl;
  filter_kept = λ c s d. refl;
  cancelled_emit = λ c s e. e;
}

abbrev cancelled_read : Operation ℕ
cancelled_read = asks λ e a s. signals 4 (omega arith) (calls (coded operation_aborted s) ends)

abbrev reader : Handler
reader = record { id = 7; executor = 1; allocator = 2; slot = 3 }

-- The variable stands at 100.
cancelled_read-reported :
    (initiate lasts cancelled_read (redirect_cancellation reader 100) (λ q. 0)).1 100 ≡ 4
unfolding initiate init_wrapper redirect_cancellation run redirect_handler complete assign
    get_cancellation_slot
cancelled_read-reported = refl

initiate-reports_example :
    let (made, vars') = initiate lasts cancelled_read (redirect_cancellation reader 100) (λ q. 0) in
    (made ≡ record { handler = 7; args = coded success 4 } ∷ [])
    × (vars' 100 ≢ 0)
    × ((q : ℕ) → q ≢ 100 → vars' q ≡ 0)
unfolding made_directly last_report seen redirect_handler get_cancellation_slot
initiate-reports_example = initiate-reports lasts cancelled_read 100 reader (λ q. 0)
