-- ===== src/Redirect/Report.antt =====
-- What a redirected operation completes with and what it leaves in the variable.
use asio_experiments.Prelude.{
  ℕ, ◌≡◌, refl, sym, subst, ap, ap₂, ◌∙◌, ◌≢◌, ◌<◌, Bool, true, false, Option, none, some, List, [],
  ◌∷◌, if◌then◌else◌, arith,
}
use asio_experiments.ErrorCode.{success}
use asio_experiments.Redirect.{
  States, Handler, Args, nothing, others, coded, Call, RedirectHandler, no_filter, assign,
  Operation, ends, asks, signals, calls, redirect_handler, redirect_cancellation, init_wrapper,
  get_cancellation_slot, complete, run, initiate,
}

-- The code is taken away when a cancellation was asked for.
abbrev pub hidden : {A : Type 0} → Bool → Args A → Args A
hidden b nothing = nothing
hidden b (others x) = others x
hidden b (coded ec x) = coded (if b then success else ec) x

-- What a call reports of the cancellation, and else what was reported before it.
abbrev pub report : {A : Type 0} → Args A → Bool → Option Bool → Option Bool
report nothing b before = before
report (others x) b before = before
report (coded ec x) b before = some b

module _ {A : Type 0} where
  -- The calls that the operation makes with the handler itself, but for the codes; `b` says whether
  -- a cancellation was asked for.
  unfoldable pub made_directly : Operation A → Handler → Bool → List (Call A)
  made_directly ends h b = []
  made_directly (asks k) h b = made_directly (k h.executor h.allocator h.slot) h b
  made_directly (signals c some_type next) h b = made_directly next h true
  made_directly (calls args next) h b =
      record { handler = h.id; args = hidden b args } ∷ made_directly next h b

  -- Whether a cancellation was asked for before the last call with a code, if there was one.
  unfoldable pub last_report : Operation A → Handler → Bool → Option Bool → Option Bool
  last_report ends h b before = before
  last_report (asks k) h b before = last_report (k h.executor h.allocator h.slot) h b before
  last_report (signals c some_type next) h b before = last_report next h true before
  last_report (calls args next) h b before = last_report next h b (report args b before)

-- A variable with the value `old` before, and what it holds after the report.
abbrev pub Reported : Option Bool → ℕ → ℕ → Type 0
Reported none old new = new ≡ old
Reported (some true) old new = new ≢ 0
Reported (some false) old new = new ≡ 0

module _ {S : Type 0} (asio : States S) where
  -- `r` is a redirected handler for the variable at `cancel`, and `h` what an operation sees of it;
  -- `b` says whether a cancellation was asked for.
  record Tracks (h : Handler) (cancel : ℕ) (b : Bool) (r : RedirectHandler S) : Type 0 where
    id : r.handler.id ≡ h.id
    executor : r.handler.executor ≡ h.executor
    allocator : r.handler.allocator ≡ h.allocator
    slot : asio.slot r.state ≡ h.slot
    variable : r.cancel ≡ cancel
    filter : (c : ℕ) → asio.filter r.state c ≡ c
    unset : b ≡ false → asio.cancelled r.state ≡ 0
    set : b ≡ true → asio.cancelled r.state ≢ 0

  -- What an operation sees of a handler that is redirected: the handler, but for its slot.
  unfoldable pub seen : ℕ → Handler → Handler
  unfolding redirect_handler get_cancellation_slot
  seen cancel h = record h { slot = get_cancellation_slot asio (redirect_handler asio cancel h) }

  Tracks-start :
      (h : Handler) (cancel : ℕ)
      → Tracks (seen cancel h) cancel false (redirect_handler asio cancel h)
  unfolding redirect_handler seen get_cancellation_slot
  Tracks-start h cancel = record {
    id = refl;
    executor = refl;
    allocator = refl;
    slot = refl;
    variable = refl;
    filter = asio.filter_made h.slot no_filter;
    unset = λ e. asio.cancelled_made h.slot no_filter;
    set = λ e. cc;
  }

  Tracks-emit :
      {h : Handler} {cancel : ℕ} {b : Bool} {r : RedirectHandler S} (c : ℕ)
      → 0 < c
      → Tracks h cancel b r
      → Tracks h cancel true (record r { state = asio.emit c r.state })
  Tracks-emit {r = r} c some_type t = record {
    id = t.id;
    executor = t.executor;
    allocator = t.allocator;
    slot = asio.slot_kept c r.state ∙ t.slot;
    variable = t.variable;
    filter = λ d. asio.filter_kept c r.state d ∙ t.filter d;
    unset = λ e. cc;
    set = λ e. asio.cancelled_emit c r.state (λ z. ground (arith, t.filter c));
  }

-- The operation made the calls `made` and left `vars'` of `vars`; `last` is what it reported.
record Outcome {C : Type 0} (made expected : C) (cancel : ℕ) (last : Option Bool) (old : ℕ)
    (vars vars' : ℕ → ℕ) : Type 0 where
  calls : made ≡ expected
  reported : Reported last old (vars' cancel)
  apart : (q : ℕ) → q ≢ cancel → vars' q ≡ vars q

module _ {S A : Type 0} (asio : States S) where
  complete-Outcome :
      {h : Handler} {cancel : ℕ} {b : Bool} {r : RedirectHandler S} (args : Args A)
      (before : Option Bool) (old : ℕ) (vars : ℕ → ℕ)
      → Tracks asio h cancel b r
      → Reported before old (vars cancel)
      → Outcome
          (complete asio args r vars).0
          (record { handler = h.id; args = hidden b args })
          cancel
          (report args b before)
          old
          vars
          (complete asio args r vars).1
  unfolding complete assign
  complete-Outcome nothing before old vars t reported = record {
    calls = ap (λ (n : ℕ). record { handler = n; args = nothing }) t.id;
    reported = reported;
    apart = λ q ne. refl;
  }
  complete-Outcome (others x) before old vars t reported = record {
    calls = ap (λ (n : ℕ). record { handler = n; args = others x }) t.id;
    reported = reported;
    apart = λ q ne. refl;
  }
  complete-Outcome {b = true} (coded ec x) before old vars t reported = record {
    calls = ground (arith, t.id, t.set refl);
    reported = ground (arith, t.variable, t.set refl);
    apart = λ q ne. ground (arith, t.variable);
  }
  complete-Outcome {b = false} (coded ec x) before old vars t reported = record {
    calls = ground (arith, t.id, t.unset refl);
    reported = ground (arith, t.variable, t.unset refl);
    apart = λ q ne. ground (arith, t.variable);
  }

  run-Outcome :
      (operation : Operation A) {h : Handler} {cancel : ℕ} (b : Bool) (r : RedirectHandler S)
      (before : Option Bool) (old : ℕ) (vars : ℕ → ℕ)
      → Tracks asio h cancel b r
      → Reported before old (vars cancel)
      → Outcome
          (run asio operation r vars).0
          (made_directly operation h b)
          cancel
          (last_report operation h b before)
          old
          vars
          (run asio operation r vars).1
  unfolding run made_directly last_report get_cancellation_slot
  run-Outcome ends b r before old vars t reported = record {
    calls = refl;
    reported = reported;
    apart = λ q ne. refl;
  }
  run-Outcome (asks k) {h = h} {cancel = cancel} b r before old vars t reported =
      let next = k h.executor h.allocator h.slot in
      let same : k r.handler.executor r.handler.allocator (asio.slot r.state) ≡ next =
        ground (arith, t.executor, t.allocator, t.slot) in
      subst
        (λ (o : Operation A).
          Outcome (run asio o r vars).0 (made_directly next h b) cancel
            (last_report next h b before) old vars (run asio o r vars).1)
        (sym same) (run-Outcome (k h.executor h.allocator h.slot) b r before old vars t reported)
  run-Outcome (signals c some_type next) b r before old vars t reported =
      run-Outcome next true (record r { state = asio.emit c r.state }) before old vars
        (Tracks-emit asio c some_type t) reported
  run-Outcome (calls args next) b r before old vars t reported =
      let one = complete-Outcome args before old vars t reported in
      let rest =
        run-Outcome next b r (report args b before) old (complete asio args r vars).1 t
          one.reported in
      record {
        calls = ap₂ (λ (c : Call A) (cs : List (Call A)). c ∷ cs) one.calls rest.calls;
        reported = rest.reported;
        apart = λ q ne. rest.apart q ne ∙ one.apart q ne;
      }

  -- An operation with a redirected handler makes the calls that it makes with the handler itself, with
  -- its executor and allocator and the slot of the cancellation state, but a call with an error code
  -- after a signal of any type has success in the code's place. The last call with a code leaves in
  -- the variable whether a signal came before it: none if not, something else if so. Without such a
  -- call the variable keeps its value, and no other variable changes.
  pub initiate-reports :
      (operation : Operation A) (cancel : ℕ) (h : Handler) (vars : ℕ → ℕ)
      → let (made, vars') = initiate asio operation (redirect_cancellation h cancel) vars in
        (made ≡ made_directly operation (seen asio cancel h) false)
        × Reported
            (last_report operation (seen asio cancel h) false none)
            (vars cancel)
            (vars' cancel)
        × ((q : ℕ) → q ≢ cancel → vars' q ≡ vars q)
  unfolding initiate init_wrapper redirect_cancellation
  initiate-reports operation cancel h vars =
      let outcome =
        run-Outcome operation false (redirect_handler asio cancel h) none (vars cancel) vars
          (Tracks-start asio h cancel) refl in
      (outcome.calls, outcome.reported, outcome.apart)
