-- ===== src/Semaphore/Ledger.antt =====
-- What an abstract semaphore owes to those who use it: every operation that has come is in the
-- queue or has completed, once; tokens are granted in the order of arrival; no token is made up or
-- lost; and nobody waits while a token is left.
use mathlib.Core.List.{Perm, Sublist, perm_middle}
use mathlib.Core.List.Perm
use mathlib.Core.List.Sublist
use asio_experiments.Prelude.{
  middle-ne-nil, ℕ, zero, suc, ◌+◌, ◌≡◌, refl, sym, ap, ◌∙◌, subst, true, false, Bool, List, [],
  ◌∷◌, ◌++◌, map, arith, length, length-append, append_assoc, append-nil, if◌then◌else◌,
}
use asio_experiments.ErrorCode.{ErrorCode, success, failed}
use asio_experiments.Semaphore.State.{Handler, WaitOp, Post, completion}
use asio_experiments.Semaphore.Spec
use asio_experiments.Semaphore.Spec.{Spec, give, take_token, take_now, completions, IsIdle}

pub record Ledger : Type 0 where
  pub arrivals : List Handler
  pub given : ℕ
  pub taken : ℕ

abbrev pub handlers : List WaitOp → List Handler
handlers = map λ w. w.handler

abbrev pub served : List Post → List Handler
served = map λ c. c.handler

-- The handlers that have been posted with success, in that order.
abbrev pub granted : List Post → List Handler
granted [] = []
granted (c ∷ cs) = if failed c.code then granted cs else c.handler ∷ granted cs

pub record Fair (a : Spec) (l : Ledger) : Type 0 where
  pub idle : IsIdle a
  pub balance : l.given ≡ a.count + length (granted a.posted) + l.taken
  pub once : Perm (served a.posted ++ handlers a.waiting) l.arrivals
  pub fifo : Sublist (granted a.posted ++ handlers a.waiting) l.arrivals

granted-append : (xs ys : List Post) → granted (xs ++ ys) ≡ granted xs ++ granted ys
granted-append [] ys = refl
granted-append (c ∷ cs) ys = ground (arith, granted-append cs ys)

served-append : (xs ys : List Post) → served (xs ++ ys) ≡ served xs ++ served ys
served-append [] ys = refl
served-append (c ∷ cs) ys = ap (◌∷◌ c.handler) (served-append cs ys)

handlers-append : (xs ys : List WaitOp) → handlers (xs ++ ys) ≡ handlers xs ++ handlers ys
handlers-append [] ys = refl
handlers-append (w ∷ ws) ys = ap (◌∷◌ w.handler) (handlers-append ws ys)

granted-completions : (ws : List WaitOp) → granted (completions success ws) ≡ handlers ws
granted-completions [] = refl
granted-completions (w ∷ ws) = ap (◌∷◌ w.handler) (granted-completions ws)

served-completions : (ec : ErrorCode) (ws : List WaitOp) → served (completions ec ws) ≡ handlers ws
served-completions ec [] = refl
served-completions ec (w ∷ ws) = ap (◌∷◌ w.handler) (served-completions ec ws)

ruleset ledger_laws = (
  granted-append, served-append, handlers-append, granted-completions, served-completions,
  append_assoc, append-nil,
)

-- A token more.
abbrev pub one_given : Ledger → Ledger
one_given l = record l { given = suc l.given }

give-Fair :
    (ws : List WaitOp) (a : Spec) (l : Ledger)
    → a.waiting ≡ ws
    → Fair a l
    → Fair (give ws a) (one_given l)
give-Fair [] a l e f = record {
  idle = λ _. e;
  balance = omega (arith, f.balance);
  once = f.once;
  fifo = f.fifo;
}
give-Fair (w ∷ ws) a l e f = record {
  idle = λ h. ground (arith, f.idle h);
  balance = omega (
    arith,
    f.balance,
    ap length (granted-append a.posted (completion w success ∷ [])),
    length-append (granted a.posted) (w.handler ∷ []),
  );
  once = simp ledger_laws (rw e at f.once);
  fifo = simp ledger_laws (rw e at f.fifo);
}

pub release-Fair : (a : Spec) (l : Ledger) → Fair a l → Fair (Spec.release a) (one_given l)
unfolding Spec.release
release-Fair a l f = give-Fair a.waiting a l refl f

abbrev pub arrived : Handler → Ledger → Ledger
arrived h l = record l { arrivals = l.arrivals ++ (h ∷ []) }

take_token-Fair :
    (n : ℕ) (w : WaitOp) (a : Spec) (l : Ledger)
    → a.count ≡ n
    → Fair a l
    → Fair (take_token n w a) (arrived w.handler l)
take_token-Fair zero w a l e f = record {
  idle = λ h. absurd (omega arith);
  balance = f.balance;
  once =
      subst (λ x. Perm x (l.arrivals ++ (w.handler ∷ []))) (simp ledger_laws)
        (Perm.append_right (w.handler ∷ []) f.once);
  fifo =
      subst (λ x. Sublist x (l.arrivals ++ (w.handler ∷ []))) (simp ledger_laws)
        (Sublist.append f.fifo (Sublist.refl (w.handler ∷ [])));
}
take_token-Fair (suc n) w a l e f =
    let none_waits : a.waiting ≡ [] = f.idle (omega arith) in
    record {
      idle = λ h. none_waits;
      balance = omega (
        arith,
        f.balance,
        ap length (granted-append a.posted (completion w success ∷ [])),
        length-append (granted a.posted) (w.handler ∷ []),
      );
      once =
          subst (λ x. Perm x (l.arrivals ++ (w.handler ∷ []))) (simp (none_waits, ledger_laws))
            (Perm.append_right (w.handler ∷ []) f.once);
      fifo =
          subst (λ x. Sublist x (l.arrivals ++ (w.handler ∷ []))) (simp (none_waits, ledger_laws))
            (Sublist.append f.fifo (Sublist.refl (w.handler ∷ [])));
    }

pub acquire-Fair :
    (w : WaitOp) (a : Spec) (l : Ledger) → Fair a l → Fair (Spec.acquire w a) (arrived w.handler l)
unfolding Spec.acquire
acquire-Fair w a l f = take_token-Fair a.count w a l refl f

abbrev pub one_taken : Bool → Ledger → Ledger
one_taken true l = record l { taken = suc l.taken }
one_taken false l = l

take_now-Fair :
    (n : ℕ) (a : Spec) (l : Ledger)
    → a.count ≡ n
    → Fair a l
    → Fair (take_now n a).1 (one_taken (take_now n a).0 l)
take_now-Fair zero a l e f = f
take_now-Fair (suc n) a l e f = record {
  idle = λ h. f.idle (omega arith);
  balance = omega (arith, f.balance);
  once = f.once;
  fifo = f.fifo;
}

pub try_acquire-Fair :
    (a : Spec) (l : Ledger)
    → Fair a l
    → Fair (Spec.try_acquire a).1 (one_taken (Spec.try_acquire a).0 l)
unfolding Spec.try_acquire
try_acquire-Fair a l f = take_now-Fair a.count a l refl f

abbrev pub many_given : ℕ → Ledger → Ledger
many_given n l = record l { given = l.given + n }

length-handlers : (ws : List WaitOp) → length (handlers ws) ≡ length ws
length-handlers [] = refl
length-handlers (w ∷ ws) = ap suc (length-handlers ws)

pub complete_all-Fair :
    (a : Spec) (l : Ledger)
    → Fair a l
    → Fair (Spec.complete_all success a) (many_given (length a.waiting) l)
unfolding Spec.complete_all
complete_all-Fair a l f = record {
  idle = λ h. refl;
  balance = omega (
    arith,
    f.balance,
    ap length (granted-append a.posted (completions success a.waiting)),
    length-append (granted a.posted) (granted (completions success a.waiting)),
    ap length (granted-completions a.waiting),
    length-handlers a.waiting,
  );
  once = simp ledger_laws f.once;
  fifo = simp ledger_laws f.fifo;
}

pub abort-Fair :
    (before : List WaitOp) (w : WaitOp) (behind : List WaitOp) (a : Spec) (l : Ledger)
    → a.waiting ≡ before ++ (w ∷ behind)
    → Fair a l
    → Fair (Spec.abort before w behind a) l
unfolding Spec.abort
abort-Fair before w behind a l e f = record {
  idle = λ h. absurd (middle-ne-nil before w behind (sym e ∙ f.idle h));
  balance = simp ledger_laws f.balance;
  once = simp ledger_laws (
      Perm.trans
        (Perm.append_left (served a.posted)
          (Perm.symm (perm_middle (handlers before) (handlers behind))))
        (simp ledger_laws at (rw e at f.once)));
  fifo = simp ledger_laws (
      Sublist.trans
        (Sublist.append (Sublist.refl (granted a.posted)) (
          Sublist.append (Sublist.refl (handlers before))
            (Sublist.cons w.handler (Sublist.refl (handlers behind)))))
        (simp ledger_laws at (rw e at f.fifo)));
}
