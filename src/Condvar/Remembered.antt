-- ===== src/Condvar/Remembered.antt =====
-- Notifications with nobody waiting.
use asio_experiments.Prelude.{
  ℕ, zero, suc, ◌+◌, ◌≡◌, refl, ap, sym, ◌∙◌, List, [], ◌∷◌, ◌++◌, map, length, arith, append-nil,
  append_assoc,
}
use asio_experiments.ErrorCode.{success}
use asio_experiments.Semaphore.State.{Handler}
use asio_experiments.Semaphore.Spec
use asio_experiments.Condvar.{Task, resume, Condvar, make, async_wait, notify_one, notify_all}

-- Calls of `notify_one`, and waits without a predicate.
unfoldable pub notified : ℕ → Condvar → Condvar
notified zero cv = cv
notified (suc n) cv = notified n (notify_one cv)

unfoldable pub all_wait : List Handler → Condvar → Condvar
all_wait [] cv = cv
all_wait (h ∷ hs) cv = all_wait hs (async_wait h cv)

abbrev pub woken : Handler → Task
woken h = resume h success

-- Nobody waits, `n` notifications are stored and `ready` is with the executors.
abbrev pub stored : ℕ → List Task → Condvar → Condvar
stored n ready cv = record cv {
  semaphore = record { count = n; waiting = []; posted = [] };
  ready = ready;
}

notified-stored :
    (n k : ℕ) (ready : List Task) (cv : Condvar)
    → notified n (stored k ready cv) ≡ stored (k + n) ready cv
unfolding notified notify_one Spec.release
notified-stored zero k ready cv = ap (λ m. stored m ready cv) (omega arith)
notified-stored (suc n) k ready cv =
    ap (λ r. notified n (stored (suc k) r cv)) (append-nil ready)
    ∙ notified-stored n (suc k) ready cv
    ∙ ap (λ m. stored m ready cv) (omega arith)

wait-stored :
    (h : Handler) (n : ℕ) (ready : List Task) (cv : Condvar)
    → async_wait h (stored (suc n) ready cv) ≡ stored n (ready ++ (woken h ∷ [])) cv
unfolding async_wait Spec.acquire
wait-stored h n ready cv = refl

all_wait-stored :
    (hs : List Handler) (ready : List Task) (cv : Condvar)
    → all_wait hs (stored (length hs) ready cv) ≡ stored 0 (ready ++ map woken hs) cv
unfolding all_wait
all_wait-stored [] ready cv = ap (λ r. stored 0 r cv) (sym (append-nil ready))
all_wait-stored (h ∷ hs) ready cv =
    ap (all_wait hs) (wait-stored h (length hs) ready cv)
    ∙ all_wait-stored hs (ready ++ (woken h ∷ [])) cv
    ∙ ap (λ r. stored 0 r cv) (append_assoc ready (woken h ∷ []) (map woken hs))

-- `notify_one` with nobody waiting is remembered: after any number of such calls as many waits that
-- begin later go on at once, though nothing is notified after they began, while `notify_all` with
-- nobody waiting changes nothing.
pub all_wait-notified :
    (hs : List Handler) (host exec : ℕ)
    → (all_wait hs (notified (length hs) (make host exec))
        ≡ stored 0 (map woken hs) (make host exec))
      × (notify_all (make host exec) ≡ make host exec)
unfolding make notify_all Spec.complete_all
all_wait-notified hs host exec = (
  ap (all_wait hs) (
        notified-stored (length hs) 0 [] (make host exec)
        ∙ ap (λ m. stored m [] (make host exec)) (omega arith))
      ∙ all_wait-stored hs [] (make host exec),
  refl,
)
