-- ===== src/Semaphore/History.antt =====
-- The states that a semaphore can reach, and what holds in all of them.
use mathlib.Core.List.Perm
use mathlib.Core.List.Sublist
use asio_experiments.Prelude.{
  ℕ, ◌≤◌, ◌<◌, ◌≡◌, refl, true, false, Bool, inl, inr, sym, subst, some_inj, ◌∙◌, some, none, List,
  [], arith, length,
}
use asio_experiments.Prelude.Int.{pos, int_max, is_int_max}
use asio_experiments.ErrorCode.{success}
use asio_experiments.Bilist.Heap.{Ptr}
use asio_experiments.Bilist.Ring.{Ring}
use asio_experiments.Semaphore.{
  make, cancels, release, release_all, emit, try_acquire, async_acquire,
}
use asio_experiments.Semaphore.State.{Handler, Semaphore, M, pure, ◌>>=◌}
use asio_experiments.Semaphore.Spec
use asio_experiments.Semaphore.Spec.{Spec}
use asio_experiments.Semaphore.Abs.{Abs, Items-length}
use asio_experiments.Semaphore.Release.{release_refines}
use asio_experiments.Semaphore.Drain.{release_all_refines}
use asio_experiments.Semaphore.Acquire.{op_of, async_acquire_refines, try_acquire_refines}
use asio_experiments.Semaphore.Cancel.{emit_refines}
use asio_experiments.Semaphore.Make.{fresh, make-Abs}
use asio_experiments.Semaphore.Ledger.{
  Ledger, Fair, one_given, arrived, one_taken, many_given, release-Fair, acquire-Fair,
  try_acquire-Fair, complete_all-Fair, abort-Fair,
}

-- The calls of a client; `mem` is the storage that an acquire is given, `fuel` the rounds that
-- `release_all` is given.
pub data Call : Type 0 where
  releases tries : Call
  releases_all : (fuel : ℕ) → Call
  acquires : (mem : Ptr) → Handler → Call
  emits : (slot type : ℕ) → Call

pub data Reply : Type 0 where
  done : Reply
  took : Bool → Reply
  completed : ℕ → Reply

unfoldable pub exec : Call → M Reply
exec releases = do _ ← release; pure done
exec tries = do b ← try_acquire; pure (took b)
exec (releases_all fuel) = do n ← release_all fuel; pure (completed n)
exec (acquires mem h) = do _ ← async_acquire (some mem) h; pure done
exec (emits slot type) = do _ ← emit slot type; pure done

-- What a client has to see to: it does not release at the largest `int`, and it does not use one
-- cancellation slot for two operations that wait. The allocator returns unused storage, a signal is
-- of a type that the semaphore supports, and `release_all` has more rounds than there are nodes.
abbrev pub Allowed : Semaphore → Call → Type 0
Allowed s releases = is_int_max s.count ≡ false
Allowed s tries = Unit {0}
Allowed s (releases_all fuel) = (ps : List Ptr) → Ring s.heap s.waiters ps → length ps < fuel
Allowed s (acquires mem h) =
    (s.heap.next mem ≡ none) × ((k : ℕ) → h.slot ≡ some k → s.slots k ≡ none)
Allowed s (emits slot type) = cancels type ≡ true

-- The books that are kept of the calls and their replies.
abbrev pub entry : Call → Reply → Ledger → Ledger
entry releases r l = one_given l
entry tries (took b) l = one_taken b l
entry tries _ l = l
entry (releases_all fuel) (completed n) l = many_given n l
entry (releases_all fuel) _ l = l
entry (acquires mem h) r l = arrived h l
entry (emits slot type) r l = l

-- The states that allowed calls lead to, none of which faults, with the books.
pub data Run (at : Ptr) (dx n : ℕ) : Semaphore → Ledger → Type 0 where
  start : Run at dx n (make at dx (pos n)) (record { arrivals = []; given = n; taken = 0 })
  call :
      {s : Semaphore} {l : Ledger}
      → Run at dx n s l
      → (c : Call) → Allowed s c
      → {r : Reply} {t : Semaphore} → exec c s ≡ some (r, t)
      → Run at dx n t (entry c r l)

-- A state that can be reached stands for an abstract semaphore that is fair.
pub record IsSound (s : Semaphore) (l : Ledger) : Type 0 where
  pub nodes : List Ptr
  pub spec : Spec
  pub stands : Abs s nodes spec
  pub bounded : spec.count ≤ int_max
  pub fair : Fair spec l

-- The call `c` does not fault, and leaves a sound state and true books.
pub record Succeeds (s : Semaphore) (l : Ledger) (c : Call) : Type 0 where
  pub reply : Reply
  pub final : Semaphore
  pub runs : exec c s ≡ some (reply, final)
  pub sound : IsSound final (entry c reply l)

module _ (s : Semaphore) (l : Ledger) (v : IsSound s l) where
  open v use {nodes, spec, stands, bounded, fair}

  release-Succeeds : is_int_max s.count ≡ false → Succeeds s l releases
  unfolding exec Spec.release
  release-Succeeds h =
      let y = release_refines s nodes spec stands (ground (arith, stands.count)) in
      record {
        reply = done;
        final = y.final;
        runs = ground (arith, y.runs);
        sound = record {
          nodes = y.nodes;
          spec = Spec.release spec;
          stands = y.stands;
          bounded = ground (arith, stands.count, bounded, Spec.count-release spec);
          fair = release-Fair spec l fair;
        };
      }

  tries-Succeeds : Succeeds s l tries
  unfolding exec
  tries-Succeeds =
      let y = try_acquire_refines s nodes spec stands in
      record {
        reply = took (Spec.try_acquire spec).0;
        final = y.final;
        runs = ground (arith, y.runs);
        sound = record {
          nodes = y.nodes;
          spec = (Spec.try_acquire spec).1;
          stands = y.stands;
          bounded = omega (arith, bounded, Spec.count-try_acquire spec);
          fair = try_acquire-Fair spec l fair;
        };
      }

  releases_all-Succeeds :
      (fuel : ℕ) → Allowed s (releases_all fuel) → Succeeds s l (releases_all fuel)
  unfolding exec
  releases_all-Succeeds fuel h =
      let enough : length spec.waiting < fuel = omega (
        arith,
        h nodes stands.queue.ring,
        Items-length s.heap nodes spec.waiting stands.queue.items,
      ) in
      let y = release_all_refines s nodes spec fuel stands enough in
      record {
        reply = completed (length spec.waiting);
        final = y.final;
        runs = ground (arith, y.runs);
        sound = record {
          nodes = y.nodes;
          spec = Spec.complete_all success spec;
          stands = y.stands;
          bounded = omega (arith, bounded, Spec.count-complete_all success spec);
          fair = complete_all-Fair spec l fair;
        };
      }

  acquires-Succeeds :
      (mem : Ptr) (h : Handler) → Allowed s (acquires mem h) → Succeeds s l (acquires mem h)
  unfolding exec
  acquires-Succeeds mem h ok =
      let y = async_acquire_refines s nodes spec mem h stands ok.0 ok.1 in
      record {
        reply = done;
        final = y.final;
        runs = ground (arith, y.runs);
        sound = record {
          nodes = y.nodes;
          spec = Spec.acquire (op_of s h) spec;
          stands = y.stands;
          bounded = omega (arith, bounded, Spec.count-acquire (op_of s h) spec);
          fair = acquire-Fair (op_of s h) spec l fair;
        };
      }

  emits-Succeeds : (slot type : ℕ) → cancels type ≡ true → Succeeds s l (emits slot type)
  unfolding exec
  emits-Succeeds slot type c = elim (emit_refines s nodes spec slot type stands c) [
    | inl x ↦ record {
      reply = done;
      final = x.yields.final;
      runs = ground (arith, x.yields.runs);
      sound = record {
        nodes = x.yields.nodes;
        spec = Spec.abort x.before x.op x.behind spec;
        stands = x.yields.stands;
        bounded = omega (arith, bounded, Spec.count-abort x.before x.op x.behind spec);
        fair = abort-Fair x.before x.op x.behind spec l x.waiting fair;
      };
    }
    | inr x ↦ record { reply = done; final = s; runs = ground (arith, x.0); sound = v }
  ]

-- Every allowed call on a sound semaphore runs without a fault, and leaves a sound semaphore.
pub exec-IsSound :
    (s : Semaphore) (l : Ledger) (c : Call) → IsSound s l → Allowed s c → Succeeds s l c
exec-IsSound s l releases v h = release-Succeeds s l v h
exec-IsSound s l tries v h = tries-Succeeds s l v
exec-IsSound s l (releases_all fuel) v h = releases_all-Succeeds s l v fuel h
exec-IsSound s l (acquires mem x) v h = acquires-Succeeds s l v mem x h
exec-IsSound s l (emits slot type) v h = emits-Succeeds s l v slot type h

fresh-Fair : (n : ℕ) → Fair (fresh n) (record { arrivals = []; given = n; taken = 0 })
fresh-Fair n = record {
  idle = λ h. refl;
  balance = omega arith;
  once = Perm.refl [];
  fifo = Sublist.refl [];
}

-- Whatever allowed calls have been made on a semaphore: its memory stands for an abstract semaphore
-- at which nobody waits while a token is left; every operation that came waits or has been posted,
-- exactly once; tokens were granted in the order of arrival; and the tokens that were given are the
-- counter, the grants and what `try_acquire` took.
pub Run-IsSound :
    (at : Ptr) (dx n : ℕ) (s : Semaphore) (l : Ledger) → n ≤ int_max → Run at dx n s l → IsSound s l
Run-IsSound at dx n s l h start = record {
  nodes = [];
  spec = fresh n;
  stands = make-Abs at dx n;
  bounded = h;
  fair = fresh-Fair n;
}
Run-IsSound at dx n s l h (call {s = s'} {l = l'} run c ok {r} {t} e) =
    let x = exec-IsSound s' l' c (Run-IsSound at dx n s' l' h run) ok in
    subst (λ (p : Reply × Semaphore). IsSound p.1 (entry c p.0 l'))
      (some_inj (x.reply, x.final) (r, t) (sym x.runs ∙ e)) x.sound
