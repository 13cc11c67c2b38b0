-- ===== src/Latch/Pair.antt =====
-- include/asioex/impl/transaction.hpp: transactions on two latches at once.
use asio_experiments.Prelude.{
  ℕ, ◌≡◌, refl, ◌∙◌, Bool, true, false, some, arith, ◌==◌, ◌&&◌, not, if◌then◌else◌,
}
use asio_experiments.Latch.{
  Latches, put, put-here, put-put, M, ◌>>=◌, ◌>>◌, pure, lock, unlock, may_commit, Transaction2,
  no_transaction, may_commit2, rollback2, commit2, destroy2, begin2,
}
use asio_experiments.Latch.Two.{
  put2, put-over, put2-left, put2-same, free, held, put-apart, lock_lem, unlock_lem, put2-right,
  if_lem, put2-put2,
}
use asio_experiments.Latch.Single.{
  Choice, commits, rolls_back, leaves, wants, open_free, open_held, done_free, commit_lem,
  rollback_lem,
}

-- One contender for both latches, as `attempt` for one.
unfoldable pub attempt2 : ℕ → ℕ → Choice → M Bool
attempt2 p q c = do
  t ← begin2 p q
  if may_commit2 t
      then (elim c [
        | commits ↦ (do t' ← commit2 t; destroy2 t'; pure true)
        | rolls_back ↦ (do t' ← rollback2 t; destroy2 t'; pure false)
        | leaves ↦ (do destroy2 t; pure false)
      ])
      else (do t' ← rollback2 t; destroy2 t'; pure false)

abbrev pub both : ℕ → ℕ → Transaction2
both p q = record { latch1 = some p; latch2 = some q }

module _ (s : Latches) (p q : ℕ) (a b : Bool) (d : (p == q) ≡ false) (u : s p ≡ free a)
    (v : s q ≡ free b) where
  pub lock_second : lock q (put s p (held a)) ≡ some (tt, put2 s p q (held a) (held b))
  lock_second = lock_lem (put s p (held a)) q b (put-apart s p q (held a) d ∙ v)

  pub unlock_both :
      {C : Type 0} (k : M C) → (unlock p >> (unlock q >> k)) (put2 s p q (held a) (held b)) ≡ k s
  unlock_both k =
      simp
        (
          unlock_lem (put2 s p q (held a) (held b)) p a (put2-left s p q (held a) (held b) d),
          put2-right s p q (held a) (held b) (free a) d,
          put-over s p q (held a) (held b) (free a) d,
          put-put,
          put2-same s p q (free a) (free b) u v,
          ◌>>=◌,
          ◌>>◌,
        )
        refl

  pub begin2_lem : begin2 p q s ≡ (
      if not a && not b
      then some (both p q, put2 s p q (held a) (held b))
      else some (no_transaction, s))
  unfolding begin2
  begin2_lem =
      simp
        (
          lock_lem s p a u,
          lock_second,
          put2-left s p q (held a) (held b) d,
          put-here,
          may_commit,
          ◌>>=◌,
          ◌>>◌,
        )
        (if_lem (not a && not b) _ _ (put2 s p q (held a) (held b)) _ _ refl
          (unlock_both (pure no_transaction)))

pub commit2_lem :
    (s : Latches) (p q : ℕ)
    → ((p == q) ≡ false)
    → s p ≡ open_held
    → s q ≡ open_held
    → commit2 (both p q) s ≡ some (no_transaction, put2 s p q done_free done_free)
unfolding commit2
commit2_lem s p q d u v =
    simp
      (
        u,
        v,
        commit_lem s p u,
        commit_lem (put s p done_free) q (put-apart s p q done_free d ∙ v),
        ◌>>=◌,
        ◌>>◌,
      )
      refl

pub rollback2_lem :
    (s : Latches) (p q : ℕ)
    → ((p == q) ≡ false)
    → s p ≡ open_held
    → s q ≡ open_held
    → rollback2 (both p q) s ≡ some (no_transaction, put2 s p q open_free open_free)
unfolding rollback2
rollback2_lem s p q d u v =
    simp
      (
        rollback_lem s p u,
        rollback_lem (put s p open_free) q (put-apart s p q open_free d ∙ v),
        ◌>>=◌,
        ◌>>◌,
      )
      refl

pub destroy2_lem :
    (s : Latches) (p q : ℕ)
    → ((p == q) ≡ false)
    → s p ≡ open_held
    → s q ≡ open_held
    → destroy2 (both p q) s ≡ some (tt, put2 s p q open_free open_free)
unfolding destroy2
destroy2_lem s p q d u v = simp (rollback2_lem s p q d u v, ◌>>=◌) refl

pub destroy2-ended : (s : Latches) → destroy2 no_transaction s ≡ some (tt, s)
unfolding destroy2 rollback2
destroy2-ended s = refl

-- The latches after a contender for both.
abbrev pub after2 : Latches → ℕ → ℕ → Bool → Latches
after2 s p q true = put2 s p q done_free done_free
after2 s p q false = s

module _ (s : Latches) (p q : ℕ) (d : (p == q) ≡ false) where
  abbrev pub both_held : Latches
  both_held = put2 s p q open_held open_held

  pub held-left : both_held p ≡ open_held
  held-left = put2-left s p q open_held open_held d

  pub held-right : both_held q ≡ open_held
  held-right = put-here (put s p open_held) q open_held

  module _ (u : s p ≡ open_free) (v : s q ≡ open_free) where
    pub released : put2 both_held p q open_free open_free ≡ s
    released =
        put2-put2 s p q open_held open_held open_free open_free d
        ∙ put2-same s p q open_free open_free u v

    pub attempt2-open : (c : Choice) → attempt2 p q c s ≡ some (wants c, after2 s p q (wants c))
    unfolding attempt2
    attempt2-open commits =
        simp
          (
            begin2_lem s p q false false d u v,
            commit2_lem both_held p q d held-left held-right,
            destroy2-ended,
            put2-put2 s p q open_held open_held done_free done_free d,
            ◌>>=◌,
            ◌>>◌,
          )
          refl
    attempt2-open rolls_back =
        simp
          (
            begin2_lem s p q false false d u v,
            rollback2_lem both_held p q d held-left held-right,
            destroy2-ended,
            released,
            ◌>>=◌,
            ◌>>◌,
          )
          refl
    attempt2-open leaves =
        simp
          (
            begin2_lem s p q false false d u v,
            destroy2_lem both_held p q d held-left held-right,
            released,
            ◌>>=◌,
            ◌>>◌,
          )
          refl

pub attempt2-closed :
    (s : Latches) (p q : ℕ) (a b : Bool) (c : Choice)
    → ((p == q) ≡ false)
    → s p ≡ free a
    → s q ≡ free b
    → (not a && not b) ≡ false
    → attempt2 p q c s ≡ some (false, s)
unfolding attempt2 destroy2 rollback2
attempt2-closed s p q a b c d u v n = simp (begin2_lem s p q a b d u v, n, ◌>>=◌) refl

-- One contender for two different latches that no transaction holds: it commits exactly if it wants
-- to and both are open, and then both are transferred; in every other case neither changes. It never
-- fails an assertion, and leaves both mutexes free and every other latch as it was.
pub attempt2-atomic :
    (s : Latches) (p q : ℕ) (a b : Bool) (c : Choice)
    → ¬ (p ≡ q)
    → s p ≡ free a
    → s q ≡ free b
    → attempt2 p q c s ≡ some (not a && not b && wants c, after2 s p q (not a && not b && wants c))
attempt2-atomic s p q false false c ne u v = attempt2-open s p q (ground arith) u v c
attempt2-atomic s p q true b c ne u v = attempt2-closed s p q true b c (ground arith) u v refl
attempt2-atomic s p q false true c ne u v =
    attempt2-closed s p q false true c (ground arith) u v refl
