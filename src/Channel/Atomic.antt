-- ===== src/Channel/Atomic.antt =====
-- The transfers of one value through the latch of its target, and through those of source and target.
use asio_experiments.Prelude.{
  ℕ, ◌≡◌, ◌≢◌, refl, Bool, true, false, not, ◌&&◌, some, List, [], ◌∷◌, ◌==◌, if◌then◌else◌, arith,
}
use asio_experiments.Latch.{
  Latches, put, put-here, put-put, ◌>>=◌, ◌>>◌, destroy1, rollback1, destroy2, rollback2,
}
use asio_experiments.Latch.Two.{free, put2-put2}
use asio_experiments.Latch.Single.{
  open_held, done_free, after, begin1-open, begin1-done, commit1-held,
}
use asio_experiments.Latch.Pair.{
  after2, begin2_lem, commit2_lem, both_held, held-left, held-right, destroy2-ended,
}
use asio_experiments.Channel.{atomic_deliver, atomic_transfer}

module _ {V : Type 0} (val : V) where
  -- What the target is given.
  abbrev pub given : Bool → List V
  given b = if b then val ∷ [] else []

  -- The target of a delivery through a latch that no transaction holds gets the value exactly if the
  -- latch was open, and then the latch is transferred.
  pub atomic_deliver_lem :
      (s : Latches) (p : ℕ) (a : Bool)
      → s p ≡ free a
      → atomic_deliver p val s ≡ some ((not a, given (not a)), after s p (not a))
  unfolding atomic_deliver destroy1 rollback1
  atomic_deliver_lem s p true u = simp (begin1-done s p u, ◌>>=◌, ◌>>◌) refl
  atomic_deliver_lem s p false u =
      simp
        (
          begin1-open s p u,
          commit1-held (put s p open_held) p (put-here s p open_held),
          put-put,
          ◌>>=◌,
          ◌>>◌,
        )
        refl

  atomic_transfer-open :
      (s : Latches) (p q : ℕ)
      → (p == q) ≡ false
      → s p ≡ free false
      → s q ≡ free false
      → atomic_transfer p q val s ≡ some ((true, val ∷ []), after2 s p q true)
  unfolding atomic_transfer
  atomic_transfer-open s p q d u v =
      simp
        (
          begin2_lem s p q false false d u v,
          commit2_lem (both_held s p q d) p q d (held-left s p q d) (held-right s p q d),
          destroy2-ended,
          put2-put2 s p q open_held open_held done_free done_free d,
          ◌>>=◌,
          ◌>>◌,
        )
        refl

  atomic_transfer-closed :
      (s : Latches) (p q : ℕ) (a b : Bool)
      → (p == q) ≡ false
      → s p ≡ free a
      → s q ≡ free b
      → (not a && not b) ≡ false
      → atomic_transfer p q val s ≡ some ((false, []), s)
  unfolding atomic_transfer destroy2 rollback2
  atomic_transfer-closed s p q a b d u v n = simp (begin2_lem s p q a b d u v, n, ◌>>=◌, ◌>>◌) refl

  -- A transfer between two different latches that no transaction holds takes place exactly if both
  -- are open, and then both are transferred; else nothing changes.
  pub atomic_transfer_lem :
      (s : Latches) (p q : ℕ) (a b : Bool)
      → p ≢ q
      → s p ≡ free a
      → s q ≡ free b
      → let ok = not a && not b in
        atomic_transfer p q val s ≡ some ((ok, given ok), after2 s p q ok)
  atomic_transfer_lem s p q false false ne u v = atomic_transfer-open s p q (ground arith) u v
  atomic_transfer_lem s p q true b ne u v =
      atomic_transfer-closed s p q true b (ground arith) u v refl
  atomic_transfer_lem s p q false true ne u v =
      atomic_transfer-closed s p q false true (ground arith) u v refl
