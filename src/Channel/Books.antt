-- ===== src/Channel/Books.antt =====
-- What a series of sends has come to: the replies, the transfers, and the values by channel.
use mathlib.Core.List.{Perm, perm_append_comm}
use mathlib.Core.List.Perm
use asio_experiments.Prelude.{
  ℕ, ◌+◌, ◌≡◌, refl, sym, subst, append_assoc, Bool, false, List, [], ◌∷◌, ◌++◌, map, ◌&&◌, ◌==◌,
  if◌then◌else◌, arith,
}
use asio_experiments.Latch.Threads.Owned.{one_if}
use asio_experiments.Channel.{Channel, Transfer}

-- What the calls have returned, the channels afterwards, and the calls of `transfer`, each with the
-- number of the channel.
pub record Log (V : Type 0) : Type 0 where
  pub replies : List Bool
  pub channels : ℕ → Channel V
  pub transfers : List (ℕ × Transfer V)

module _ {V : Type 0} where
  -- How many transfers are made to operations with the latch `p`, and the values that the channel `i`
  -- has passed on.
  abbrev pub times : ℕ → List (ℕ × Transfer V) → ℕ
  times p [] = 0
  times p ((j, t) ∷ ts) = one_if (t.to.latch == p) + times p ts

  abbrev pub passed : ℕ → List (ℕ × Transfer V) → List V
  passed i [] = []
  passed i ((j, t) ∷ ts) = (if j == i then t.value ∷ [] else []) ++ passed i ts

  pub times-append :
      (p : ℕ) (ts us : List (ℕ × Transfer V)) → times p (ts ++ us) ≡ times p ts + times p us
  times-append p [] us = omega arith
  times-append p ((j, t) ∷ ts) us = omega (arith, times-append p ts us)

  pub passed-append :
      (i : ℕ) (ts us : List (ℕ × Transfer V)) → passed i (ts ++ us) ≡ passed i ts ++ passed i us
  passed-append i [] us = refl
  passed-append i ((j, t) ∷ ts) us = simp (passed-append i ts us, append_assoc) refl

  -- The values of the sends on the channel `i` that have returned true.
  abbrev pub accepted : ℕ → List (ℕ × V) → List Bool → List V
  accepted i [] bs = []
  accepted i (s ∷ sends) [] = []
  accepted i ((j, v) ∷ sends) (b ∷ bs) =
      (if (j == i) && b then v ∷ [] else []) ++ accepted i sends bs

  pub passed-apart :
      (i j : ℕ) (ts : List (Transfer V))
      → (j == i) ≡ false
      → passed i (map (λ t. (j, t)) ts) ++ [] ≡ []
  passed-apart i j [] e = refl
  passed-apart i j (t ∷ ts) e = rw e (passed-apart i j ts e)

  -- What is kept or passed on first, and later.
  pub joined :
      (vals kept accepted' passed' kept' : List V)
      → Perm accepted' (passed' ++ kept')
      → Perm ((vals ++ kept) ++ accepted') ((vals ++ passed') ++ (kept ++ kept'))
  joined vals kept accepted' passed' kept' e =
      let swapped : Perm (kept ++ (passed' ++ kept')) (passed' ++ (kept ++ kept')) =
        subst (λ a. Perm a (passed' ++ (kept ++ kept'))) (append_assoc kept passed' kept')
          (subst (λ a. Perm ((kept ++ passed') ++ kept') a) (append_assoc passed' kept kept')
            (Perm.append_right kept' (perm_append_comm kept passed'))) in
      let both : Perm (vals ++ (kept ++ (passed' ++ kept')))
          (vals ++ (passed' ++ (kept ++ kept'))) =
        Perm.append_left vals swapped in
      Perm.trans (Perm.append_left (vals ++ kept) e) (
        subst (λ a. Perm a ((vals ++ passed') ++ (kept ++ kept')))
          (sym (append_assoc vals kept (passed' ++ kept')))
          (subst (λ a. Perm (vals ++ (kept ++ (passed' ++ kept'))) a)
            (sym (append_assoc vals passed' (kept ++ kept'))) both))
