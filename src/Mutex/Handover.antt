-- ===== src/Mutex/Handover.antt =====
-- Guards that are moved and assigned to each other.
use asio_experiments.Prelude.{
  ℕ, zero, suc, ◌+◌, ◌≡◌, refl, ap, ◌∙◌, Bool, true, false, List, [], ◌∷◌, ◌++◌, arith,
  if◌then◌else◌,
}
use asio_experiments.Mutex.{Mutex, unlock, LockGuard, move_guard, assign_guard, destroy_guard}
use asio_experiments.Mutex.Exclusion.{one_if}

-- How many guards are to unlock the mutex.
abbrev pub owners : List LockGuard → ℕ
owners [] = 0
owners (g ∷ gs) = one_if g.owns + owners gs

owners-append : (xs ys : List LockGuard) → owners (xs ++ ys) ≡ owners xs + owners ys
owners-append [] ys = omega arith
owners-append (x ∷ xs) ys = omega (arith, owners-append xs ys)

-- The guards of one mutex that are alive, after constructions by move and assignments by move
-- between any two of them.
pub data Handover : List LockGuard → List LockGuard → Type 0 where
  none_yet : {gs : List LockGuard} → Handover gs gs
  constructs :
      {gs : List LockGuard} (xs : List LockGuard) (g : LockGuard) (ys : List LockGuard)
      → Handover gs (xs ++ (g ∷ ys))
      → Handover gs (xs ++ ((move_guard g).1 ∷ ((move_guard g).0 ∷ ys)))
  assigns :
      {gs : List LockGuard} (xs : List LockGuard) (this : LockGuard) (ys : List LockGuard)
      (lhs : LockGuard) (zs : List LockGuard)
      → Handover gs (xs ++ (this ∷ (ys ++ (lhs ∷ zs))))
      → Handover gs (xs ++ ((assign_guard this lhs).0 ∷ (ys ++ ((assign_guard this lhs).1 ∷ zs))))

Handover-owners : {gs hs : List LockGuard} → Handover gs hs → owners hs ≡ owners gs
unfolding move_guard assign_guard
Handover-owners none_yet = refl
Handover-owners (constructs xs g ys h) = omega (
  arith,
  Handover-owners h,
  owners-append xs (g ∷ ys),
  owners-append xs ((move_guard g).1 ∷ ((move_guard g).0 ∷ ys)),
)
Handover-owners (assigns xs this ys lhs zs h) = omega (
  arith,
  Handover-owners h,
  owners-append xs (this ∷ (ys ++ (lhs ∷ zs))),
  owners-append ys (lhs ∷ zs),
  owners-append xs (lhs ∷ (ys ++ (this ∷ zs))),
  owners-append ys (this ∷ zs),
)

abbrev pub destroy_all : List LockGuard → Mutex → Mutex
destroy_all [] m = m
destroy_all (g ∷ gs) m = destroy_all gs (destroy_guard g m)

abbrev pub unlocks : ℕ → Mutex → Mutex
unlocks zero m = m
unlocks (suc n) m = unlocks n (unlock m)

unlock-unlocks :
    (gs : List LockGuard) (b : Bool) (m : Mutex)
    → ((m' : Mutex) → destroy_all gs m' ≡ unlocks (owners gs) m')
    → destroy_all gs (if b then unlock m else m) ≡ unlocks (one_if b + owners gs) m
unlock-unlocks gs true m rest =
    let e : suc (owners gs) ≡ 1 + owners gs = omega arith in
    rest (unlock m) ∙ ap (λ n. unlocks n m) e
unlock-unlocks gs false m rest =
    let e : owners gs ≡ 0 + owners gs = omega arith in rest m ∙ ap (λ n. unlocks n m) e

destroy_all-unlocks : (gs : List LockGuard) (m : Mutex) → destroy_all gs m ≡ unlocks (owners gs) m
unfolding destroy_guard
destroy_all-unlocks [] m = refl
destroy_all-unlocks (g ∷ gs) m = unlock-unlocks gs g.owns m (λ m'. destroy_all-unlocks gs m')

-- However guards are moved and assigned to each other, destroying all that are alive in the end
-- unlocks the mutex once for each guard that was to unlock it at first: a lock is never given back
-- twice, and none is forgotten.
pub Handover-unlocks :
    {gs hs : List LockGuard} (m : Mutex) → Handover gs hs → destroy_all hs m ≡ unlocks (owners gs) m
Handover-unlocks {hs = hs} m h =
    destroy_all-unlocks hs m ∙ ap (λ n. unlocks n m) (Handover-owners h)
