-- ===== src/Latch/Two.antt =====
-- States of two different latches.
use asio_experiments.Prelude.{
  ℕ, ◌≡◌, refl, fun_ext, Bool, true, false, Option, some, arith, ◌==◌, if◌then◌else◌,
}
use asio_experiments.Latch.{Latch, Latches, put, put-here, put-put, M, lock, unlock}

abbrev pub put2 : Latches → ℕ → ℕ → Latch → Latch → Latches
put2 s p q a b = put (put s p a) q b

pub put-over :
    (s : Latches) (p q : ℕ) (a b c : Latch)
    → ((p == q) ≡ false)
    → put (put2 s p q a b) p c ≡ put2 s p q c b
unfolding put
put-over s p q a b c d = fun_ext λ x. ground arith

pub put2-left : (s : Latches) (p q : ℕ) (a b : Latch) → ((p == q) ≡ false) → put2 s p q a b p ≡ a
unfolding put
put2-left s p q a b d = ground arith

pub put2-same : (s : Latches) (p q : ℕ) (a b : Latch) → s p ≡ a → s q ≡ b → put2 s p q a b ≡ s
unfolding put
put2-same s p q a b u v = fun_ext λ x. ground arith

-- What the two latches are worth when no transaction holds them.
abbrev pub free : Bool → Latch
free b = record { transferred = b; locked = false }

abbrev pub held : Bool → Latch
held b = record { transferred = b; locked = true }

pub put-apart : (s : Latches) (p q : ℕ) (a : Latch) → ((p == q) ≡ false) → put s p a q ≡ s q
unfolding put
put-apart s p q a d = ground arith

pub lock_lem :
    (s : Latches) (p : ℕ) (b : Bool) → s p ≡ free b → lock p s ≡ some (tt, put s p (held b))
lock_lem s p b u = simp (u, lock) refl

pub unlock_lem :
    (s : Latches) (p : ℕ) (b : Bool) → s p ≡ held b → unlock p s ≡ some (tt, put s p (free b))
unlock_lem s p b u = simp (u, unlock) refl

pub put2-right :
    (s : Latches) (p q : ℕ) (a b c : Latch) → ((p == q) ≡ false) → put (put2 s p q a b) p c q ≡ b
put2-right s p q a b c d = rw (put-over s p q a b c d) (put-here (put s p c) q b)

pub if_lem :
    {B : Type 0} (c : Bool) (m k : M B) (s : Latches) (x y : Option (B × Latches))
    → m s ≡ x
    → k s ≡ y
    → (if c then m else k) s ≡ (if c then x else y)
if_lem true m k s x y e f = e
if_lem false m k s x y e f = f

pub put2-put2 :
    (s : Latches) (p q : ℕ) (a b c e : Latch)
    → ((p == q) ≡ false)
    → put2 (put2 s p q a b) p q c e ≡ put2 s p q c e
put2-put2 s p q a b c e d = rw (put-over s p q a b c d) (put-put (put s p c) q b e)
