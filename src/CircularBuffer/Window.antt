-- ===== src/CircularBuffer/Window.antt =====
-- Going round an array.
use asio_experiments.Prelude.{
  ℕ, zero, suc, ◌+◌, ◌-◌, ◌≤◌, ◌<◌, ◌≡◌, refl, ap, ap₂, ◌∙◌, List, [], ◌∷◌, ◌++◌, arith, length,
  get_or, set, take, drop, get_or-set_self, get_or-set_ne, drop-cons, length-drop, take-all,
}
use asio_experiments.CircularBuffer.{wrap}

module _ {A : Type 0} (default : A) where
  -- The `n` elements from `i` on, going round at `cap`.
  abbrev pub window : List A → ℕ → ℕ → ℕ → List A
  window s cap i zero = []
  window s cap i (suc n) = get_or s i default ∷ window s cap (wrap cap (i + 1)) n

  pub length-window : (s : List A) (cap i n : ℕ) → length (window s cap i n) ≡ n
  length-window s cap i zero = refl
  length-window s cap i (suc n) = ap suc (length-window s cap (wrap cap (i + 1)) n)

  -- A write to the place behind the window extends it.
  pub window-set :
      (s : List A) (cap i n j : ℕ) (x : A)
      → length s ≡ cap
      → i < cap
      → n < cap
      → j ≡ wrap cap (i + n)
      → window (set s j x) cap i (suc n) ≡ window s cap i n ++ (x ∷ [])
  window-set s cap i zero j x l hi hn e =
      let at : j ≡ i = ground arith in
      rw at (ap (λ y. y ∷ []) (get_or-set_self s i x default (omega arith)))
  window-set s cap i (suc n) j x l hi hn e =
      ap₂ ◌∷◌ (get_or-set_ne s j i x default (ground arith))
        (window-set s cap (wrap cap (i + 1)) n j x l (ground arith) (omega arith) (ground arith))

  -- A window that does not go round is a slice.
  pub window-slice :
      (s : List A) (cap i n : ℕ)
      → length s ≡ cap
      → i + n ≤ cap
      → window s cap i n ≡ take n (drop i s)
  window-slice s cap i zero l h = refl
  window-slice s cap i (suc zero) l h = rw (drop-cons i s default (omega arith))
  window-slice s cap i (suc (suc n)) l h =
      let inside : wrap cap (i + 1) ≡ suc i = ground arith in
      rw (drop-cons i s default (omega arith), inside)
        (ap (◌∷◌ (get_or s i default)) (window-slice s cap (suc i) (suc n) l (omega arith)))

  -- A window that goes past the end of the array goes on at its beginning.
  window-round :
      (s : List A) (cap i m n k : ℕ)
      → i + suc m ≡ cap
      → k ≡ suc m + n
      → window s cap i k ≡ window s cap i (suc m) ++ window s cap 0 n
  window-round s cap i m n zero e t = absurd (omega arith)
  window-round s cap i zero n (suc k) e t =
      let round : wrap cap (i + 1) ≡ 0 = ground arith in
      let rest : k ≡ n = omega arith in rw (round, rest)
  window-round s cap i (suc m) n (suc k) e t =
      ap (◌∷◌ (get_or s i default))
        (window-round s cap (wrap cap (i + 1)) m n k (ground arith) (omega arith))

  -- A full window is the back of the array and then its front.
  pub window-full :
      (s : List A) (cap i : ℕ)
      → length s ≡ cap
      → i < cap
      → window s cap i cap ≡ drop i s ++ take i s
  window-full s cap i l h =
      let m = cap - i - 1 in
      let len : suc m ≡ cap - i = omega arith in
      window-round s cap i m i cap (omega arith) (omega arith)
      ∙ ap₂ ◌++◌
          (window-slice s cap i (suc m) l (omega arith)
            ∙ take-all (suc m) (drop i s) (omega (arith, length-drop i s)))
          (window-slice s cap 0 i l (omega arith))
