-- ===== src/Copy/Cycles.antt =====
-- The calls that a copy makes, and the count that it reports.
use asio_experiments.Prelude.{
  ℕ, ◌+◌, ◌-◌, ◌<◌, ◌≡◌, refl, ap, ◌∙◌, Bool, true, false, not, ◌&&◌, List, [], ◌∷◌, ◌++◌, arith,
  ◌==◌, if◌then◌else◌, length, inl, inr, Bool-cases,
}
use asio_experiments.ErrorCode.{ErrorCode, operation_aborted, failed}
use asio_experiments.Copy.{
  cancel_none, terminal, size_range, decremented, incremented, Next, source, sink, complete, start,
  on_source, on_sink, Cycle, run, async_copy,
}

-- The code with which a failed or cancelled call ends the copy.
abbrev pub code : ErrorCode → ErrorCode
code ec = if failed ec then ec else operation_aborted

incremented_lem : (k : ℕ) → k + 1 < size_range → incremented k ≡ k + 1
unfolding incremented
incremented_lem k lt = omega arith

module _ {A : Type 0} where
  abbrev pub source_good : Cycle A → Bool
  source_good c = not (failed c.source_ec) && not (c.source_cancelled == terminal)

  abbrev pub sink_good : Cycle A → Bool
  sink_good c = not (failed c.sink_ec) && (c.sink_cancelled == cancel_none)

  abbrev pub all_good : List (Cycle A) → Bool
  all_good [] = true
  all_good (c ∷ cycles) = source_good c && sink_good c && all_good cycles

  -- The calls of complete cycles.
  abbrev pub calls : List (Cycle A) → List (Next A)
  calls [] = []
  calls (c ∷ cycles) = sink c.value ∷ source ∷ calls cycles

  -- The last calls, in a cycle that ends the copy with the count `n`.
  abbrev pub ending : Cycle A → ℕ → List (Next A)
  ending c n =
      if source_good c
      then sink c.value ∷ complete (code c.sink_ec) n ∷ []
      else complete (code c.source_ec) n ∷ []

  source-good :
      (c : Cycle A) (k : ℕ)
      → source_good c ≡ true
      → on_source c.source_ec c.value c.source_cancelled k ≡ (sink c.value, incremented k)
  unfolding on_source
  source-good c k g = ground arith

  source-bad :
      (c : Cycle A) (k : ℕ)
      → source_good c ≡ false
      → on_source c.source_ec c.value c.source_cancelled k
        ≡ (complete (code c.source_ec) (incremented k), incremented k)
  unfolding on_source
  source-bad c k g = ground arith

  sink-good :
      (c : Cycle A) (k : ℕ)
      → sink_good c ≡ true
      → on_sink {A = A} c.sink_ec c.sink_cancelled k ≡ (source, k)
  unfolding on_sink
  sink-good c k g = ground arith

  sink-bad :
      (c : Cycle A) (k : ℕ)
      → sink_good c ≡ false
      → on_sink {A = A} c.sink_ec c.sink_cancelled k ≡ (complete (code c.sink_ec) k, k)
  unfolding on_sink
  sink-bad c k g = ground arith

  run-cycles :
      (cycles : List (Cycle A)) (c : Cycle A) (others : List (Cycle A)) (n k : ℕ)
      → all_good cycles ≡ true
      → (source_good c && sink_good c) ≡ false
      → incremented n ≡ k
      → k + length cycles < size_range
      → run (cycles ++ (c ∷ others)) n ≡ calls cycles ++ ending c (k + length cycles)
  unfolding run
  run-cycles [] c others n k g b e lt = elim (Bool-cases (source_good c)) [
    | inl s ↦
        simp (source-good c n s, e, sink-bad c k (ground arith), s)
          (ap (λ m. sink c.value ∷ complete (code c.sink_ec) m ∷ []) (omega arith))
    | inr s ↦
        simp (source-bad c n s, s, e) (ap (λ m. complete (code c.source_ec) m ∷ []) (omega arith))
  ]
  run-cycles (d ∷ cycles) c others n k g b e lt =
      let gs : source_good d ≡ true = ground arith in
      let gk : sink_good d ≡ true = ground arith in
      let rest : all_good cycles ≡ true = ground arith in
      simp (source-good d n gs, sink-good d (incremented n) gk)
        (ap (λ r. sink d.value ∷ source ∷ r)
          (run-cycles cycles c others (incremented n) (k + 1) rest b
              (ap incremented e ∙ incremented_lem k (omega arith)) (omega arith)
            ∙ ap (λ m. calls cycles ++ ending c m) (omega arith)))

  -- A copy whose first cycles all succeed and whose next one does not: it starts the source, then by
  -- turns the sink, with the source's value, and the source again, and completes in the cycle that
  -- fails or is cancelled, with its code and the number of the complete cycles before it. (The count
  -- goes through 2 ^ 64 - 1 on the way.) Nothing follows the completion.
  pub async_copy-cycles :
      (cycles : List (Cycle A)) (c : Cycle A) (others : List (Cycle A))
      → all_good cycles ≡ true
      → (source_good c && sink_good c) ≡ false
      → length cycles < size_range
      → async_copy (cycles ++ (c ∷ others)) ≡ source ∷ (calls cycles ++ ending c (length cycles))
  unfolding async_copy start incremented decremented
  async_copy-cycles cycles c others g b lt =
      ap (λ r. source ∷ r)
        (run-cycles cycles c others (size_range - 1) 0 g b refl (omega arith)
          ∙ ap (λ m. calls cycles ++ ending c m) (omega arith))
