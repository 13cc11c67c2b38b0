-- ===== src/Range/Lifetime.antt =====
-- The life time of the value in a range, over whole loops.
use asio_experiments.Prelude.{
  ◌≡◌, refl, ◌∙◌, map, ap, Bool, true, false, not, ◌||◌, Option, none, some, List, [], ◌∷◌,
  if◌then◌else◌, inl, inr, Bool-cases, Option-cases,
}
use asio_experiments.Range.{
  Range, Ended, returns, throws, undefined, Turn, range_from, wait_channel, wait_coro, destroy,
  co_for,
}

abbrev pub stops : {D : Type 0} → Turn D → Bool
stops turn = turn.cancelled || not turn.is_open

module _ {T : Type 0} where
  -- The values that the source delivers before the loop ends, and whether an exception ends it:
  -- cancellation, a closed source or the end of the coroutine ends it without one.
  unfoldable pub delivered : List (Turn (Option (Option T))) → List T × Ended (Unit {0})
  delivered [] = ([], returns tt)
  delivered (turn ∷ turns) =
      let (values, e) = delivered turns in
      if stops turn then ([], returns tt) else elim turn.delivers [
        | none ↦ ([], throws)
        | some resumed ↦ elim resumed [ none ↦ ([], returns tt) | some value ↦ (value ∷ values, e) ]
      ]

  -- The flag says what the storage holds.
  pub data IsFull (r : Range T) : Type 0 where
    unset : r ≡ range_from → IsFull r
    set : (value : T) → r ≡ record { has_value = true; storage = some value } → IsFull r

  wait_coro-value :
      (turn : Turn (Option (Option T))) (r : Range T) (v : T)
      → IsFull r
      → stops turn ≡ false
      → turn.delivers ≡ some (some v)
      → wait_coro turn r ≡ (returns true, record { has_value = true; storage = some v })
  unfolding wait_coro
  wait_coro-value turn r v (unset e) s d = simp (e, s, d) refl
  wait_coro-value turn r v (set x e) s d = simp (e, s, d) refl

  destroy-returns : (r : Range T) → IsFull r → destroy r ≡ returns tt
  unfolding destroy
  destroy-returns r (unset e) = rw e refl
  destroy-returns r (set x e) = rw e refl

  wait_coro-stops :
      (turn : Turn (Option (Option T))) (r : Range T)
      → stops turn ≡ true
      → wait_coro turn r ≡ (returns false, r)
  unfolding wait_coro
  wait_coro-stops turn r s = simp s refl

  wait_coro-throws :
      (turn : Turn (Option (Option T))) (r : Range T)
      → stops turn ≡ false
      → turn.delivers ≡ none
      → wait_coro turn r ≡ (throws, r)
  unfolding wait_coro
  wait_coro-throws turn r s d = simp (s, d) refl

  wait_coro-ends :
      (turn : Turn (Option (Option T))) (r : Range T)
      → stops turn ≡ false
      → turn.delivers ≡ some none
      → wait_coro turn r ≡ (returns false, r)
  unfolding wait_coro
  wait_coro-ends turn r s d = simp (s, d) refl

  co_for_coro :
      (turns : List (Turn (Option (Option T)))) (r : Range T)
      → IsFull r
      → co_for wait_coro turns r ≡ delivered turns
  unfolding co_for delivered
  co_for_coro [] r h = simp (destroy-returns r h) refl
  co_for_coro (turn ∷ turns) r h = elim (Bool-cases (stops turn)) [
    | inl s ↦ simp (wait_coro-stops turn r s, s, destroy-returns r h) refl
    | inr s ↦ elim (Option-cases turn.delivers) [
      | inl d ↦ simp (wait_coro-throws turn r s d, s, d, destroy-returns r h) refl
      | inr (resumed, d) ↦ elim (Option-cases resumed) [
        | inl e ↦
            simp (wait_coro-ends turn r s (d ∙ ap some e), s, d ∙ ap some e, destroy-returns r h)
              refl
        | inr (v, e) ↦
            let n : Range T = record { has_value = true; storage = some v } in
            let del : turn.delivers ≡ some (some v) = d ∙ ap some e in
            simp (wait_coro-value turn r v h s del, s, del, co_for_coro turns n (set v refl)) refl
      ]
    ]
  ]

  -- A loop over a coroutine sees exactly the values that it yields before cancellation, the closing of
  -- the coroutine, its end or an exception, and never uses or destroys a value that is not alive.
  pub co_for_coro-delivered :
      (turns : List (Turn (Option (Option T))))
      → co_for wait_coro turns range_from ≡ delivered turns
  co_for_coro-delivered turns = co_for_coro turns range_from (unset refl)

  -- A channel as a source that never comes to an end of itself.
  abbrev pub endless : Turn (Option T) → Turn (Option (Option T))
  endless turn = record {
    cancelled = turn.cancelled;
    is_open = turn.is_open;
    delivers = elim turn.delivers [ none ↦ none | some value ↦ some (some value) ];
  }

  abbrev pub alive : T → Range T
  alive v = record { has_value = true; storage = some v }

  wait_channel-stops :
      (turn : Turn (Option T)) (r : Range T)
      → stops turn ≡ true
      → wait_channel turn r ≡ (returns false, r)
  unfolding wait_channel
  wait_channel-stops turn r s = simp s refl

  wait_channel-throws :
      (turn : Turn (Option T)) (v : T)
      → stops turn ≡ false
      → turn.delivers ≡ none
      → wait_channel turn (alive v) ≡ (throws, alive v)
  unfolding wait_channel
  wait_channel-throws turn v s d = simp (s, d) refl

  wait_channel-value :
      (turn : Turn (Option T)) (r : Range T) (v : T)
      → IsFull r
      → stops turn ≡ false
      → turn.delivers ≡ some v
      → wait_channel turn r ≡ (returns true, alive v)
  unfolding wait_channel
  wait_channel-value turn r v (unset e) s d = simp (e, s, d) refl
  wait_channel-value turn r v (set x e) s d = simp (e, s, d) refl

  co_for_channel :
      (turns : List (Turn (Option T))) (x : T)
      → co_for wait_channel turns (alive x) ≡ delivered (map endless turns)
  unfolding co_for delivered
  co_for_channel [] x = simp (destroy-returns (alive x) (set x refl)) refl
  co_for_channel (turn ∷ turns) x = elim (Bool-cases (stops turn)) [
    | inl s ↦
        simp (wait_channel-stops turn (alive x) s, s, destroy-returns (alive x) (set x refl)) refl
    | inr s ↦ elim (Option-cases turn.delivers) [
      | inl d ↦
          simp (wait_channel-throws turn x s d, s, d, destroy-returns (alive x) (set x refl)) refl
      | inr (v, d) ↦
          simp (wait_channel-value turn (alive x) v (set x refl) s d, s, d, co_for_channel turns v)
            refl
    ]
  ]

  -- A loop over a channel whose first receive does not throw sees exactly the values that the channel
  -- delivers before cancellation, its closing or an exception, and a later exception leaves nothing
  -- dangling.
  pub co_for_channel-delivered :
      (turn : Turn (Option T)) (turns : List (Turn (Option T))) (v : T)
      → turn.delivers ≡ some v
      → co_for wait_channel (turn ∷ turns) range_from ≡ delivered (map endless (turn ∷ turns))
  unfolding co_for delivered
  co_for_channel-delivered turn turns v d = elim (Bool-cases (stops turn)) [
    | inl s ↦
        simp (wait_channel-stops turn range_from s, s, destroy-returns range_from (unset refl)) refl
    | inr s ↦
        simp (wait_channel-value turn range_from v (unset refl) s d, s, d, co_for_channel turns v)
          refl
  ]

  -- If the first receive of a loop over an open channel throws, the range destroys a value that was
  -- never made; the loop over a coroutine that throws at once ends with that exception.
  pub co_for_channel-undefined :
      (turn : Turn (Option T)) (turns : List (Turn (Option T)))
      → stops turn ≡ false
      → turn.delivers ≡ none
      → (co_for wait_channel (turn ∷ turns) range_from ≡ ([], undefined))
        × (co_for wait_coro (map endless (turn ∷ turns)) range_from ≡ ([], throws))
  unfolding co_for wait_channel wait_coro destroy
  co_for_channel-undefined turn turns s d = (simp (s, d) refl, simp (s, d) refl)
