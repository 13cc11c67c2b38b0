-- ===== src/CircularBuffer/Queue.antt =====
-- `push` and `pop` against a queue.
use asio_experiments.Prelude.{
  ℕ, zero, suc, ◌+◌, ◌-◌, ◌/◌, ◌≤◌, ◌<◌, ◌≡◌, refl, ap, sym, ◌∙◌, some, List, [], ◌∷◌, ◌++◌, arith,
  ◌==◌, length, length-append, get_or, replicate, length-replicate, inl, inr, Bool-cases,
}
use asio_experiments.CircularBuffer.{
  size_max, initial_capacity, Buffer, Outcome, ok, bad_alloc, fault, ◌>>=◌, wrap, empty, init, grow,
  make_room, put, push, pop,
}
use asio_experiments.CircularBuffer.Window.{window, length-window}
use asio_experiments.CircularBuffer.Refine.{
  Holds, contents_in, Contains, unused, used, filled, put-filled, grown, grown_storage, grow-grown,
  grown-Holds, contents-grown,
}

-- A call ends well, in a state that contains `xs`.
pub record Ends {A : Type 0} (default : A) (r : Outcome (Buffer A)) (xs : List A) : Type 0 where
  pub final : Buffer A
  pub returns : r ≡ ok final
  pub contains : Contains default final xs

module _ {A : Type 0} (default : A) where
  abbrev first_array : List A
  first_array = replicate initial_capacity default

  init-Holds : Holds (init default empty) first_array
  unfolding init
  init-Holds = record {
    storage = refl;
    length_lem = length-replicate initial_capacity default;
    some_room = omega arith;
    front_in = omega arith;
    size_in = omega arith;
    back = ground arith;
  }

  push-empty : (x : A) → push default x empty ≡ put default x (init default empty)
  unfolding push make_room init
  push-empty x = refl

  push-full :
      (b b' : Buffer A) (s : List A) (x : A)
      → b.size ≡ b.capacity
      → b.storage ≡ some s
      → grow default b s ≡ ok b'
      → push default x b ≡ put default x b'
  unfolding push make_room
  push-full b b' s x full st g = ground arith

  push-room : (b : Buffer A) (x : A) → b.size < b.capacity → push default x b ≡ put default x b
  unfolding push make_room
  push-room b x lt = ground arith

  push-Ends :
      (b c : Buffer A) (s : List A) (x : A) (xs : List A)
      → push default x b ≡ put default x c
      → Holds c s
      → c.size < c.capacity
      → contents_in default c s ≡ xs
      → Ends default (push default x b) (xs ++ (x ∷ []))
  push-Ends b c s x xs e h lt cs =
      let (r, k) = put-filled default c s x h lt in
      record { final = filled default c s x; returns = e ∙ r; contains = rw cs at k }

  push-used :
      (b : Buffer A) (s : List A) (x : A) (xs : List A)
      → Holds b s
      → xs ≡ contents_in default b s
      → b.size ≤ size_max / 2
      → Ends default (push default x b) (xs ++ (x ∷ []))
  push-used b s x xs h e small = elim (Bool-cases (b.size == b.capacity)) [
    | inl full ↦
        let f : b.size ≡ b.capacity = ground arith in
        push-Ends b (grown default b s h f) (grown_storage default b s h f) x xs
          (push-full b (grown default b s h f) s x f h.storage
            (grow-grown default b s h f (omega arith)))
          (grown-Holds default b s h f) (omega (arith, h.some_room))
          (contents-grown default b s h f ∙ sym e)
    | inr room ↦
        let lt : b.size < b.capacity = ground (arith, h.size_in) in
        push-Ends b b s x xs (push-room b x lt) h lt (sym e)
  ]

  Contains-size : (b : Buffer A) (xs : List A) → Contains default b xs → b.size ≡ length xs
  Contains-size b xs (unused e n) = rw (e, n)
  Contains-size b xs (used s h e) =
      rw e (sym (length-window default s b.capacity b.front_pos b.size))

  -- `push` on a well-formed buffer of at most 2 ^ 63 - 1 elements neither throws nor faults, whether
  -- it makes the first array, grows a full one or has room: it adds the element behind the others.
  pub push_refines :
      (b : Buffer A) (xs : List A) (x : A)
      → Contains default b xs
      → length xs ≤ size_max / 2
      → Ends default (push default x b) (xs ++ (x ∷ []))
  unfolding init
  push_refines b xs x (unused e n) small =
      rw (e, n)
        (push-Ends empty (init default empty) first_array x [] (push-empty x) init-Holds
          (omega arith) refl)
  push_refines b xs x (used s h e) small =
      push-used b s x xs h e (omega (arith, Contains-size b xs (used s h e)))

  -- A full buffer whose array may not be doubled is refused with `bad_alloc`.
  pub push-bad_alloc :
      (b : Buffer A) (xs : List A) (x : A)
      → Contains default b xs
      → b.size ≡ b.capacity
      → size_max / 2 < b.capacity
      → push default x b ≡ bad_alloc
  unfolding push make_room grow
  push-bad_alloc b xs x (unused e n) full big =
      absurd (omega (arith, ap (λ (y : Buffer A). y.capacity) e))
  push-bad_alloc b xs x (used s h e) full big = ground (arith, h.storage)

  pop-used :
      (b : Buffer A) (s : List A) (n : ℕ)
      → Holds b s
      → b.size ≡ suc n
      → (b' : Buffer A) × (pop default b ≡ ok (get_or s b.front_pos default, b'))
        × Contains default b' (window default s b.capacity (wrap b.capacity (b.front_pos + 1)) n)
  unfolding pop
  pop-used b s n h e =
      let less : b.size - 1 ≡ n = omega arith in
      (
        record b { front_pos = wrap b.capacity (b.front_pos + 1); size = b.size - 1 },
        ground (arith, h.storage),
        used s
            (record {
              storage = h.storage;
              length_lem = h.length_lem;
              some_room = h.some_room;
              front_in = ground (arith, h.front_in);
              size_in = omega (arith, h.size_in);
              back = ground (arith, h.back, h.front_in, h.size_in);
            })
            (rw less),
      )

  -- What `pop` does where the queue `xs` is expected.
  abbrev pub Pops : List A → Buffer A → Type 0
  Pops [] b = pop default b ≡ fault
  Pops (x ∷ xs) b = (b' : Buffer A) × (pop default b ≡ ok (x, b')) × Contains default b' xs

  pop-Pops :
      (b : Buffer A) (s : List A) (k : ℕ)
      → Holds b s
      → b.size ≡ k
      → Pops (window default s b.capacity b.front_pos k) b
  unfolding pop
  pop-Pops b s zero h e = ground arith
  pop-Pops b s (suc n) h e = pop-used b s n h e

  -- `pop` on a well-formed buffer returns the oldest element and keeps the others in order; on an
  -- empty one its assertion fails.
  pub pop_refines : (b : Buffer A) (xs : List A) → Contains default b xs → Pops xs b
  unfolding pop
  pop_refines b xs (unused e n) = rw (n, e) refl
  pop_refines b xs (used s h e) = rw e (pop-Pops b s b.size h refl)

pub data Op (A : Type 0) : Type 0 where
  pushes : A → Op A
  pops : Op A

-- The same on a list; a `pop` of nothing faults.
pub run_queue : {A : Type 0} → List (Op A) → List A → Outcome (List A)
run_queue [] q = ok []
run_queue (pushes x ∷ ops) q = run_queue ops (q ++ (x ∷ []))
run_queue (pops ∷ ops) [] = fault
run_queue (pops ∷ ops) (x ∷ q) = do xs ← run_queue ops q; ok (x ∷ xs)

module _ {A : Type 0} (default : A) where
  -- The elements that a series of calls pops, with how it ends.
  pub run : List (Op A) → Buffer A → Outcome (List A)
  run [] b = ok []
  run (pushes x ∷ ops) b = do b' ← push default x b; run ops b'
  run (pops ∷ ops) b = do (x, b') ← pop default b; xs ← run ops b'; ok (x ∷ xs)

  run_refines_from :
      (ops : List (Op A)) (b : Buffer A) (xs : List A)
      → Contains default b xs
      → length xs + length ops ≤ size_max / 2
      → run ops b ≡ run_queue ops xs
  unfolding run run_queue
  run_refines_from [] b xs c small = refl
  run_refines_from (pushes x ∷ ops) b xs c small =
      let p = push_refines default b xs x c (omega arith) in
      rw p.returns (
        run_refines_from ops p.final (xs ++ (x ∷ [])) p.contains
          (omega (arith, length-append xs (x ∷ []))))
  run_refines_from (pops ∷ ops) b [] c small = rw (pop_refines default b [] c)
  run_refines_from (pops ∷ ops) b (x ∷ xs) c small =
      let (b', r, k) = pop_refines default b (x ∷ xs) c in
      rw (r, run_refines_from ops b' xs k (omega arith))

  -- No series of up to 2 ^ 63 - 1 calls tells a new buffer from an unbounded queue: what it pops,
  -- and whether a `pop` finds nothing, are the same.
  pub run_refines :
      (ops : List (Op A)) → length ops ≤ size_max / 2 → run ops empty ≡ run_queue ops []
  run_refines ops small = run_refines_from ops empty [] (unused refl refl) (omega arith)
