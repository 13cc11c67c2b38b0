-- ===== src/CircularBuffer/Refine.antt =====
-- A well-formed buffer behaves as the queue of its contents.
use asio_experiments.Prelude.{
  suc, ◌+◌, ◌*◌, ◌/◌, ◌≤◌, ◌<◌, ◌≡◌, refl, ap, sym, ◌∙◌, some, List, [], ◌∷◌, ◌++◌, arith, length,
  set, take, drop, replicate, length-set, length-replicate, take-append,
}
use asio_experiments.CircularBuffer.{size_max, Buffer, ok, wrap, empty, copy_to, moved, grow, put}
use asio_experiments.CircularBuffer.Window.{
  window, length-window, window-set, window-slice, window-full,
}

-- The array `s` holds the buffer `b`.
pub record Holds {A : Type 0} (b : Buffer A) (s : List A) : Type 0 where
  pub storage : b.storage ≡ some s
  pub length_lem : length s ≡ b.capacity
  pub some_room : 0 < b.capacity
  pub front_in : b.front_pos < b.capacity
  pub size_in : b.size ≤ b.capacity
  pub back : b.back_pos ≡ wrap b.capacity (b.front_pos + b.size)

module _ {A : Type 0} (default : A) where
  abbrev pub contents_in : Buffer A → List A → List A
  contents_in b s = window default s b.capacity b.front_pos b.size

  -- The well-formed states, with what they contain: before the first push there is no array.
  pub data Contains (b : Buffer A) (xs : List A) : Type 0 where
    unused : b ≡ empty → xs ≡ [] → Contains b xs
    used : (s : List A) → Holds b s → xs ≡ contents_in b s → Contains b xs

  -- The buffer after an element has been put in.
  abbrev pub filled : Buffer A → List A → A → Buffer A
  filled b s x = record b {
    size = b.size + 1;
    storage = some (set s b.back_pos x);
    back_pos = wrap b.capacity (b.back_pos + 1);
  }

  pub put-filled :
      (b : Buffer A) (s : List A) (x : A)
      → Holds b s
      → b.size < b.capacity
      → (put default x b ≡ ok (filled b s x))
        × Contains (filled b s x) (contents_in b s ++ (x ∷ []))
  unfolding put
  put-filled b s x h lt =
      let more : b.size + 1 ≡ suc b.size = omega arith in
      (
        ground (arith, h.storage),
        used (set s b.back_pos x)
            (record {
              storage = refl;
              length_lem = omega (arith, h.length_lem, length-set s b.back_pos x);
              some_room = h.some_room;
              front_in = h.front_in;
              size_in = omega arith;
              back = ground (arith, h.back);
            })
            (rw more (
              sym (
                window-set default s b.capacity b.front_pos b.size b.back_pos x h.length_lem
                  h.front_in lt h.back))),
      )

  copy_to-append :
      (xs ys : List A) → length xs ≤ length ys → copy_to xs ys ≡ xs ++ drop (length xs) ys
  unfolding copy_to
  copy_to-append [] ys h = refl
  copy_to-append (x ∷ xs) [] h = absurd (omega arith)
  copy_to-append (x ∷ xs) (y ∷ ys) h = ap (◌∷◌ x) (copy_to-append xs ys (omega arith))

  length-copy_to : (xs ys : List A) → length (copy_to xs ys) ≡ length ys
  unfolding copy_to
  length-copy_to [] ys = refl
  length-copy_to (x ∷ xs) [] = refl
  length-copy_to (x ∷ xs) (y ∷ ys) = ap suc (length-copy_to xs ys)

  module _ (b : Buffer A) (s : List A) (h : Holds b s) (full : b.size ≡ b.capacity) where
    -- A full buffer is copied as what it contains.
    moved-contents : moved b s ≡ contents_in b s
    unfolding moved
    moved-contents =
        let same : b.back_pos ≡ b.front_pos = ground (arith, h.back) in
        rw full (
          ground
            (arith, same, window-full default s b.capacity b.front_pos h.length_lem h.front_in))

    length-moved : length (moved b s) ≡ b.size
    length-moved = rw moved-contents (length-window default s b.capacity b.front_pos b.size)

    abbrev pub grown_storage : List A
    grown_storage = copy_to (moved b s) (replicate (b.capacity * 2) default)

    abbrev pub grown : Buffer A
    grown = record b {
      storage = some grown_storage;
      capacity = b.capacity * 2;
      front_pos = 0;
      back_pos = b.size;
    }

    length-grown : length grown_storage ≡ b.capacity * 2
    length-grown =
        length-copy_to (moved b s) (replicate (b.capacity * 2) default)
        ∙ length-replicate (b.capacity * 2) default

    pub grow-grown : b.capacity ≤ size_max / 2 → grow default b s ≡ ok grown
    unfolding grow
    grow-grown small = ground (arith, length-moved)

    pub grown-Holds : Holds grown grown_storage
    grown-Holds = record {
      storage = refl;
      length_lem = length-grown;
      some_room = omega (arith, h.some_room);
      front_in = omega (arith, h.some_room);
      size_in = omega arith;
      back = ground (arith, h.some_room);
    }

    -- Growing keeps the contents.
    pub contents-grown : contents_in grown grown_storage ≡ contents_in b s
    contents-grown =
        window-slice default grown_storage (b.capacity * 2) 0 b.size length-grown (omega arith)
        ∙ ap (take b.size) (
            copy_to-append (moved b s) (replicate (b.capacity * 2) default)
              (omega (arith, length-moved, length-replicate (b.capacity * 2) default)))
        ∙ take-append b.size (moved b s) _ length-moved
        ∙ moved-contents
