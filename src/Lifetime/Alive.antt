-- ===== src/Lifetime/Alive.antt =====
-- The object is alive whenever the handler is, and no copy of its lifetime is left over.
use asio_experiments.Prelude.{
  ℕ, suc, ◌+◌, ◌-◌, ◌<◌, ◌≡◌, ◌≢◌, refl, ◌∙◌, Bool, true, false, none, List, [], ◌∷◌, arith,
}
use asio_experiments.Lifetime.{
  Counts, copy, release, LifetimeBinder, Call, Operation, Associations, ends, pending, calls, asks,
  associated, returns, others_copy, others_release, lifetime_binder, get_lifetime, destroy, call,
  init_wrapper, finish, run, initiate,
}

-- Nothing is associated.
abbrev pub unassociated : Associations
unassociated = record { executor = none; allocator = none; slot = none }

-- An operation with a handler with which `found` is associated.
module _ {A : Type 0} (found : Associations) where
  -- Other owners, `n` at first, release no more copies than they have.
  abbrev pub Owned : Operation A → ℕ → Type 0
  Owned ends n = Unit {0}
  Owned pending n = Unit {0}
  Owned (calls args next) n = Owned next n
  Owned (asks next) n = Owned (next found) n
  Owned (returns next) n = Owned next n
  Owned (others_copy next) n = Owned next (suc n)
  Owned (others_release next) n = (0 < n) × Owned next (n - 1)

  -- How many copies the other owners have in the end.
  unfoldable pub others_left : Operation A → ℕ → ℕ
  others_left ends n = n
  others_left pending n = n
  others_left (calls args next) n = others_left next n
  others_left (asks next) n = others_left (next found) n
  others_left (returns next) n = others_left next n
  others_left (others_copy next) n = others_left next (suc n)
  others_left (others_release next) n = others_left next (n - 1)

  -- How many handlers are left in the end.
  unfoldable pub kept : Operation A → ℕ
  kept ends = 0
  kept pending = 1
  kept (calls args next) = kept next
  kept (asks next) = kept (next found)
  kept (returns next) = kept next
  kept (others_copy next) = kept next
  kept (others_release next) = kept next

  -- The calls are those that the operation makes with the handler `h`, and the object is shared, and
  -- so alive, in each.
  abbrev pub Calls : Operation A → ℕ → List (Call A) → Type 0
  Calls ends h made = made ≡ []
  Calls pending h made = made ≡ []
  Calls (calls args next) h [] = ⊥
  Calls (calls args next) h (c ∷ made) =
      (c.target ≡ h) × (c.args ≡ args) × (0 < c.shared) × Calls next h made
  Calls (asks next) h made = Calls (next found) h made
  Calls (returns next) h made = Calls next h made
  Calls (others_copy next) h made = Calls next h made
  Calls (others_release next) h made = Calls next h made

abbrev inside_copies : Bool → ℕ
inside_copies true = 2
inside_copies false = 0

finish-count :
    (inside : Bool) (p : ℕ) (counts : Counts) (n : ℕ)
    → counts p ≡ n + inside_copies inside
    → finish inside p counts p ≡ n
unfolding finish release
finish-count true p counts n h = ground arith
finish-count false p counts n h = ground arith

finish-apart :
    (inside : Bool) (p q : ℕ) (counts : Counts) → q ≢ p → finish inside p counts q ≡ counts q
unfolding finish release
finish-apart true p q counts ne = ground arith
finish-apart false p q counts ne = refl

module _ {A : Type 0} where
  record Outcome (operation : Operation A) (b : LifetimeBinder) (n : ℕ) (made : List (Call A))
      (counts counts' : Counts) : Type 0 where
    calls : Calls unassociated operation b.target made
    count : counts' b.lifetime ≡ others_left unassociated operation n + kept unassociated operation
    apart : (q : ℕ) → q ≢ b.lifetime → counts' q ≡ counts q

  run-Outcome :
      (operation : Operation A) (b : LifetimeBinder) (inside : Bool) (n : ℕ) (counts : Counts)
      → counts b.lifetime ≡ suc n + inside_copies inside
      → Owned unassociated operation n
      → Outcome operation b n
          (run operation b inside counts).0
          counts
          (run operation b inside counts).1
  unfolding run destroy release copy others_left kept call associated
  run-Outcome ends b inside n counts h o = record {
    calls = refl;
    count = finish-count inside b.lifetime _ _ (ground arith);
    apart = λ q ne. finish-apart inside b.lifetime q _ ne ∙ ground arith;
  }
  run-Outcome pending b inside n counts h o = record {
    calls = refl;
    count = finish-count inside b.lifetime _ _ (ground arith);
    apart = λ q ne. finish-apart inside b.lifetime q _ ne;
  }
  run-Outcome (calls args next) b inside n counts h o =
      let rest = run-Outcome next b inside n counts h o in
      record {
        calls = (refl, refl, ground arith, rest.calls);
        count = rest.count;
        apart = rest.apart;
      }
  run-Outcome (asks next) b inside n counts h o =
      let rest = run-Outcome (next unassociated) b inside n counts h o in
      record { calls = rest.calls; count = rest.count; apart = rest.apart }
  run-Outcome (returns next) b inside n counts h o =
      let rest =
        run-Outcome next b false n (finish inside b.lifetime counts)
          (ground (arith, finish-count inside b.lifetime counts (suc n) h)) o in
      record {
        calls = rest.calls;
        count = rest.count;
        apart = λ q ne. rest.apart q ne ∙ finish-apart inside b.lifetime q counts ne;
      }
  run-Outcome (others_copy next) b inside n counts h o =
      let rest = run-Outcome next b inside (suc n) (copy b.lifetime counts) (ground arith) o in
      record {
        calls = rest.calls;
        count = rest.count;
        apart = λ q ne. rest.apart q ne ∙ ground arith;
      }
  run-Outcome (others_release next) b inside n counts h o =
      let rest = run-Outcome next b inside (n - 1) (release b.lifetime counts) (ground arith) o.1 in
      record {
        calls = rest.calls;
        count = rest.count;
        apart = λ q ne. rest.apart q ne ∙ ground arith;
      }

  -- An operation whose handler is bound to a lifetime makes the calls that it makes with that handler
  -- where nothing is associated with it (its executor, allocator and cancellation slot are lost), each
  -- while the object is alive, whatever the other owners do with the copies that they have. In the end
  -- the copies are theirs and one for a handler that is kept, so the object is alive while the
  -- operation is pending, and the counts of other objects have not changed.
  pub initiate-keeps_alive :
      (operation : Operation A) (token : LifetimeBinder) (counts : Counts)
      → Owned unassociated operation (counts token.lifetime)
      → Calls unassociated operation token.target (initiate operation token counts).0
        × ((initiate operation token counts).1 token.lifetime
            ≡ others_left unassociated operation (counts token.lifetime)
              + kept unassociated operation)
        × ((q : ℕ) → q ≢ token.lifetime → (initiate operation token counts).1 q ≡ counts q)
  unfolding initiate get_lifetime init_wrapper lifetime_binder copy
  initiate-keeps_alive operation token counts owned =
      let outcome =
        run-Outcome operation token true (counts token.lifetime)
          (copy token.lifetime (copy token.lifetime (copy token.lifetime counts))) (ground arith)
          owned in
      (outcome.calls, outcome.count, λ q ne. outcome.apart q ne ∙ ground arith)
