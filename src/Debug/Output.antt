-- ===== src/Debug/Output.antt =====
-- What the handler prints.
use asio_experiments.Prelude.{
  ℕ, ◌≡◌, refl, ap, none, some, List, [], ◌∷◌, ◌++◌, map, append-nil, append_assoc,
}
use asio_experiments.ErrorCode.Message.{codes}
use asio_experiments.Debug.{
  Exception, standard, other, Written, prints, newline, on_exception, emits, call, report_fatal,
}

-- Texts with a separator between them.
abbrev pub join : List ℕ → List (List ℕ) → List ℕ
join sep [] = []
join sep (t ∷ []) = t
join sep (t ∷ u ∷ ts) = t ++ (sep ++ join sep (u ∷ ts))

-- The separator stands before each text but the first.
abbrev after : List ℕ → List (List ℕ) → List ℕ
after sep [] = []
after sep (t ∷ ts) = sep ++ (t ++ after (codes ", ") ts)

after-join :
    (t : List ℕ) (ts : List (List ℕ)) → t ++ after (codes ", ") ts ≡ join (codes ", ") (t ∷ ts)
after-join t [] = append-nil t
after-join t (u ∷ ts) = ap (λ r. t ++ (44 ∷ 32 ∷ r)) (after-join u ts)

after-first : (ts : List (List ℕ)) → after [] ts ≡ join (codes ", ") ts
after-first [] = refl
after-first (t ∷ ts) = after-join t ts

emits-prints :
    (sep : List ℕ) (ts : List (List ℕ)) → emits sep (map prints ts) ≡ prints (after sep ts)
unfolding emits
emits-prints sep [] = refl
emits-prints sep (t ∷ ts) = simp (emits-prints (codes ", ") ts, append_assoc) refl

emits-raises :
    (sep : List ℕ) (ts : List (List ℕ)) (u : List ℕ) (e : Exception) (args : List Written)
    → emits sep (map prints ts ++ record { out = u; raised = some e } ∷ args)
      ≡ record { out = after sep (ts ++ u ∷ []); raised = some e }
unfolding emits
emits-raises sep [] u e args = simp (append-nil) refl
emits-raises sep (t ∷ ts) u e args = simp (emits-raises (codes ", ") ts u e args, append_assoc) refl

-- The handler prints the context, a colon, and the arguments with commas between them, on a line. It
-- tells of an exception with a message instead of the arguments, and then ends the next line too;
-- any other exception leaves it, with the line unfinished. If printing an argument throws an
-- exception with a message, it tells of that after what has been printed.
pub call-report :
    (context what u : List ℕ) (ts : List (List ℕ)) (args : List Written)
    → let r = report_fatal (prints context) in
      (call r none (map prints ts)
        ≡ prints (context ++ codes ": " ++ join (codes ", ") ts ++ newline))
      × (call r (some (standard what)) args
          ≡ prints (context ++ codes ": exception: " ++ what ++ newline ++ newline))
      × (call r (some other) args ≡ record { out = context ++ codes ": "; raised = some other })
      × (call r none (map prints ts ++ record { out = u; raised = some (standard what) } ∷ args)
          ≡ prints (
              context
              ++ codes ": "
              ++ join (codes ", ") (ts ++ u ∷ [])
              ++ codes "exception: "
              ++ what
              ++ newline
              ++ newline))
unfolding call on_exception report_fatal
call-report context what u ts args = (
  simp (emits-prints [] ts, after-first, append_assoc) refl,
  simp (append_assoc) refl,
  simp (append-nil) refl,
  simp (emits-raises [] ts u (standard what) args, after-first, append_assoc) refl,
)
