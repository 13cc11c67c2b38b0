-- ===== src/AtomicRead/Race.antt =====
-- Reads that share a latch, resumed one after the other.
use asio_experiments.Prelude.{
  ℕ, ◌+◌, ◌≤◌, ◌≡◌, refl, ap, ◌∙◌, Bool, true, false, some, List, [], ◌∷◌, arith, if◌then◌else◌,
  inl, inr, Bool-cases,
}
use asio_experiments.ErrorCode.{ErrorCode, completion_denied, failed}
use asio_experiments.Latch.{Latches, put, put-here, put-put, put-same, rollback1, commit1, destroy1}
use asio_experiments.Latch.Single.{
  open_free, open_held, done_free, on, ended, begin1-open, begin1-done, commit1-held,
  rollback1-held, after,
}
use asio_experiments.AtomicRead.{
  World, Reply, waits, completes, is_would_block, ◌>>=◌, resume, resume_all,
}

pub destroy1-ended : (s : Latches) → destroy1 ended s ≡ some (tt, s)
unfolding destroy1 rollback1
destroy1-ended s = refl

pub rollback1-ended : (s : Latches) → rollback1 ended s ≡ some (ended, s)
unfolding rollback1
rollback1-ended s = refl

pub commit-begun :
    (s : Latches) (p : ℕ) → commit1 (on p) (put s p open_held) ≡ some (ended, put s p done_free)
commit-begun s p =
    commit1-held (put s p open_held) p (put-here s p open_held)
    ∙ ap (λ l. some (ended, l)) (put-put s p open_held done_free)

pub rollback-begun :
    (s : Latches) (p : ℕ) → s p ≡ open_free → rollback1 (on p) (put s p open_held) ≡ some (ended, s)
rollback-begun s p u =
    rollback1-held (put s p open_held) p (put-here s p open_held)
    ∙ ap (λ l. some (ended, l)) (put-put s p open_held open_free ∙ put-same s p open_free u)

abbrev pub denial : Reply
denial = completes completion_denied 0

abbrev pub denials : List ErrorCode → List Reply
denials [] = []
denials (ec ∷ events) = denial ∷ denials events

abbrev pub is_denied : ErrorCode → Bool
is_denied completion_denied = true
is_denied _ = false

abbrev pub answered : Reply → ℕ
answered waits = 0
answered (completes ec n) = if is_denied ec then 0 else 1

-- How many have completed with more than a denial.
abbrev pub answers : List Reply → ℕ
answers [] = 0
answers (r ∷ rs) = answered r + answers rs

answers-denials : (events : List ErrorCode) → answers (denials events) ≡ 0
answers-denials [] = refl
answers-denials (ec ∷ events) = omega (arith, answers-denials events)

answered_le : (r : Reply) → answered r ≤ 1
answered_le r = ground arith

module _ {S : Type 0} (read_some : Bool → S → (ErrorCode × ℕ) × S) where
  -- What a run that holds the open latch does with the socket: its reply, the socket afterwards, and
  -- whether it has used the latch.
  abbrev pub tried : ErrorCode → ℕ → S → Reply × S × Bool
  tried ec n s =
      if failed ec
      then (completes ec n, s, true)
      else (let ((ec', size), s') = read_some true s in
          if is_would_block ec' then (waits, s', false) else (completes ec' size, s', true))

  pub resume-denied :
      (p : ℕ) (ec : ErrorCode) (n : ℕ) (w : World S)
      → w.latches p ≡ done_free
      → resume read_some p ec n w ≡ some (denial, w)
  unfolding resume
  resume-denied p ec n w u =
      simp (begin1-done w.latches p u, rollback1-ended, destroy1-ended, ◌>>=◌) refl

  pub resume-open :
      (p : ℕ) (ec : ErrorCode) (n : ℕ) (w : World S)
      → w.latches p ≡ open_free
      → resume read_some p ec n w ≡ (
          let (reply, s, used) = tried ec n w.sock in
          some (reply, record w { sock = s; latches = after w.latches p used }))
  unfolding resume
  resume-open p ec n w u = elim (Bool-cases (failed ec)) [
    | inl f ↦ simp (begin1-open w.latches p u, commit-begun, f, destroy1-ended, ◌>>=◌) refl
    | inr f ↦ elim (Bool-cases (is_would_block (read_some true w.sock).0.0)) [
      | inl b ↦
          simp
            (begin1-open w.latches p u, rollback-begun w.latches p u, f, b, destroy1-ended, ◌>>=◌)
            refl
      | inr b ↦ simp (begin1-open w.latches p u, commit-begun, f, b, destroy1-ended, ◌>>=◌) refl
    ]
  ]

  -- What the operations come to, without a latch: the first that gets an error or data ends the
  -- session, and the socket is left alone from then on.
  unfoldable pub session : List ErrorCode → S → List Reply × S × Bool
  session [] s = ([], s, false)
  session (ec ∷ events) s =
      let (reply, s', used) = tried ec 0 s in
      let (rest, s'', later) = session events s' in
      if used then (reply ∷ denials events, s', true) else (reply ∷ rest, s'', later)

  resume_all-denied :
      (p : ℕ) (events : List ErrorCode) (w : World S)
      → w.latches p ≡ done_free
      → resume_all read_some p events w ≡ some (denials events, w)
  unfolding resume_all
  resume_all-denied p [] w u = refl
  resume_all-denied p (ec ∷ events) w u =
      simp (resume-denied p ec 0 w u, resume_all-denied p events w u, ◌>>=◌) refl

  -- However the reads that share an open latch are resumed, and whatever their waits report: none
  -- faults, the first that gets an error or data completes with it, every one that would block waits
  -- again with the latch still open, and all that are resumed later are denied and leave the socket
  -- alone. The blocking mode is as before, the mutex is free, and the latch is used exactly if one
  -- has completed.
  pub resume_all-session :
      (p : ℕ) (events : List ErrorCode) (w : World S)
      → w.latches p ≡ open_free
      → resume_all read_some p events w ≡ (
          let (replies, s, used) = session events w.sock in
          some (replies, record w { sock = s; latches = after w.latches p used }))
  unfolding resume_all session
  resume_all-session p [] w u = refl
  resume_all-session p (ec ∷ events) w u = elim (Bool-cases (tried ec 0 w.sock).2) [
    | inl t ↦
        let used = record w { sock = (tried ec 0 w.sock).1; latches = put w.latches p done_free } in
        simp
          (
            resume-open p ec 0 w u,
            t,
            resume_all-denied p events used (put-here w.latches p done_free),
            ◌>>=◌,
          )
          refl
    | inr f ↦
        simp
          (
            resume-open p ec 0 w u,
            f,
            resume_all-session p events (record w { sock = (tried ec 0 w.sock).1 }) u,
            ◌>>=◌,
          )
          refl
  ]

  tried-waits : (ec : ErrorCode) (s : S) → (tried ec 0 s).2 ≡ false → (tried ec 0 s).0 ≡ waits
  tried-waits ec s f = ground arith

  session-answers : (events : List ErrorCode) (s : S) → answers (session events s).0 ≤ 1
  unfolding session
  session-answers [] s = omega arith
  session-answers (ec ∷ events) s = elim (Bool-cases (tried ec 0 s).2) [
    | inl t ↦
        simp (t, answers, answers-denials events) (omega (arith, answered_le (tried ec 0 s).0))
    | inr f ↦
        simp (f, answers, tried-waits ec s f)
          (omega (arith, session-answers events (tried ec 0 s).1))
  ]

  -- Of the reads that share an open latch at most one is answered with anything but
  -- `completion_denied`, however they are resumed; none faults.
  pub resume_all-answers :
      (p : ℕ) (events : List ErrorCode) (w : World S)
      → w.latches p ≡ open_free
      → (replies : List Reply) × (w' : World S) × (resume_all read_some p events w
          ≡ some (replies, w'))
        × (answers replies ≤ 1)
  resume_all-answers p events w u =
      let (replies, s, used) = session events w.sock in
      (
        replies,
        record w { sock = s; latches = after w.latches p used },
        resume_all-session p events w u,
        session-answers events w.sock,
      )
