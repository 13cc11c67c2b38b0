-- ===== src/Channel/Tests.antt =====
-- An operation that waits on two channels at once.
use mathlib.Core.List.{Perm}
use asio_experiments.Prelude.{
  ℕ, zero, suc, ◌+◌, ◌≤◌, ◌<◌, ◌==◌, if◌then◌else◌, ◌≡◌, refl, Bool, true, false, length, Option,
  none, some, List, [], ◌∷◌, ◌++◌, arith,
}
use asio_experiments.Latch.{Latches, put, begin1, commit1, commit, destroy1, rollback1}
use asio_experiments.Latch.Single.{open_free, done_free}
use asio_experiments.Latch.Threads.Owned.{one_if}
use asio_experiments.Channel.{Waiter, Channel, Sent, try_send, destroyed, hand, store, read, offer}
use asio_experiments.Channel.Offer.{Quiet, occurs, AllAlive}
use asio_experiments.Channel.Places.{Placed}
use asio_experiments.Channel.Send.{Outcome, try_send_refines}
use asio_experiments.Channel.Books.{Log, times, passed, accepted}
use asio_experiments.Channel.Select.{send_all, send_all-once}

abbrev all_open : Latches
all_open p = open_free

abbrev select : Waiter
select = record { latch = 7; address = 100 }

abbrev select_too : Waiter
select_too = record { latch = 7; address = 101 }

abbrev other : Waiter
other = record { latch = 8; address = 200 }

abbrev channels : ℕ → Channel ℕ
channels zero = record { error = false; queue = []; capacity = 1; deliver_ops = select ∷ [] }
channels (suc zero) = record {
  error = false;
  queue = [];
  capacity = 1;
  deliver_ops = select_too ∷ other ∷ [];
}
channels (suc (suc i)) = record { error = false; queue = []; capacity = 1; deliver_ops = [] }

abbrev alive : ℕ → Bool
alive a = if a == 100 then true else if a == 101 then true else a == 200

channels-Placed : Placed alive channels
channels-Placed = record { exist = exist; once = once; apart = apart }
  where
    exist : (i : ℕ) → AllAlive alive (channels i).deliver_ops
    exist zero a u = ground arith
    exist (suc zero) a u = ground arith
    exist (suc (suc i)) a u = ground arith

    once : (i a : ℕ) → occurs a (channels i).deliver_ops ≤ 1
    once zero a = ground arith
    once (suc zero) a = ground arith
    once (suc (suc i)) a = omega arith

    apart :
        (i j a : ℕ)
        → 0 < occurs a (channels i).deliver_ops
        → 0 < occurs a (channels j).deliver_ops
        → i ≡ j
    apart zero zero a u v = refl
    apart zero (suc zero) a u v = ground arith
    apart zero (suc (suc j)) a u v = omega arith
    apart (suc zero) zero a u v = ground arith
    apart (suc zero) (suc zero) a u v = refl
    apart (suc zero) (suc (suc j)) a u v = omega arith
    apart (suc (suc i)) j a u v = omega arith

channels-room : (i : ℕ) → length (channels i).queue ≤ (channels i).capacity
channels-room zero = omega arith
channels-room (suc zero) = omega arith
channels-room (suc (suc i)) = omega arith

abbrev sends : List (ℕ × ℕ)
sends = (0, 10) ∷ (1, 11) ∷ (1, 12) ∷ (1, 13) ∷ []

try_send_refines_example :
    (r : Sent ℕ) × (s' : Latches) × (try_send 10 alive (channels 1) (put all_open 7 done_free)
      ≡ some (r, s'))
    × Outcome (put all_open 7 done_free) 10 (channels 1) r s'
unfolding put
try_send_refines_example =
    try_send_refines 10 alive (channels 1) (put all_open 7 done_free) (λ p. ground arith)
      (channels-Placed.exist 1)

replies : Option (Log ℕ × Latches) → List Bool
replies none = []
replies (some (log, s)) = log.replies

-- A later value would be offered to a destroyed object if it stood on both channels.
abbrev in_two_lists : ℕ → Channel ℕ
in_two_lists i = record { error = false; queue = []; capacity = 1; deliver_ops = select ∷ [] }

faults : send_all sends alive in_two_lists all_open ≡ none
unfolding send_all destroyed try_send hand store offer read put begin1 commit1 commit destroy1
    rollback1
faults = refl

-- The first value goes to the operation that waits on both, the second to the other one; the third
-- is kept, and there is no room for the fourth.
all_sent : replies (send_all sends alive channels all_open) ≡ true ∷ true ∷ true ∷ false ∷ []
unfolding replies send_all destroyed try_send hand store offer read put begin1 commit1 commit
    destroy1 rollback1
all_sent = refl

send_all-once_example :
    (log : Log ℕ) × (s' : Latches) × (send_all sends alive channels all_open ≡ some (log, s'))
    × Quiet s'
    × ((p : ℕ) → 0 + times p log.transfers ≡ one_if (s' p).transferred)
    × ((i : ℕ)
        → (kept : List ℕ) × ((log.channels i).queue ≡ (channels i).queue ++ kept)
          × Perm (accepted i sends log.replies) (passed i log.transfers ++ kept))
    × ((i : ℕ) → length (log.channels i).queue ≤ (log.channels i).capacity)
send_all-once_example =
    send_all-once sends alive channels all_open (λ p. refl) channels-Placed channels-room
