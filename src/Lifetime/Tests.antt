-- ===== src/Lifetime/Tests.antt =====
-- An operation that outlives all other owners of an object.
use asio_experiments.Prelude.{ℕ, ◌≡◌, ◌≢◌, refl, none, some, [], ◌∷◌, ◌==◌, if◌then◌else◌, arith}
use asio_experiments.Lifetime.{
  Counts, LifetimeBinder, Operation, Associations, ends, calls, asks, associated, returns,
  others_release, initiate, run, copy, release, destroy, finish, call, get_lifetime, init_wrapper,
  lifetime_binder, bind_lifetime,
}
use asio_experiments.Lifetime.Alive.{initiate-keeps_alive, unassociated, Calls, others_left, kept}

-- The object at 5 has one owner, the token.
abbrev owned_by_token : Counts
owned_by_token q = if q == 5 then 1 else 0

abbrev token : LifetimeBinder
token = record { lifetime = 5; target = 9 }

-- The call is made by the handler's executor, or by 7 if it has none.
abbrev executor_of : Associations → ℕ
executor_of a = elim a.executor [ none ↦ 7 | some executor ↦ executor ]

abbrev post : Operation ℕ
post = asks (λ a. returns (others_release (calls (executor_of a) ends)))

made_by_token : (q : ℕ) → (bind_lifetime 5 9 (λ q. 0)).1 q ≡ owned_by_token q
unfolding bind_lifetime lifetime_binder copy
made_by_token q = ground arith

last_owner :
    (initiate post token owned_by_token).0 ≡ record { target = 9; args = 7; shared = 1 } ∷ []
unfolding initiate run associated copy release destroy finish call get_lifetime init_wrapper
    lifetime_binder
last_owner = refl

initiate-keeps_alive_example :
    Calls unassociated post 9 (initiate post token owned_by_token).0
    × ((initiate post token owned_by_token).1 5 ≡ 0)
    × ((q : ℕ) → q ≢ 5 → (initiate post token owned_by_token).1 q ≡ owned_by_token q)
unfolding others_left kept
initiate-keeps_alive_example = initiate-keeps_alive post token owned_by_token (omega arith, tt)
