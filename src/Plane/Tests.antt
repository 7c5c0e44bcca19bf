-- ===== src/Plane/Tests.antt =====
-- Two pools on the plane.
use soroban_amm.Prelude.{◌≡◌, refl, true, none, [], ◌∷◌}
use soroban_amm.Prelude.{ℕ, map}
use soroban_amm.Host.{Env, ok}
use soroban_amm.Access.Store.{Access}
use soroban_amm.Plane.{Plane, PoolPlane, pool_of, get}
use soroban_amm.Plane.Snapshots.{Call, updates, latest, as_tuple, get-updates}

abbrev env : Env
env = record { timestamp = 1000; sequence = 50; current_contract = 9; authorized = λ a. true }

abbrev store : Access
store = record {
  addresses = λ k. none;
  address_lists = λ k. none;
  times = λ k. none;
  emergency_mode = none;
}

abbrev empty : Plane
empty = record {
  access = store;
  code = record { upgrade_deadline = none; future_wasm = none; wasm = 1 };
  pool_data = [];
}

abbrev snapshot : ℕ → PoolPlane
snapshot n = record { pool_type = "standard"; init_args = 30 ∷ []; reserves = n ∷ n ∷ [] }

abbrev call : ℕ → ℕ → Call
call a n = record { env = env; contract = a; snapshot = snapshot n }

get-updates_example :
    (p : Plane) × (updates empty (call 3 100 ∷ call 4 200 ∷ call 3 150 ∷ []) ≡ ok p)
    × (get p (4 ∷ 3 ∷ 5 ∷ [])
        ≡ map
            (λ a. as_tuple (latest (call 3 100 ∷ call 4 200 ∷ call 3 150 ∷ []) (pool_of empty) a))
            (4 ∷ 3 ∷ 5 ∷ []))
get-updates_example =
    get-updates empty (call 3 100 ∷ call 4 200 ∷ call 3 150 ∷ []) (4 ∷ 3 ∷ 5 ∷ [])
      (refl, (refl, (refl, tt)))
