-- ===== src/Plane/Snapshots.antt =====
-- The plane's storage (liquidity_pool_plane/src) as a function from pools to snapshots.
use soroban_amm.Prelude.{ℕ, ◌≡◌, refl, All, ap, ◌∙◌, true, List, [], ◌∷◌, map, ◌==◌, if◌then◌else◌}
use soroban_amm.Prelude.Dict.{insert}
use soroban_amm.Host.{Address, Env, Result, ok, ◌>>=◌}
use soroban_amm.Access.Roles.{Symbol}
use soroban_amm.Plane.{PoolPlane, Plane, pool_of, update, get, pool_of-update}

-- A call of `update` by a pool, in its environment.
pub record Call : Type 0 where
  pub env : Env
  pub contract : Address
  pub snapshot : PoolPlane

-- The calls in order.
unfoldable pub updates : Plane → List Call → Result Plane
updates p [] = ok p
updates p (c ∷ calls) = do
  p₁ ← update c.env p c.contract c.snapshot.pool_type c.snapshot.init_args c.snapshot.reserves
  updates p₁ calls

-- The pool has authorized its call.
abbrev pub IsAuthorized : Call → Type 0
IsAuthorized c = c.env.authorized c.contract ≡ true

-- What each pool has stored last, or else has at the start.
abbrev pub latest : List Call → (Address → PoolPlane) → Address → PoolPlane
latest [] start = start
latest (c ∷ calls) start = latest calls (λ a. if a == c.contract then c.snapshot else start a)

abbrev pub as_tuple : PoolPlane → Symbol × List ℕ × List ℕ
as_tuple s = (s.pool_type, s.init_args, s.reserves)

get-map : (p : Plane) (pools : List Address) → get p pools ≡ map (λ a. as_tuple (pool_of p a)) pools
unfolding get
get-map p [] = refl
get-map p (a ∷ pools) = ap (λ rest. as_tuple (pool_of p a) ∷ rest) (get-map p pools)

-- What `update` stores.
abbrev stored : Plane → Call → Plane
stored p c = record p { pool_data = insert c.contract c.snapshot p.pool_data }

update-stored :
    (p : Plane) (c : Call)
    → IsAuthorized c
    → update c.env p c.contract c.snapshot.pool_type c.snapshot.init_args c.snapshot.reserves
      ≡ ok (stored p c)
unfolding update
update-stored p c h = rw h

pool_of-stored :
    (p : Plane) (c : Call)
    → IsAuthorized c
    → pool_of (stored p c) ≡ (λ a. if a == c.contract then c.snapshot else pool_of p a)
pool_of-stored p c h = λ i a.
    pool_of-update c.env p (stored p c) c.contract a c.snapshot.pool_type c.snapshot.init_args
      c.snapshot.reserves (update-stored p c h) i

-- Any sequence of updates, each authorized by its pool, succeeds, and afterwards `get` returns for
-- any list of pools, in order, what each of them has stored last, or what the plane had for it
-- at the start where it has stored nothing.
pub get-updates :
    (p : Plane) (calls : List Call) (pools : List Address)
    → All IsAuthorized calls
    → (p' : Plane) × (updates p calls ≡ ok p')
      × (get p' pools ≡ map (λ a. as_tuple (latest calls (pool_of p) a)) pools)
unfolding updates
get-updates p [] pools h = (p, refl, get-map p pools)
get-updates p (c ∷ calls) pools (h, hs) =
    let (p', run, same) = get-updates (stored p c) calls pools hs in
    (
      p',
      ap (λ r. r >>= λ p₁. updates p₁ calls) (update-stored p c h) ∙ run,
      same ∙ ap (λ f. map (λ a. as_tuple (latest calls f a)) pools) (pool_of-stored p c h),
    )
