-- ===== src/Plane.antt =====
-- liquidity_pool_plane/src: the plane, where each pool stores a snapshot that the calculator reads.
pub mod Snapshots
mod Tests
use soroban_amm.Prelude.{ℕ, ◌≡◌, Bool, List, [], ◌∷◌, ◌==◌, if◌then◌else◌, arith}
use soroban_amm.Prelude.Dict.{Dict, lookup, insert, lookup-insert}
use soroban_amm.Host.{
  Address, Env, Result, ok, ◌>>=◌, ◌>>◌, panic_if, require_auth, access, admin_already_set,
}
use soroban_amm.Access.Roles.{Role, Symbol}
use soroban_amm.Access.Store.{Access, is_some, get_role_safe, set_role_address, unwrap_or}
use soroban_amm.Access.Handlers as Owners
use soroban_amm.Upgrade.{Code, Hash}
use soroban_amm.Upgrade.Handlers as Codes

pub record PoolPlane : Type 0 where
  pub pool_type : Symbol
  pub init_args : List ℕ
  pub reserves : List ℕ

-- The plane's storage (storage.rs), with the roles and the committed upgrade.
pub record Plane : Type 0 where
  pub access : Access
  pub code : Code
  pub pool_data : Dict PoolPlane

abbrev pub default_pool : PoolPlane
default_pool = record { pool_type = "standard"; init_args = 30 ∷ []; reserves = 0 ∷ 0 ∷ [] }

-- `get` of storage.rs.
unfoldable pub pool_of : Plane → Address → PoolPlane
pool_of p contract = unwrap_or (lookup contract p.pool_data) default_pool

unfoldable pub init_admin : Plane → Address → Result Plane
init_admin p account = do
  holder ← get_role_safe p.access Role.admin
  panic_if (is_some holder) (access admin_already_set)
  store ← set_role_address p.access Role.admin account
  ok (record p { access = store })

unfoldable pub update : Env → Plane → Address → Symbol → List ℕ → List ℕ → Result Plane
update e p contract pool_type init_args reserves = do
  require_auth e contract
  ok (record p {
    pool_data =
        insert contract
          (record { pool_type = pool_type; init_args = init_args; reserves = reserves })
          p.pool_data;
  })

unfoldable pub get : Plane → List Address → List (Symbol × List ℕ × List ℕ)
get p [] = []
get p (contract ∷ pools) =
    let snapshot = pool_of p contract in
    (snapshot.pool_type, snapshot.init_args, snapshot.reserves) ∷ get p pools

unfoldable pub commit_upgrade : Env → Plane → Address → Hash → Result Plane
commit_upgrade e p admin new_wasm_hash = do
  code ← Codes.commit_upgrade e p.access p.code admin new_wasm_hash
  ok (record p { code = code })

unfoldable pub apply_upgrade : Env → Plane → Address → Result (Hash × Plane)
apply_upgrade e p admin = do
  applied ← Codes.apply_upgrade e p.access p.code admin
  ok (applied.0, record p { code = applied.1 })

unfoldable pub revert_upgrade : Env → Plane → Address → Result Plane
revert_upgrade e p admin = do
  code ← Codes.revert_upgrade e p.access p.code admin
  ok (record p { code = code })

unfoldable pub set_emergency_mode : Env → Plane → Address → Bool → Result Plane
set_emergency_mode e p emergency_admin value = do
  store ← Owners.set_emergency_mode_call e p.access emergency_admin value
  ok (record p { access = store })

unfoldable pub commit_transfer_ownership : Env → Plane → Address → Symbol → Address → Result Plane
commit_transfer_ownership e p admin role_name new_address = do
  store ← Owners.commit_transfer_ownership e p.access admin role_name new_address
  ok (record p { access = store })

unfoldable pub apply_transfer_ownership : Env → Plane → Address → Symbol → Result Plane
apply_transfer_ownership e p admin role_name = do
  store ← Owners.apply_transfer_ownership e p.access admin role_name
  ok (record p { access = store })

unfoldable pub revert_transfer_ownership : Env → Plane → Address → Symbol → Result Plane
revert_transfer_ownership e p admin role_name = do
  store ← Owners.revert_transfer_ownership e p.access admin role_name
  ok (record p { access = store })

unfoldable pub get_future_address : Plane → Symbol → Result Address
get_future_address p role_name = Owners.get_future_address p.access role_name

-- After a pool has stored a snapshot, its snapshot is the one stored and that of every other
-- pool is what it was.
pub pool_of-update :
    (e : Env) (p p' : Plane) (contract other : Address) (pool_type : Symbol)
    (init_args reserves : List ℕ)
    → update e p contract pool_type init_args reserves ≡ ok p'
    → pool_of p' other ≡ (
        if other == contract
        then record { pool_type = pool_type; init_args = init_args; reserves = reserves }
        else pool_of p other)
unfolding update pool_of
pool_of-update e p p' contract other pool_type init_args reserves h = ground (
  arith,
  lookup-insert contract other
      (record { pool_type = pool_type; init_args = init_args; reserves = reserves }) p.pool_data,
)
