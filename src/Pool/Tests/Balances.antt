-- ===== src/Pool/Tests/Balances.antt =====
-- A table of balances in the place of the contracts that the pool calls.
use soroban_amm.Prelude.{
  ℕ, ◌+◌, ◌-◌, ◌≤◌, ◌≡◌, ◌≢◌, ◌&&◌, true, false, none, some, arith, leb, ◌==◌, if◌then◌else◌, sym,
  refl,
}
use soroban_amm.Host.{Address, Env, ok, err, host, trap}
use soroban_amm.Host.Inversion.{ok-injective}
use soroban_amm.Host.Integer.{ℤ, pos, negsuc, pos_part, ◌≤ℤ◌}
use soroban_amm.Access.Roles.{DataKey}
use soroban_amm.Access.Store.{Access}
use soroban_amm.Pool.State.{Pool, Outside}
use soroban_amm.Pool.Ledger.{IsLedger}

abbrev pub Table : Type 0
Table = Address → Address → ℕ

abbrev pub moved : Address → Address → Address → ℕ → Table → Table
moved t f g n s u k =
    if u == t then (if k == f then s u k - n else (if k == g then s u k + n else s u k)) else s u k

abbrev pub minted : Address → Address → ℕ → Table → Table
minted t to n s u k = if u == t && k == to then s u k + n else s u k

abbrev pub burned : Address → Address → ℕ → Table → Table
burned t from n s u k = if u == t && k == from then s u k - n else s u k

abbrev pub table : Outside Table
table = record {
  balance = λ t h s. s t h;
  transfer = λ t f g x s. elim x [
    | pos n ↦ if leb n (s t f) then ok (moved t f g n s) else err (host trap)
    | negsuc n ↦ err (host trap)
  ];
  mint = λ t to x s. elim x [ pos n ↦ ok (minted t to n s) | negsuc n ↦ err (host trap) ];
  burn = λ t from x s. elim x [
    | pos n ↦ if leb n (s t from) then ok (burned t from n s) else err (host trap)
    | negsuc n ↦ err (host trap)
  ];
  reward_token = λ s. none;
  get_working_balance = λ user shares s. ok shares;
  get_working_supply = λ total s. ok total;
  gauges_checkpoint_user = λ user b w s. ok s;
  checkpoint_user = λ user total shares s. ok s;
  update_working_balance = λ user total shares s. ok s;
  update_plane = λ p s. ok s;
}

paid :
    (t f g : Address) (x : ℤ) (s s' : Table)
    → table.transfer t f g x s ≡ ok s'
    → f ≢ g
    → (pos 0 ≤ℤ x) × (s' t f + pos_part x ≡ s t f) × (s' t g ≡ s t g + pos_part x)
paid t f g (pos n) s s' h ne =
    let le : n ≤ s t f = ground arith in
    let e : moved t f g n s ≡ s' = ground arith in rw (sym e) (ground arith)
paid t f g (negsuc n) s s' h ne = ground arith

others :
    (t f g : Address) (x : ℤ) (s s' : Table)
    → table.transfer t f g x s ≡ ok s'
    → (u h : Address) → u ≢ t
    → s' u h ≡ s u h
others t f g (pos n) s s' h u k ne =
    let e : moved t f g n s ≡ s' = ground arith in rw (sym e) (ground arith)
others t f g (negsuc n) s s' h u k ne = ground arith

mints :
    (t to : Address) (x : ℤ) (s s' : Table)
    → table.mint t to x s ≡ ok s'
    → (u h : Address) → u ≢ t
    → s' u h ≡ s u h
mints t to (pos n) s s' h u k ne =
    let e : minted t to n s ≡ s' = ground arith in rw (sym e) (ground arith)
mints t to (negsuc n) s s' h u k ne = ground arith

burns :
    (t from : Address) (x : ℤ) (s s' : Table)
    → table.burn t from x s ≡ ok s'
    → (u h : Address) → u ≢ t
    → s' u h ≡ s u h
burns t from (pos n) s s' h u k ne =
    let e : burned t from n s ≡ s' = ground arith in rw (sym e) (ground arith)
burns t from (negsuc n) s s' h u k ne = ground arith

pub table-IsLedger : IsLedger table
table-IsLedger = record {
  transfer_pays = paid;
  transfer_others = others;
  mint_others = mints;
  burn_others = burns;
  gauges_keep = λ user b w s s' h u k. rw (sym (ok-injective h)) refl;
  checkpoint_keeps = λ user total shares s s' h u k. rw (sym (ok-injective h)) refl;
  working_keeps = λ user total shares s s' h u k. rw (sym (ok-injective h)) refl;
  plane_keeps = λ p s s' h u k. rw (sym (ok-injective h)) refl;
}

abbrev pub env : Env
env = record { timestamp = 1000; sequence = 50; current_contract = 9; authorized = λ a. true }

abbrev pub access : Access
access = record {
  addresses = λ k. elim k [ DataKey.admin ↦ some 7 | _ ↦ none ];
  address_lists = λ k. none;
  times = λ k. none;
  emergency_mode = none;
}

abbrev pub start : Pool
start = record {
  access = access;
  code = record { upgrade_deadline = none; future_wasm = none; wasm = 0 };
  token_future_wasm = none;
  gauge_future_wasm = none;
  token_a = 1;
  token_b = 2;
  token_share = 3;
  total_shares = 1414213;
  reserve_a = 1000000;
  reserve_b = 2000000;
  fee_fraction = 30;
  protocol_fee_fraction = 5000;
  protocol_fee_a = 7;
  protocol_fee_b = 0;
  is_killed_swap = false;
  is_killed_deposit = false;
  is_killed_claim = false;
  reserves_sync_ledger = 0;
  router = 20;
  plane = 21;
}

-- The pool (9) holds its reserves and the fees; everybody else holds five million of each token.
abbrev pub balances : Table
balances t h =
    if h == 9 then (if t == 1 then 1000007 else (if t == 2 then 2000000 else 0)) else 5000000
