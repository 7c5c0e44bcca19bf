-- ===== src/Concentrated/State/Places.antt =====
-- liquidity_pool_concentrated/src/storage.rs: reading a tick, and after another was written.
use soroban_amm.Prelude.{
  ℕ, zero, suc, ◌<◌, ◌≡◌, ◌≢◌, ◌∙◌, refl, sym, ap, inl, inr, true, false, Option, none, some, List,
  arith, Bool-cases,
}
use soroban_amm.Host.{Result, ok}
use soroban_amm.Host.Integer.{ℤ, pos, negsuc}
use soroban_amm.Stableswap.State.{get, set}
use soroban_amm.Stableswap.Lookup.{get-set, get-set_other}
use soroban_amm.Concentrated.Ticks.{
  eqb_ℤ, chunk_address, compress_tick, rem_euclid, ticks_per_chunk,
}
use soroban_amm.Concentrated.State.{
  TickInfo, put_at, replicate, new_empty_chunk, or_empty_chunk, empty_tick, tick_in,
}

pub eqb_self : (z : ℤ) → eqb_ℤ z z ≡ true
unfolding eqb_ℤ
eqb_self (pos n) = ground arith
eqb_self (negsuc n) = ground arith

pub eq_of_eqb : (a b : ℤ) → eqb_ℤ a b ≡ true → a ≡ b
unfolding eqb_ℤ
eq_of_eqb (pos m) (pos n) h = ap pos (ground arith)
eq_of_eqb (pos m) (negsuc n) h = ground arith
eq_of_eqb (negsuc m) (pos n) h = ground arith
eq_of_eqb (negsuc m) (negsuc n) h = ap negsuc (ground arith)

get-replicate : (n i : ℕ) → i < n → get (replicate n) i ≡ ok empty_tick
unfolding get replicate
get-replicate zero i h = ground arith
get-replicate (suc n) zero h = refl
get-replicate (suc n) (suc i) h = get-replicate n i (omega arith)

slot_lt : (z : ℤ) → (chunk_address z).1 < ticks_per_chunk
unfolding chunk_address rem_euclid
slot_lt (pos n) = omega arith
slot_lt (negsuc n) = omega arith

or_empty_lem :
    (chunk : Option (List TickInfo)) (slot : ℕ)
    → slot < ticks_per_chunk
    → (elim chunk as (λ x. Result TickInfo) [ some c ↦ get c slot | none ↦ ok empty_tick ])
      ≡ get (or_empty_chunk chunk) slot
unfolding or_empty_chunk new_empty_chunk
or_empty_lem (some c) slot h = refl
or_empty_lem none slot h = sym (get-replicate ticks_per_chunk slot h)

-- The place of a tick.
abbrev pub place : ℤ → ℕ → ℤ × ℕ
place tick spacing = chunk_address (compress_tick tick spacing)

-- A tick that is read is the one in its slot, also of a chunk that is not stored.
pub tick_in_lem :
    (chunks : ℤ → Option (List TickInfo)) (tick : ℤ) (spacing : ℕ)
    → tick_in chunks tick spacing
      ≡ get (or_empty_chunk (chunks (place tick spacing).0)) (place tick spacing).1
unfolding tick_in
tick_in_lem chunks tick spacing =
    or_empty_lem (chunks (place tick spacing).0) (place tick spacing).1
      (slot_lt (compress_tick tick spacing))

pub put_at_self :
    (f : ℤ → Option (List TickInfo)) (k : ℤ) (v : Option (List TickInfo)) → put_at f k v k ≡ v
unfolding put_at
put_at_self f k v = rw (eqb_self k) refl

pub put_at-other :
    (f : ℤ → Option (List TickInfo)) (k j : ℤ) (v : Option (List TickInfo))
    → eqb_ℤ j k ≡ false
    → put_at f k v j ≡ f j
unfolding put_at
put_at-other f k j v h = rw h refl

read-put_at :
    (chunks : ℤ → Option (List TickInfo)) (k : ℤ) (slot : ℕ) (info : TickInfo)
    (chunk' : List TickInfo)
    → set (or_empty_chunk (chunks k)) slot info ≡ ok chunk'
    → get (or_empty_chunk (put_at chunks k (some chunk') k)) slot ≡ ok info
unfolding or_empty_chunk
read-put_at chunks k slot info chunk' h =
    rw (put_at_self chunks k (some chunk')) (get-set (or_empty_chunk (chunks k)) chunk' slot info h)

read-put_at_other :
    (chunks : ℤ → Option (List TickInfo)) (k j : ℤ) (slot slot' : ℕ) (info : TickInfo)
    (chunk' : List TickInfo)
    → set (or_empty_chunk (chunks k)) slot info ≡ ok chunk'
    → ¬ ((j ≡ k) × (slot' ≡ slot))
    → get (or_empty_chunk (put_at chunks k (some chunk') j)) slot'
      ≡ get (or_empty_chunk (chunks j)) slot'
unfolding or_empty_chunk
read-put_at_other chunks k j slot slot' info chunk' h apart = elim (Bool-cases (eqb_ℤ j k)) [
  | inl e ↦
      let same : j ≡ k = eq_of_eqb j k e in
      let differ : slot' ≢ slot = λ e'. apart (same, e') in
      rw (same, put_at_self chunks k (some chunk'))
        (get-set_other (or_empty_chunk (chunks k)) chunk' slot slot' info h differ)
  | inr e ↦ rw (put_at-other chunks k j (some chunk') e) refl
]

-- After a tick is written into its chunk, it is read there.
pub tick_in-put_at :
    (chunks : ℤ → Option (List TickInfo)) (tick : ℤ) (spacing : ℕ) (info : TickInfo)
    (chunk' : List TickInfo)
    → set (or_empty_chunk (chunks (place tick spacing).0)) (place tick spacing).1 info ≡ ok chunk'
    → tick_in (put_at chunks (place tick spacing).0 (some chunk')) tick spacing ≡ ok info
tick_in-put_at chunks tick spacing info chunk' h =
    tick_in_lem (put_at chunks (place tick spacing).0 (some chunk')) tick spacing
    ∙ read-put_at chunks (place tick spacing).0 (place tick spacing).1 info chunk' h

-- The ticks of other places are unchanged.
pub tick_in-put_at_other :
    (chunks : ℤ → Option (List TickInfo)) (tick other : ℤ) (spacing : ℕ) (info : TickInfo)
    (chunk' : List TickInfo)
    → set (or_empty_chunk (chunks (place tick spacing).0)) (place tick spacing).1 info ≡ ok chunk'
    → ¬ (
        ((place other spacing).0 ≡ (place tick spacing).0)
        × ((place other spacing).1 ≡ (place tick spacing).1))
    → tick_in (put_at chunks (place tick spacing).0 (some chunk')) other spacing
      ≡ tick_in chunks other spacing
tick_in-put_at_other chunks tick other spacing info chunk' h apart =
    tick_in_lem (put_at chunks (place tick spacing).0 (some chunk')) other spacing
    ∙ read-put_at_other chunks (place tick spacing).0 (place other spacing).0 (place tick spacing).1
        (place other spacing).1 info chunk' h apart
    ∙ sym (tick_in_lem chunks other spacing)
