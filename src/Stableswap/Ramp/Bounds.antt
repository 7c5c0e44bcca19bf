-- ===== src/Stableswap/Ramp/Bounds.antt =====
-- The amplification coefficient as a straight line between two values, over sequences of calls.
use soroban_amm.Prelude.{
  ℕ, ◌+◌, ◌-◌, ◌*◌, ◌/◌, ◌≤◌, ◌<◌, ◌≡◌, ◌∙◌, ap, ◌⊎◌, arith, true, ltb, if◌then◌else◌,
}
use native.Mathlib.Nat.{mul-le-mul}
use soroban_amm.Prelude.Arith.{div-le_of, div_bounds}
use soroban_amm.Host.{Address, Env, Math, Result, ok}
use soroban_amm.Stableswap.State.{Stable}
use soroban_amm.Stableswap.Ramp.{max_a, min_ramp_time, a, is_slow, put_ramp, ramp_a, stop_ramp_a}

abbrev pub Between : ℕ → ℕ → ℕ → Type 0
Between x y v = ((x ≤ v) × (v ≤ y)) ⊎ ((y ≤ v) × (v ≤ x))

-- A ramp that has begun, between two allowed values.
abbrev pub IsRamp : ℕ → Stable → Type 0
IsRamp now p =
    (p.initial_a_time ≤ now)
    × (0 < p.initial_a)
    × (p.initial_a < max_a)
    × (0 < p.future_a)
    × (p.future_a < max_a)

-- The straight line between two values, rounded towards the first.
unfoldable pub line : ℕ → ℕ → ℕ → ℕ → ℕ → ℕ
line a₀ a₁ t₀ t₁ now =
    if ltb now t₁
    then (if ltb a₀ a₁
        then a₀ + (a₁ - a₀) * (now - t₀) / (t₁ - t₀)
        else a₀ - (a₀ - a₁) * (now - t₀) / (t₁ - t₀))
    else a₁

part-le : (x k n : ℕ) → k ≤ n → 0 < n → x * k / n ≤ x
part-le x k n le pos =
    let h : x * k ≤ x * n = mul-le-mul {n₂ = x} {m₂ = n} (omega arith) le in
    div-le_of (x * k) n x pos h

line-Between : (a₀ a₁ t₀ t₁ now : ℕ) → t₀ ≤ now → Between a₀ a₁ (line a₀ a₁ t₀ t₁ now)
unfolding line
line-Between a₀ a₁ t₀ t₁ now started =
    ground (arith, part-le (a₁ - a₀) (now - t₀) (t₁ - t₀), part-le (a₀ - a₁) (now - t₀) (t₁ - t₀))

line-start : (a₀ a₁ t₀ t₁ : ℕ) → t₀ < t₁ → line a₀ a₁ t₀ t₁ t₀ ≡ a₀
unfolding line
line-start a₀ a₁ t₀ t₁ later =
    let none : t₀ - t₀ ≡ 0 = omega arith in
    let zero_part : 0 / (t₁ - t₀) ≡ 0 = omega (arith, div_bounds 0 (t₁ - t₀) (omega arith)) in
    ground (arith, none, zero_part)

line-end : (a₀ a₁ t₀ t₁ now : ℕ) → t₁ ≤ now → line a₀ a₁ t₀ t₁ now ≡ a₁
unfolding line
line-end a₀ a₁ t₀ t₁ now over = ground arith

module _ ⦃m : Math⦄ where
  a-line :
      (e : Env) (p : Stable)
      → IsRamp e.timestamp p
      → a e p ≡ ok (line p.initial_a p.future_a p.initial_a_time p.future_a_time e.timestamp)
  unfolding a line
  a-line e p ramp =
      let k = e.timestamp - p.initial_a_time in
      let n = p.future_a_time - p.initial_a_time in
      ground (
        arith,
        part-le (p.future_a - p.initial_a) k n,
        part-le (p.initial_a - p.future_a) k n,
        m.fixed_mul_floor_lem (p.future_a - p.initial_a) k n,
        m.fixed_mul_floor_lem (p.initial_a - p.future_a) k n,
      )

  module _ {S : Type 0} (update_plane : Stable → S → Result S) where
    ramp_a-eq-ok :
        (e : Env) (p : Stable) (s : S) (admin : Address) (target time : ℕ) (done : Stable × S)
        → ramp_a update_plane e (p, s) admin target time ≡ ok done
        → (now_a : ℕ) × (a e p ≡ ok now_a)
          × (is_slow now_a target ≡ ok true)
          × (done.0 ≡ put_ramp p now_a target e.timestamp time)
          × (0 < target)
          × (target < max_a)
          × (p.initial_a_time + min_ramp_time ≤ e.timestamp)
          × (e.timestamp + min_ramp_time ≤ time)
    unfolding ramp_a
    ramp_a-eq-ok e p s admin target time done h = ground arith

    stop_ramp_a-eq-ok :
        (e : Env) (p : Stable) (s : S) (admin : Address) (done : Stable × S)
        → stop_ramp_a update_plane e (p, s) admin ≡ ok done
        → (now_a : ℕ) × (a e p ≡ ok now_a)
          × (done.0 ≡ put_ramp p now_a now_a e.timestamp e.timestamp)
    unfolding stop_ramp_a
    stop_ramp_a-eq-ok e p s admin done h = ground arith

    -- One call, or the passing of time.
    pub data Step : ℕ × Stable → ℕ × Stable → Type 0 where
      wait : {p : Stable} {now later : ℕ} → now ≤ later → Step (now, p) (later, p)
      ramp :
          (e : Env) (p : Stable) (s : S) (admin : Address) (target time : ℕ) (done : Stable × S)
          → ramp_a update_plane e (p, s) admin target time ≡ ok done
          → Step (e.timestamp, p) (e.timestamp, done.0)
      stop :
          (e : Env) (p : Stable) (s : S) (admin : Address) (done : Stable × S)
          → stop_ramp_a update_plane e (p, s) admin ≡ ok done
          → Step (e.timestamp, p) (e.timestamp, done.0)

    pub data Reach (s : ℕ × Stable) : ℕ × Stable → Type 0 where
      here : Reach s s
      next : {t u : ℕ × Stable} → Reach s t → Step t u → Reach s u

    a-allowed :
        (e : Env) (p : Stable) (v : ℕ) → IsRamp e.timestamp p → a e p ≡ ok v → (0 < v) × (v < max_a)
    a-allowed e p v r h =
        let exact = a-line e p r in
        let between =
          line-Between p.initial_a p.future_a p.initial_a_time p.future_a_time e.timestamp (r.0) in
        ground arith

    Step-IsRamp : {t u : ℕ × Stable} → Step t u → IsRamp t.0 t.1 → IsRamp u.0 u.1
    unfolding put_ramp
    Step-IsRamp (wait le) r = ground arith
    Step-IsRamp (ramp e p s admin target time done h) r =
        let (v, now_a, _, put, pos, small, _, _) = ramp_a-eq-ok e p s admin target time done h in
        let (low, high) = a-allowed e p v r now_a in rw put (omega arith, low, high, pos, small)
    Step-IsRamp (stop e p s admin done h) r =
        let (v, now_a, put) = stop_ramp_a-eq-ok e p s admin done h in
        let (low, high) = a-allowed e p v r now_a in rw put (omega arith, low, high, low, high)

    Reach-IsRamp : {t u : ℕ × Stable} → IsRamp t.0 t.1 → Reach t u → IsRamp u.0 u.1
    Reach-IsRamp r here = r
    Reach-IsRamp r (next reach step) = Step-IsRamp step (Reach-IsRamp r reach)

    -- From a ramp that has begun between two coefficients above 0 and below 1,000,000, after any
    -- sequence of successful ramps, stops and passing of time, reading the coefficient succeeds and
    -- gives a number above 0 and below 1,000,000.
    pub Reach-a :
        (start : ℕ) (p p' : Stable) (e : Env)
        → IsRamp start p
        → Reach (start, p) (e.timestamp, p')
        → (v : ℕ) × (a e p' ≡ ok v) × (0 < v) × (v < max_a)
    Reach-a start p p' e r reach =
        let r' : IsRamp e.timestamp p' = Reach-IsRamp r reach in
        let exact = a-line e p' r' in
        let (low, high) = a-allowed e p' _ r' exact in (_, exact, low, high)

    -- A ramp that succeeds on a ramp that has begun between two coefficients above 0 and below
    -- 1,000,000 sets a target at most ten times and at least a tenth of the present coefficient, a
    -- day away at least; it does not move the coefficient at that moment, which at each later time
    -- can be read and lies between its value then and the target, and from the given time on is the
    -- target.
    pub ramp_a-gradual :
        (e : Env) (p : Stable) (s : S) (admin : Address) (target time : ℕ) (done : Stable × S)
        → IsRamp e.timestamp p
        → ramp_a update_plane e (p, s) admin target time ≡ ok done
        → (v : ℕ) × (a e p ≡ ok v)
          × (a e done.0 ≡ ok v)
          × (target ≤ v * 10)
          × (v ≤ target * 10)
          × (e.timestamp + min_ramp_time ≤ time)
          × ((e' : Env)
              → e.timestamp ≤ e'.timestamp
              → (w : ℕ) × (a e' done.0 ≡ ok w)
                × Between v target w
                × (time ≤ e'.timestamp → w ≡ target))
    unfolding is_slow put_ramp
    ramp_a-gradual e p s admin target time done r h =
        let (v, now_a, slow, put, pos, small, _, late) =
          ramp_a-eq-ok e p s admin target time done h in
        let (low, high) = a-allowed e p v r now_a in
        let ramped : Stable = put_ramp p v target e.timestamp time in
        let read : (e' : Env)
            → e.timestamp ≤ e'.timestamp
            → a e' ramped ≡ ok (line v target e.timestamp time e'.timestamp) =
          λ e' le. a-line e' ramped (le, low, high, pos, small) in
        let start = line-start v target e.timestamp time (omega arith) in
        (
          v,
          now_a,
          rw put (read e (omega arith) ∙ ap ok start),
          ground arith,
          ground arith,
          late,
          λ e' le. (
            _,
            rw put (read e' le),
            line-Between v target e.timestamp time e'.timestamp le,
            line-end v target e.timestamp time e'.timestamp,
          ),
        )
