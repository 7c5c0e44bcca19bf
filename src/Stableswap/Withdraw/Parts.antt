-- ===== src/Stableswap/Withdraw/Parts.antt =====
-- The parts of the reserves that `withdraw` of the stableswap pool pays.
use soroban_amm.Prelude.{
  ℕ, ◌+◌, ◌-◌, ◌*◌, ◌/◌, ◌≤◌, ◌<◌, ◌≡◌, arith, List, [], ◌∷◌, length, not, ◌==◌, sym, ap, ◌∙◌,
}
use soroban_amm.Prelude.Arith.{div_bounds}
use soroban_amm.Host.{
  Env, Math, Result, ok, require_auth, panic_if, validation, wrong_input_vec_size,
}
use soroban_amm.Host.Inversion.{bind-ok, ok-injective}
use soroban_amm.Pool.State.{Outside}
use soroban_amm.Pool.Liquidity.{checkpoint_before}
use soroban_amm.Stableswap.State.{Stable}
use soroban_amm.Stableswap.Reserves.{sync_reserves}
use soroban_amm.Stableswap.Withdraw.{pay_part, pay_parts, burn_shares, conclude, withdraw}

-- `paid` out of `reserve` for `n` of `total` shares: at least `least`, at most the part of the
-- shares, and what is left is at least the part of the other shares.
abbrev pub IsPart : ℕ → ℕ → ℕ → ℕ → ℕ → ℕ → Type 0
IsPart n total reserve least paid left =
    (least ≤ paid)
    × (left + paid ≡ reserve)
    × (paid * total ≤ reserve * n)
    × (reserve * total ≤ left * total + reserve * n)

-- Each of the reserves is paid in part.
abbrev pub ArePaid : ℕ → ℕ → List ℕ → List ℕ → List ℕ → List ℕ → List ℕ → Type 0
ArePaid n total [] rs ms ps ls = (ps ≡ []) × (ls ≡ rs)
ArePaid n total (t ∷ ts) (r ∷ rs) (m ∷ ms) (p ∷ ps) (l ∷ ls) =
    IsPart n total r m p l × ArePaid n total ts rs ms ps ls
ArePaid n total (t ∷ ts) _ _ _ _ = ⊥

ArePaid-of :
    (n total : ℕ) (ts rs ms ps ps' ls ls' : List ℕ)
    → ps ≡ ps'
    → ls ≡ ls'
    → ArePaid n total ts rs ms ps ls
    → ArePaid n total ts rs ms ps' ls'
ArePaid-of n total ts rs ms ps ps' ls ls' e f h = rw (sym e, sym f) h

IsPart-of :
    (n total r m paid left : ℕ)
    → 0 < total
    → paid ≡ r * n / total
    → left + paid ≡ r
    → m ≤ paid
    → IsPart n total r m paid left
IsPart-of n total r m paid left pos e sum le =
    let (low, high) = div_bounds (r * n) total pos in
    let under : paid * total ≤ r * n = rw e low in
    let whole : r * total ≡ left * total + paid * total = rw (sym sum) (omega arith) in
    (le, sum, under, omega (arith, whole, under))

module _ ⦃m : Math⦄ {S : Type 0} (o : Outside S) (update_plane : Stable → S → Result S) where
  pay_part-IsPart :
      (e : Env) (user n total t r least : ℕ) (s : S) (turn : (ℕ × ℕ) × S)
      → pay_part o update_plane e user n total t r least s ≡ ok turn
      → IsPart n total r least turn.0.1 turn.0.0
  unfolding pay_part
  pay_part-IsPart e user n total t r least s turn h =
      let law = m.fixed_mul_floor_lem r n total in
      let pos : 0 < total = ground arith in
      let value : turn.0.1 ≡ r * n / total = ground arith in
      let sum : turn.0.0 + turn.0.1 ≡ r = ground arith in
      let enough : least ≤ turn.0.1 = ground arith in
      IsPart-of n total r least turn.0.1 turn.0.0 pos value sum enough

  pay_parts-eq-ok :
      (e : Env) (user n total t r least : ℕ) (ts rs ms : List ℕ) (s : S)
      (result : (List ℕ × List ℕ) × S)
      → pay_parts o update_plane e user n total (t ∷ ts) (r ∷ rs) (least ∷ ms) s ≡ ok result
      → (turn : (ℕ × ℕ) × S) × (pay_part o update_plane e user n total t r least s ≡ ok turn)
        × (rest : (List ℕ × List ℕ) × S) × (pay_parts o update_plane e user n total ts rs ms turn.1
            ≡ ok rest)
        × (turn.0.0 ∷ rest.0.0 ≡ result.0.0)
        × (turn.0.1 ∷ rest.0.1 ≡ result.0.1)
  unfolding pay_parts
  pay_parts-eq-ok e user n total t r least ts rs ms s result h =
      let (turn, part, h₁) =
        bind-ok (pay_part o update_plane e user n total t r least s) _ result h in
      let (rest, later, h₂) =
        bind-ok (pay_parts o update_plane e user n total ts rs ms turn.1) _ result h₁ in
      let same = ok-injective h₂ in
      (turn, part, rest, later, ap (λ z. z.0.0) same, ap (λ z. z.0.1) same)

  pay_parts-ArePaid :
      (e : Env) (user n total : ℕ) (ts rs ms : List ℕ) (s : S) (result : (List ℕ × List ℕ) × S)
      → pay_parts o update_plane e user n total ts rs ms s ≡ ok result
      → ArePaid n total ts rs ms result.0.1 result.0.0
  unfolding pay_parts
  pay_parts-ArePaid e user n total [] rs ms s result h = (ground arith, ground arith)
  pay_parts-ArePaid e user n total (t ∷ ts) [] ms s result h = ground arith
  pay_parts-ArePaid e user n total (t ∷ ts) (r ∷ rs) [] s result h = ground arith
  pay_parts-ArePaid e user n total (t ∷ ts) (r ∷ rs) (least ∷ ms) s result h =
      let (turn, part, rest, later, left, paid) =
        pay_parts-eq-ok e user n total t r least ts rs ms s result h in
      ArePaid-of n total (t ∷ ts) (r ∷ rs) (least ∷ ms) (turn.0.1 ∷ rest.0.1) result.0.1
        (turn.0.0 ∷ rest.0.0) result.0.0 paid left
        (
          pay_part-IsPart e user n total t r least s turn part,
          pay_parts-ArePaid e user n total ts rs ms turn.1 rest later,
        )

  burn_shares-eq-ok :
      (p : Stable) (user n : ℕ) (s : S) (burned : Stable × S)
      → burn_shares o update_plane p user n s ≡ ok burned
      → (n ≤ p.total_shares) × (burned.0 ≡ record p { total_shares = p.total_shares - n })
  unfolding burn_shares
  burn_shares-eq-ok p user n s burned h = (ground arith, ground arith)

  conclude-eq-ok :
      (p : Stable) (user total held n : ℕ) (s : S) (done : Stable × S)
      → conclude o update_plane p user total held n s ≡ ok done
      → (n ≤ held) × (p ≡ done.0)
  unfolding conclude
  conclude-eq-ok p user total held n s done h = (ground arith, ground arith)

  finished :
      (e : Env) (p : Stable) (s : S) (user n held : ℕ) (mins paid : List ℕ)
      (parts : (List ℕ × List ℕ) × S) (burned end done : Stable × S)
      → pay_parts o update_plane e user n p.total_shares p.tokens p.reserves mins s ≡ ok parts
      → burn_shares o update_plane (record p { reserves = parts.0.0 }) user n parts.1 ≡ ok burned
      → conclude o update_plane burned.0 user p.total_shares held n burned.1 ≡ ok end
      → ◌≡◌ {A = Result (List ℕ × (Stable × S))} (ok (parts.0.1, end)) (ok (paid, done))
      → (n ≤ held)
        × (done.0.total_shares + n ≡ p.total_shares)
        × ArePaid n p.total_shares p.tokens p.reserves mins paid done.0.reserves
  finished e p s user n held mins paid parts burned end done run burn over h =
      let left : Stable = record p { reserves = parts.0.0 } in
      let same = ok-injective h in
      let (le, lowered) = burn_shares-eq-ok left user n parts.1 burned burn in
      let (enough, kept) = conclude-eq-ok burned.0 user p.total_shares held n burned.1 end over in
      let books : record left { total_shares = p.total_shares - n } ≡ done.0 =
        sym lowered ∙ kept ∙ ap (λ z. z.1.0) same in
      let shares : p.total_shares - n ≡ done.0.total_shares = ap (λ q. q.total_shares) books in
      let reserves : parts.0.0 ≡ done.0.reserves = ap (λ q. q.reserves) books in
      let amounts : parts.0.1 ≡ paid = ap (λ z. z.0) same in
      (
        enough,
        omega (arith, shares),
        ArePaid-of n p.total_shares p.tokens p.reserves mins parts.0.1 paid parts.0.0
            done.0.reserves amounts reserves
            (pay_parts-ArePaid e user n p.total_shares p.tokens p.reserves mins s parts run),
      )

  -- A withdrawal that succeeds takes no more shares than there are and than the user holds, and
  -- lowers the total by them. Of each reserve, as synced, the user is paid at least the given minimum
  -- and at most the part of the shares, and at least the part of the other shares is left.
  pub withdraw-parts :
      (e : Env) (p₀ : Stable) (s : S) (user n : ℕ) (mins paid : List ℕ) (done : Stable × S)
      → withdraw o update_plane e (p₀, s) user n mins ≡ ok (paid, done)
      → (p : Stable) × (sync_reserves o e p₀ s ≡ ok p)
        × (n ≤ o.balance p.token_share user s)
        × (done.0.total_shares + n ≡ p.total_shares)
        × ArePaid n p.total_shares p.tokens p.reserves mins paid done.0.reserves
  unfolding withdraw
  withdraw-parts e p₀ s user n mins paid done h =
      let (_, _, h₁) = bind-ok (require_auth e user) _ (paid, done) h in
      let (_, _, h₂) =
        bind-ok (panic_if (not (length mins == length p₀.tokens)) (validation wrong_input_vec_size))
          _ (paid, done) h₁ in
      let (p, sync, h₃) = bind-ok (sync_reserves o e p₀ s) _ (paid, done) h₂ in
      let held = o.balance p.token_share user s in
      let (s₁, _, h₄) =
        bind-ok (checkpoint_before o user p.total_shares held s) _ (paid, done) h₃ in
      let (parts, run, h₅) =
        bind-ok (pay_parts o update_plane e user n p.total_shares p.tokens p.reserves mins s₁) _
          (paid, done) h₄ in
      let (burned, burn, h₆) =
        bind-ok (burn_shares o update_plane (record p { reserves = parts.0.0 }) user n parts.1) _
          (paid, done) h₅ in
      let (end, over, h₇) =
        bind-ok (conclude o update_plane burned.0 user p.total_shares held n burned.1) _
          (paid, done) h₆ in
      let (enough, shares, parts_paid) =
        finished e p s₁ user n held mins paid parts burned end done run burn over h₇ in
      (p, sync, enough, shares, parts_paid)
