-- ===== src/Stableswap/Fee/Delay.antt =====
-- The delayed change of the stableswap pool's fee, over sequences of calls.
use soroban_amm.Prelude.{ℕ, ◌+◌, ◌≤◌, ◌<◌, ◌≡◌, ◌⊎◌, arith, Option, some, none}
use soroban_amm.Host.{Address, Env, Result, ok}
use soroban_amm.Access.Transfer.{admin_actions_delay}
use soroban_amm.Stableswap.State.{Stable, fee_denominator}
use soroban_amm.Stableswap.Fee.{commit_new_fee, apply_new_fee, revert_new_parameters}

abbrev pub IsFee : Option ℕ → Type 0
IsFee none = Unit
IsFee (some fee) = fee < fee_denominator

module _ {S : Type 0} (update_plane : Stable → S → Result S) where
  -- One call, or the passing of time.
  pub data Step : ℕ × Stable → ℕ × Stable → Type 0 where
    wait : {p : Stable} {now later : ℕ} → now ≤ later → Step (now, p) (later, p)
    commit :
        (e : Env) (p p' : Stable) (admin : Address) (new_fee : ℕ)
        → commit_new_fee e p admin new_fee ≡ ok p'
        → Step (e.timestamp, p) (e.timestamp, p')
    apply :
        (e : Env) (p : Stable) (s : S) (admin : Address) (done : Stable × S)
        → apply_new_fee update_plane e (p, s) admin ≡ ok done
        → Step (e.timestamp, p) (e.timestamp, done.0)
    revert :
        (e : Env) (p p' : Stable) (admin : Address)
        → revert_new_parameters e p admin ≡ ok p'
        → Step (e.timestamp, p) (e.timestamp, p')

  pub data Reach (s : ℕ × Stable) : ℕ × Stable → Type 0 where
    here : Reach s s
    next : {t u : ℕ × Stable} → Reach s t → Step t u → Reach s u

  -- What holds at every state reached from `start` with the fee `fee` and nothing pending.
  abbrev IsGuarded : ℕ → ℕ → ℕ × Stable → Type 0
  IsGuarded start fee (now, p) =
      (start ≤ now)
      × (p.fee < fee_denominator)
      × IsFee p.future_fee
      × ((start + admin_actions_delay ≤ now)
          ⊎ ((p.fee ≡ fee)
              × ((p.admin_actions_deadline ≡ 0)
                  ⊎ (start + admin_actions_delay ≤ p.admin_actions_deadline))))

  commit-eq-ok :
      (e : Env) (p p' : Stable) (admin : Address) (new_fee : ℕ)
      → commit_new_fee e p admin new_fee ≡ ok p'
      → (new_fee < fee_denominator)
        × (p' ≡ record p {
          admin_actions_deadline = e.timestamp + admin_actions_delay;
          future_fee = some new_fee;
        })
  unfolding commit_new_fee
  commit-eq-ok e p p' admin new_fee h = ground arith

  apply-eq-ok :
      (e : Env) (p : Stable) (s : S) (admin : Address) (done : Stable × S)
      → apply_new_fee update_plane e (p, s) admin ≡ ok done
      → (fee : ℕ) × (p.future_fee ≡ some fee)
        × (done.0 ≡ record p { admin_actions_deadline = 0; fee = fee })
        × (p.admin_actions_deadline ≤ e.timestamp)
        × (0 < p.admin_actions_deadline)
  unfolding apply_new_fee
  apply-eq-ok e p s admin done h = ground arith

  revert-eq-ok :
      (e : Env) (p p' : Stable) (admin : Address)
      → revert_new_parameters e p admin ≡ ok p'
      → p' ≡ record p { admin_actions_deadline = 0 }
  unfolding revert_new_parameters
  revert-eq-ok e p p' admin h = ground arith

  Step-IsGuarded :
      (start fee : ℕ) {t u : ℕ × Stable} → Step t u → IsGuarded start fee t → IsGuarded start fee u
  Step-IsGuarded start fee (wait le) g = ground arith
  Step-IsGuarded start fee (commit e p p' admin new_fee h) g =
      let (small, put) = commit-eq-ok e p p' admin new_fee h in rw put (ground arith)
  Step-IsGuarded start fee (apply e p s admin done h) g =
      let (f, future, put, due, active) = apply-eq-ok e p s admin done h in
      let small : f < fee_denominator = rw future at (g.2) in rw put (ground arith)
  Step-IsGuarded start fee (revert e p p' admin h) g =
      let put = revert-eq-ok e p p' admin h in rw put (ground arith)

  Reach-IsGuarded :
      (start fee : ℕ) {t u : ℕ × Stable} → IsGuarded start fee t → Reach t u → IsGuarded start fee u
  Reach-IsGuarded start fee g here = g
  Reach-IsGuarded start fee g (next r st) =
      Step-IsGuarded start fee st (Reach-IsGuarded start fee g r)

  -- From a state with a fee below 100%, no change of the fee pending and none recorded at 100% or
  -- more, after any sequence of commits, applications, reverts and passing of time, the fee is below
  -- 100%, and it is still the same if less than three days have passed.
  pub Reach-fee :
      (start now : ℕ) (p p' : Stable)
      → p.fee < fee_denominator
      → IsFee p.future_fee
      → p.admin_actions_deadline ≡ 0
      → Reach (start, p) (now, p')
      → (p'.fee < fee_denominator) × (now < start + admin_actions_delay → p'.fee ≡ p.fee)
  Reach-fee start now p p' small future idle r =
      let g : IsGuarded start p.fee (now, p') = Reach-IsGuarded start p.fee (ground arith) r in
      (g.1, λ soon. ground arith)
