-- ===== src/Pool/Switches.antt =====
-- The kill switches of the pool.
use soroban_amm.Prelude.{ℕ, ◌≡◌, true, List, arith}
use soroban_amm.Host.{Address, Env, Math, ok, err, pool, pool_swap_killed, pool_deposit_killed}
use soroban_amm.Pool.State.{Pool, Outside}
use soroban_amm.Pool.Swap.{swap, swap_strict_receive}
use soroban_amm.Pool.Liquidity.{deposit}
use soroban_amm.Pool.Admin.{kill_deposit, kill_swap}

module _ ⦃m : Math⦄ {S : Type 0} (o : Outside S) where
  -- In a pool whose swaps have been killed by a call of `kill_swap` no swap succeeds, of either
  -- kind.
  pub kill_swap-stops :
      (e e' : Env) (p p' : Pool) (s : S) (admin user : Address) (i j n bound : ℕ)
      → kill_swap e p admin ≡ ok p'
      → ((r : ℕ × (Pool × S)) → ¬ (swap o e' (p', s) user i j n bound ≡ ok r))
        × ((r : ℕ × (Pool × S)) → ¬ (swap_strict_receive o e' (p', s) user i j n bound ≡ ok r))
  unfolding kill_swap swap swap_strict_receive
  kill_swap-stops e e' p p' s admin user i j n bound h = (λ r k. ground arith, λ r k. ground arith)

  -- In a pool whose deposits have been killed by a call of `kill_deposit` no deposit succeeds.
  pub kill_deposit-stops :
      (e e' : Env) (p p' : Pool) (s : S) (admin user : Address) (l : List ℕ) (least : ℕ)
      (r : (ℕ × ℕ) × ℕ × (Pool × S))
      → kill_deposit e p admin ≡ ok p'
      → ¬ (deposit o e' (p', s) user l least ≡ ok r)
  unfolding kill_deposit deposit
  kill_deposit-stops e e' p p' s admin user l least r h k = ground arith

  -- Once `kill_swap` and then `kill_deposit` have been called on a pool, a caller who has authorized
  -- the call gets the error `PoolSwapKilled` from both kinds of swap and `PoolDepositKilled` from a
  -- deposit, whatever the amounts.
  pub kill-refuses :
      (e₁ e₂ e : Env) (p p₁ p₂ : Pool) (s : S) (admin₁ admin₂ user : Address) (i j n bound : ℕ)
      (l : List ℕ) (least : ℕ)
      → kill_swap e₁ p admin₁ ≡ ok p₁
      → kill_deposit e₂ p₁ admin₂ ≡ ok p₂
      → e.authorized user ≡ true
      → (swap o e (p₂, s) user i j n bound ≡ err (pool pool_swap_killed))
        × (swap_strict_receive o e (p₂, s) user i j n bound ≡ err (pool pool_swap_killed))
        × (deposit o e (p₂, s) user l least ≡ err (pool pool_deposit_killed))
  unfolding kill_swap kill_deposit swap swap_strict_receive deposit
  kill-refuses e₁ e₂ e p p₁ p₂ s admin₁ admin₂ user i j n bound l least h k t =
      (ground arith, ground arith, ground arith)
