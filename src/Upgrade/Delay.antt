-- ===== src/Upgrade/Delay.antt =====
-- Outside emergency mode the code of a contract changes only three days after a commit.
use soroban_amm.Prelude.{ℕ, ◌+◌, ◌≤◌, ◌<◌, ◌≡◌, refl, ◌⊎◌, Bool, true, false, some, arith}
use soroban_amm.Host.{Env, ok, err, upgrade, UpgradeError}
use soroban_amm.Access.Store.{Access, get_emergency_mode}
use soroban_amm.Upgrade.{
  Hash, Code, upgrade_delay, get_upgrade_deadline, commit_upgrade, apply_upgrade, revert_upgrade,
}

-- One call, or the passing of time. The access state is the environment's: it says whether the
-- contract is in emergency mode at the call.
pub data Step (in_emergency : Bool) : ℕ × Code → ℕ × Code → Type 0 where
  wait : {c : Code} {now later : ℕ} → now ≤ later → Step in_emergency (now, c) (later, c)
  commit :
      {c c' : Code} (e : Env) (h : Hash)
      → commit_upgrade e c h ≡ ok c'
      → Step in_emergency (e.timestamp, c) (e.timestamp, c')
  apply :
      {c c' : Code} (e : Env) (s : Access) (h : Hash)
      → get_emergency_mode s ≡ in_emergency
      → apply_upgrade e s c ≡ ok (h, c')
      → Step in_emergency (e.timestamp, c) (e.timestamp, c')
  revert : {c : Code} {now : ℕ} → Step in_emergency (now, c) (now, revert_upgrade c)

pub data Reach (in_emergency : Bool) (s : ℕ × Code) : ℕ × Code → Type 0 where
  here : Reach in_emergency s s
  next : {t u : ℕ × Code} → Reach in_emergency s t → Step in_emergency t u → Reach in_emergency s u

abbrev IsGuarded : ℕ → Hash → ℕ × Code → Type 0
IsGuarded start code (now, c) =
    (start ≤ now)
    × ((start + upgrade_delay ≤ now)
        ⊎ ((c.wasm ≡ code)
            × ((get_upgrade_deadline c ≡ 0) ⊎ (start + upgrade_delay ≤ get_upgrade_deadline c))))

Step-IsGuarded :
    (start : ℕ) (code : Hash) {t u : ℕ × Code}
    → Step false t u
    → IsGuarded start code t
    → IsGuarded start code u
unfolding commit_upgrade apply_upgrade
Step-IsGuarded start code (wait le) g = ground arith
Step-IsGuarded start code (commit e h eq) g = ground arith
Step-IsGuarded start code (apply e s h calm eq) g = ground arith
Step-IsGuarded start code revert g = ground arith

Reach-IsGuarded :
    (start : ℕ) (code : Hash) {t u : ℕ × Code}
    → IsGuarded start code t
    → Reach false t u
    → IsGuarded start code u
Reach-IsGuarded start code g here = g
Reach-IsGuarded start code g (next r st) =
    Step-IsGuarded start code st (Reach-IsGuarded start code g r)

-- From a state with no upgrade pending, after any sequence of calls outside emergency mode that
-- ends less than three days later, the contract still runs the same code.
pub Reach-wasm :
    (start now : ℕ) (c c' : Code)
    → get_upgrade_deadline c ≡ 0
    → Reach false (start, c) (now, c')
    → now < start + upgrade_delay
    → c'.wasm ≡ c.wasm
Reach-wasm start now c c' idle r soon =
    let g : IsGuarded start c.wasm (now, c') = Reach-IsGuarded start c.wasm (ground arith) r in
    ground arith

-- A committed upgrade is refused before three days have passed unless emergency mode is on. In
-- emergency mode, or from three days on, it is applied: the committed code is then the code that
-- runs, and nothing is pending.
pub commit_upgrade-apply_upgrade :
    (e e' : Env) (s : Access) (c c' : Code) (h : Hash)
    → commit_upgrade e c h ≡ ok c'
    → (get_emergency_mode s ≡ false
        → e'.timestamp < e.timestamp + upgrade_delay
        → apply_upgrade e' s c' ≡ err (upgrade UpgradeError.action_not_ready_yet))
      × ((get_emergency_mode s ≡ true) ⊎ (e.timestamp + upgrade_delay ≤ e'.timestamp)
          → (c″ : Code) × (apply_upgrade e' s c' ≡ ok (h, c″))
            × (c″.wasm ≡ h)
            × (get_upgrade_deadline c″ ≡ 0))
unfolding commit_upgrade apply_upgrade
commit_upgrade-apply_upgrade e e' s c c' h eq = (
  λ calm early. ground arith,
  λ ready. (record c' { wasm = h; upgrade_deadline = some 0 }, ground arith, refl, refl),
)
