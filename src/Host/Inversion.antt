-- ===== src/Host/Inversion.antt =====
-- A chain of calls that succeeded, taken apart.
use soroban_amm.Prelude.{◌≡◌, refl, ap, arith}
use soroban_amm.Host.Errors.{Result, ok, err, ◌>>=◌}

pub ok-injective {ℓ} : {A : Type ℓ} {a b : A} → ok a ≡ ok b → a ≡ b
ok-injective {a = a} h = ap (λ r. elim r [ ok v ↦ v | err e ↦ a ]) h

-- The first call of a chain that succeeds gives a value on which the rest succeeds.
pub bind-ok {ℓ κ} :
    {X : Type ℓ} {Y : Type κ} (call : Result X) (next : X → Result Y) (y : Y)
    → call >>= next ≡ ok y
    → (x : X) × (call ≡ ok x) × (next x ≡ ok y)
bind-ok (ok x) next y h = (x, refl, h)
bind-ok (err e) next y h = ground arith
