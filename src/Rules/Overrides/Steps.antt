-- ===== src/Rules/Overrides/Steps.antt =====
-- A chain of merge steps that may fail.
use td_sandboxed.Base.{◌≡◌, refl}
use td_sandboxed.Rules.Overrides.{Merged, failed, settled, ◌>>=◌}

-- The steps of a merge that succeeded have succeeded.
pub >>=-eq-settled {ℓ κ} :
    {X : Type ℓ} {Y : Type κ} (first : Merged X) (next : X → Merged Y) {y : Y}
    → (first >>= next) ≡ settled y
    → (x : X) × (first ≡ settled x) × (next x ≡ settled y)
>>=-eq-settled (failed why) next h = cc
>>=-eq-settled (settled x) next h = (x, refl, h)
