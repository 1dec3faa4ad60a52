-- ===== src/Base/Raising.antt =====
-- A Python call that returns a value or raises an exception whose kind is not inspected.
use mathlib.Core.Path.{◌≡◌, refl}
use mathlib.Core.Logic.{◌⊎◌, inl, inr}

pub data Outcome {ℓ} (A : Type ℓ) : Type ℓ where
  returned : A → Outcome A
  raised : Outcome A

infixl 5 ◌>>=◌
abbrev pub ◌>>=◌ {ℓ κ} : {X : Type ℓ} {Y : Type κ} → Outcome X → (X → Outcome Y) → Outcome Y
raised >>= next = raised
returned x >>= next = next x

infixl 5 ◌>>◌
abbrev pub ◌>>◌ {ℓ κ} : {X : Type ℓ} {Y : Type κ} → Outcome X → Outcome Y → Outcome Y
first >> second = first >>= λ _. second

pub returned-injective {ℓ} : {A : Type ℓ} (a b : A) → returned a ≡ returned b → a ≡ b
returned-injective a b h = cc

-- A call that returned went through each of its steps.
pub >>=-eq-returned {ℓ κ} :
    {X : Type ℓ} {Y : Type κ} (first : Outcome X) (next : X → Outcome Y) {y : Y}
    → (first >>= next) ≡ returned y
    → (x : X) × (first ≡ returned x) × (next x ≡ returned y)
>>=-eq-returned raised next h = cc
>>=-eq-returned (returned x) next h = (x, refl, h)

pub Outcome-cases {ℓ} : {A : Type ℓ} (o : Outcome A) → (o ≡ raised) ⊎ ((a : A) × (o ≡ returned a))
Outcome-cases raised = inl refl
Outcome-cases (returned a) = inr (a, refl)
