-- ===== src/Base/Number.antt =====
-- The numbers of the Python code, `float` and `Decimal`, as a type with the operations that the
-- code uses. No operation is assumed exact: a law below is one of IEEE-754 comparisons, or says
-- that a rounded operation is monotone.
use Prim.Native.Nat.{ℕ, ◌≤◌, ◌<◌}
use mathlib.Core.Path.{◌≡◌}
use mathlib.Core.Logic.{◌⊎◌}
use mathlib.Core.Bool.{Bool, true, not}
use td_sandboxed.Base.Tests.{if◌then◌else◌}
use td_sandboxed.Base.Raising.{Outcome, returned, raised}

pub record Number (F : Type 0) : Type 0 where
  pub literal : ℕ → F
  pub add : F → F → F
  pub sub : F → F → F
  pub mul : F → F → F
  pub div : F → F → F
  pub neg : F → F
  pub abs : F → F
  pub lt : F → F → Bool
  pub le : F → F → Bool
  pub eq : F → F → Bool

module _ {F : Type 0} ⦃n : Number F⦄ where
  abbrev pub zero_of : F
  zero_of = n.literal 0

  -- `x / y`: Python raises ZeroDivisionError on a zero divisor.
  abbrev pub divide : F → F → Outcome F
  divide x y = if n.eq y (n.literal 0) then raised else returned (n.div x y)

  -- NaN is the value that is not `<=` itself.
  abbrev pub IsNumber : F → Type 0
  IsNumber x = n.le x x ≡ true

  abbrev pub AtMost : F → F → Type 0
  AtMost x y = n.le x y ≡ true

  abbrev pub Below : F → F → Type 0
  Below x y = n.lt x y ≡ true

-- Comparison: total away from NaN, and false on NaN.
pub record IsOrdered (F : Type 0) ⦃n : Number F⦄ : Type 0 where
  pub le_trans : (x y z : F) → AtMost x y → AtMost y z → AtMost x z
  pub le_numbers : (x y : F) → AtMost x y → IsNumber x × IsNumber y
  pub le_total : (x y : F) → IsNumber x → IsNumber y → AtMost x y ⊎ AtMost y x
  pub lt_of_numbers : (x y : F) → IsNumber x → IsNumber y → n.lt x y ≡ not (n.le y x)
  pub lt_numbers : (x y : F) → Below x y → IsNumber x × IsNumber y
  pub eq_le : (x y : F) → n.eq x y ≡ true → AtMost x y × AtMost y x
  pub literal_le : (a b : ℕ) → a ≤ b → AtMost (n.literal a) (n.literal b)
  pub literal_lt : (a b : ℕ) → a < b → Below (n.literal a) (n.literal b)

-- Rounded operations keep the order, as IEEE-754 rounding does.
pub record IsMonotone (F : Type 0) ⦃n : Number F⦄ : Type 0 where
  pub abs_pos : (x : F) → Below x (n.literal 0) → Below (n.literal 0) (n.abs x)
  pub abs_antitone : (x y : F) → AtMost x y → Below y (n.literal 0) → AtMost (n.abs y) (n.abs x)
  pub div_mono :
      (x y d : F) → AtMost (n.literal 0) x → AtMost x y → Below y d → AtMost (n.div x d) (n.div y d)
  pub percent_mono :
      (x y : F) → AtMost x y → AtMost (n.mul x (n.literal 100)) (n.mul y (n.literal 100))
