-- ===== src/Base/Comparison.antt =====
-- Consequences of the laws of comparison.
use mathlib.Core.Path.{◌≡◌}
use mathlib.Core.Logic.{inl, inr}
use mathlib.Core.Bool.{false}
use native.Mathlib.Omega.{arith}
use td_sandboxed.Base.Tests.{Bool-cases}
use td_sandboxed.Base.Raising.{returned}
use td_sandboxed.Base.Number.{Number, IsOrdered, IsNumber, AtMost, Below, divide}

module _ {F : Type 0} ⦃n : Number F⦄ (laws : IsOrdered F) where
  pub le_of_lt : (x y : F) → Below x y → AtMost x y
  le_of_lt x y h =
      let (p, q) = laws.lt_numbers x y h in
      ground (arith, laws.lt_of_numbers x y p q, laws.le_total x y p q)

  pub lt_of_not_le : (x y : F) → IsNumber x → IsNumber y → n.le y x ≡ false → Below x y
  lt_of_not_le x y p q h = ground (arith, laws.lt_of_numbers x y p q)

  pub not_le_of_lt : (x y : F) → Below x y → n.le y x ≡ false
  not_le_of_lt x y h =
      let (p, q) = laws.lt_numbers x y h in ground (arith, laws.lt_of_numbers x y p q)

  pub not_lt_of_le : (x y : F) → AtMost x y → n.lt y x ≡ false
  not_lt_of_le x y h =
      let (p, q) = laws.le_numbers x y h in ground (arith, laws.lt_of_numbers y x q p)

  -- A divisor that is not below a positive dividend is not zero.
  pub divide_positive :
      (x d : F) → Below (n.literal 0) x → n.le d x ≡ false → divide x d ≡ returned (n.div x d)
  divide_positive x d positive above = elim (Bool-cases (n.eq d (n.literal 0))) [
    | inr differ ↦ rw differ
    | inl same ↦
        let (low, _) = laws.eq_le d (n.literal 0) same in
        let reached = laws.le_trans d (n.literal 0) x low (le_of_lt (n.literal 0) x positive) in cc
  ]

  pub lt_of_le_lt : (x y z : F) → AtMost x y → Below y z → Below x z
  lt_of_le_lt x y z h k =
      let (p, _) = laws.le_numbers x y h in
      let (_, q) = laws.lt_numbers y z k in
      elim (Bool-cases (n.le z x)) [
        | inl back ↦
            let closed = laws.le_trans z x y back h in
            let open_ = not_le_of_lt y z k in absurd (cc closed)
        | inr apart ↦ lt_of_not_le x z p q apart
      ]

  pub le_of_not_lt : (x y : F) → IsNumber x → IsNumber y → n.lt y x ≡ false → AtMost x y
  le_of_not_lt x y p q h = ground (arith, laws.lt_of_numbers y x q p)

  pub divide_above : (x d : F) → Below (n.literal 0) d → divide x d ≡ returned (n.div x d)
  divide_above x d positive = elim (Bool-cases (n.eq d (n.literal 0))) [
    | inr differ ↦ rw differ
    | inl same ↦
        let (low, _) = laws.eq_le d (n.literal 0) same in
        let high = not_le_of_lt (n.literal 0) d positive in cc
  ]
