-- ===== src/Strategies/PositionSizer/Limits.antt =====
-- The sizes stay within the configured limits, and a budget too small for the smallest lot gets it.
use td_sandboxed.Base.{
  ◌≡◌, ◌∙◌, ap, refl, subst, inl, inr, Option, none, some, Outcome, returned, Bool-cases,
}
use td_sandboxed.Base.Number.{Number, IsOrdered, IsNumber, AtMost, Below}
use td_sandboxed.Base.Comparison.{le_of_lt, le_of_not_lt, divide_above, not_lt_of_le}
use td_sandboxed.Strategies.PositionSizer.{
  Config, Request, max_of, min_of, risk_amount, loss_per_lot, refuses, apply_constraints, fixed_or,
  calculate_lot_size,
}

-- Rounding towards zero.
pub record IsTruncating (F : Type 0) ⦃n : Number F⦄ (cut : F → F) : Type 0 where
  pub cut_below : (x : F) → AtMost (n.literal 0) x → AtMost (cut x) x
  pub cut_positive : (x : F) → AtMost (n.literal 0) x → AtMost (n.literal 0) (cut x)
  pub cut_mono : (x y : F) → AtMost x y → AtMost (cut x) (cut y)

module _ {F : Type 0} ⦃n : Number F⦄ (laws : IsOrdered F) where
  pub max-bounds :
      (x y : F) → IsNumber x → IsNumber y → AtMost x (max_of x y) × AtMost y (max_of x y)
  max-bounds x y p q = elim (Bool-cases (n.lt x y)) [
    | inl e ↦ rw e (le_of_lt laws x y e, q)
    | inr e ↦ rw e (p, le_of_not_lt laws y x q p e)
  ]

  pub min-bounds :
      (x y : F) → IsNumber x → IsNumber y → AtMost (min_of x y) x × AtMost (min_of x y) y
  min-bounds x y p q = elim (Bool-cases (n.lt y x)) [
    | inl e ↦ rw e (le_of_lt laws y x e, q)
    | inr e ↦ rw e (p, le_of_not_lt laws x y p q e)
  ]

  pub min-above : (x y z : F) → AtMost z x → AtMost z y → AtMost z (min_of x y)
  min-above x y z p q = elim (Bool-cases (n.lt y x)) [ inl e ↦ rw e q | inr e ↦ rw e p ]

module _ {F : Type 0} ⦃n : Number F⦄ where
  -- A configured fixed size, if there is one, is a number.
  abbrev pub IsFixed : Option F → Type 0
  IsFixed none = Unit
  IsFixed (some x) = IsNumber x

  -- The limits are positive, in order, and the smaller one is one of cents.
  pub record IsLimited (quantize : F → F) (cfg : Config F) : Type 0 where
    pub positive : Below (n.literal 0) cfg.min_lot_size
    pub ordered : AtMost cfg.min_lot_size cfg.max_lot_size
    pub cents : quantize cfg.min_lot_size ≡ cfg.min_lot_size

  abbrev pub IsWithin : Config F → F → Type 0
  IsWithin cfg lot = AtMost cfg.min_lot_size lot × AtMost lot cfg.max_lot_size

module _ {F : Type 0} ⦃n : Number F⦄ (laws : IsOrdered F) (quantize : F → F)
    (cut : IsTruncating F quantize) (cfg : Config F) (limited : IsLimited quantize cfg) where
  min-IsWithin : IsWithin cfg cfg.min_lot_size
  min-IsWithin =
      ((laws.le_numbers cfg.min_lot_size cfg.max_lot_size limited.ordered).0, limited.ordered)

  apply_constraints-IsWithin :
      (lot : F) → IsNumber lot → IsWithin cfg (apply_constraints quantize cfg lot)
  unfolding apply_constraints
  apply_constraints-IsWithin lot numeric =
      let (low, high) = laws.le_numbers cfg.min_lot_size cfg.max_lot_size limited.ordered in
      let (_, above) = max-bounds laws lot cfg.min_lot_size numeric low in
      let raised_ = max_of lot cfg.min_lot_size in
      let (_, raised_numeric) = laws.le_numbers cfg.min_lot_size raised_ above in
      let (_, below) = min-bounds laws raised_ cfg.max_lot_size raised_numeric high in
      let kept = min-above laws raised_ cfg.max_lot_size cfg.min_lot_size above limited.ordered in
      let clamped = min_of raised_ cfg.max_lot_size in
      let nonneg =
        laws.le_trans (n.literal 0) cfg.min_lot_size clamped
          (le_of_lt laws (n.literal 0) cfg.min_lot_size limited.positive) kept in
      (
        subst (λ x. AtMost x (quantize clamped)) limited.cents
            (cut.cut_mono cfg.min_lot_size clamped kept),
        laws.le_trans (quantize clamped) clamped cfg.max_lot_size (cut.cut_below clamped nonneg)
            below,
      )

  -- A raw lot below the smallest one becomes the smallest one.
  apply_constraints-small :
      (lot : F) → Below lot cfg.min_lot_size → apply_constraints quantize cfg lot ≡ cfg.min_lot_size
  unfolding apply_constraints
  apply_constraints-small lot small =
      let bounded = not_lt_of_le laws cfg.min_lot_size cfg.max_lot_size limited.ordered in
      rw (small, bounded) limited.cents

  -- A call returns a size within the limits.
  abbrev Answers : Outcome F → Type 0
  Answers answer = (lot : F) × (answer ≡ returned lot) × IsWithin cfg lot

  fixed_or-Answers :
      (fixed : Option F) (computed : Outcome F)
      → IsFixed fixed
      → Answers computed
      → Answers (fixed_or quantize cfg fixed computed)
  fixed_or-Answers none computed numeric h = h
  fixed_or-Answers (some lot) computed numeric h = (_, refl, apply_constraints-IsWithin lot numeric)

  -- Under the laws of comparison and of rounding towards zero, for limits that are positive, in
  -- order and in cents, a numeric fixed size if there is one, a numeric raw lot and a positive
  -- loss per lot, the size that is answered lies within the limits.
  pub calculate_lot_size-IsWithin :
      (r : Request F)
      → IsFixed cfg.fixed_lot_size
      → IsNumber (n.div (risk_amount r.account_balance cfg.risk_percent) (loss_per_lot r))
      → Below (n.literal 0) (loss_per_lot r)
      → (lot : F) × (calculate_lot_size quantize cfg r ≡ returned lot) × IsWithin cfg lot
  unfolding calculate_lot_size
  calculate_lot_size-IsWithin r fixed numeric loses =
      let risk = risk_amount r.account_balance cfg.risk_percent in
      fixed_or-Answers cfg.fixed_lot_size _ fixed (elim (Bool-cases (refuses r)) [
        | inl bad ↦ rw bad (cfg.min_lot_size, refl, min-IsWithin)
        | inr good ↦
            rw (good, divide_above laws risk (loss_per_lot r) loses)
              (_, refl, apply_constraints-IsWithin (n.div risk (loss_per_lot r)) numeric)
      ])

  fixed_or-none :
      (fixed : Option F) (computed : Outcome F)
      → fixed ≡ none
      → fixed_or quantize cfg fixed computed ≡ computed
  fixed_or-none none computed h = refl
  fixed_or-none (some lot) computed h = cc h

  -- Without a fixed size, a risk budget that buys less than the smallest lot still gets the smallest
  -- lot.
  pub calculate_lot_size-promotes :
      (r : Request F)
      → cfg.fixed_lot_size ≡ none
      → Below
          (n.div (risk_amount r.account_balance cfg.risk_percent) (loss_per_lot r))
          cfg.min_lot_size
      → Below (n.literal 0) (loss_per_lot r)
      → calculate_lot_size quantize cfg r ≡ returned cfg.min_lot_size
  unfolding calculate_lot_size
  calculate_lot_size-promotes r absent small loses =
      let risk = risk_amount r.account_balance cfg.risk_percent in
      fixed_or-none cfg.fixed_lot_size _ absent ∙ elim (Bool-cases (refuses r)) [
        | inl bad ↦ rw bad
        | inr good ↦
            rw (good, divide_above laws risk (loss_per_lot r) loses)
              (ap (λ x. returned x) (apply_constraints-small (n.div risk (loss_per_lot r)) small))
      ]
