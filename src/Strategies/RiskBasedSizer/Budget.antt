-- ===== src/Strategies/RiskBasedSizer/Budget.antt =====
-- What a size loses at its stop against the risk budget, and its limits, under rounding.
use td_sandboxed.Base.{◌≡◌, ◌⊎◌, refl, inl, inr, returned, Bool-cases}
use td_sandboxed.Base.Number.{Number, IsOrdered, AtMost, Below}
use td_sandboxed.Base.Comparison.{le_of_not_lt, divide_above}
use td_sandboxed.Strategies.PositionSizer.{
  Request, min_of, risk_amount, loss_per_lot, stop_distance,
}
use td_sandboxed.Strategies.PositionSizer.Limits.{IsTruncating, min-bounds, min-above}
use td_sandboxed.Strategies.RiskBasedSizer.{Config, refuses_account, clamp, calculate_lot_size}

-- Rounded products by a positive number keep the order, and a rounded quotient of a number that is
-- not negative by a positive one is not negative.
pub record IsRounded (F : Type 0) ⦃n : Number F⦄ : Type 0 where
  pub mul_mono : (x y d : F) → Below (n.literal 0) d → AtMost x y → AtMost (n.mul x d) (n.mul y d)
  pub div_above :
      (x d : F) → AtMost (n.literal 0) x → Below (n.literal 0) d → AtMost (n.literal 0) (n.div x d)

module _ {F : Type 0} ⦃n : Number F⦄ where
  -- The limits of `RiskBasedSizerConfig`, the smaller one first.
  pub record IsLimited (cfg : Config F) : Type 0 where
    pub step : Below (n.literal 0) cfg.lot_step
    pub positive : Below (n.literal 0) cfg.min_lot_size
    pub ordered : AtMost cfg.min_lot_size cfg.max_lot_size

  -- The quotient was not rounded up: its product with the divisor is at most the dividend.
  abbrev pub IsNotAbove : (x d : F) → Type 0
  IsNotAbove x d = AtMost (n.mul (n.div x d) d) x

  -- No trade, or a size within the limits whose loss at the stop is within the risk amount.
  abbrev pub IsAffordable : Config F → Request F → F → Type 0
  IsAffordable cfg r lot =
      (lot ≡ n.literal 0)
      ⊎ AtMost cfg.min_lot_size lot
        × AtMost lot cfg.max_lot_size
        × AtMost (n.mul lot (loss_per_lot r)) (risk_amount r.account_balance cfg.risk_percent)

module _ {F : Type 0} ⦃n : Number F⦄ (laws : IsOrdered F) (rounded : IsRounded F)
    (to_integral : F → F) (cut : IsTruncating F to_integral) (cfg : Config F)
    (limited : IsLimited cfg) where
  affordable :
      (r : Request F) (lot : F)
      → AtMost (n.literal 0) (risk_amount r.account_balance cfg.risk_percent)
      → Below (n.literal 0) (loss_per_lot r)
      → IsNotAbove (risk_amount r.account_balance cfg.risk_percent) (loss_per_lot r)
      → ((lot ≡ n.literal 0)
          ⊎ AtMost cfg.min_lot_size lot
            × AtMost lot cfg.max_lot_size
            × AtMost lot (n.div (risk_amount r.account_balance cfg.risk_percent) (loss_per_lot r)))
      → IsAffordable cfg r lot
  affordable r lot nonneg loses fair (inl nothing) = inl nothing
  affordable r lot nonneg loses fair (inr (low, high, bought)) = inr (
    low,
    high,
    laws.le_trans (n.mul lot (loss_per_lot r))
        (n.mul (n.div (risk_amount r.account_balance cfg.risk_percent) (loss_per_lot r))
          (loss_per_lot r))
        (risk_amount r.account_balance cfg.risk_percent)
        (rounded.mul_mono lot
          (n.div (risk_amount r.account_balance cfg.risk_percent) (loss_per_lot r)) (loss_per_lot r)
          loses bought)
        fair,
  )

  -- A lot that is not negative is cut to no lot, or to one within the limits and not above it.
  clamp_bounds :
      (raw : F)
      → AtMost (n.literal 0) raw
      → IsNotAbove raw cfg.lot_step
      → (lot : F) × (clamp to_integral cfg raw ≡ returned lot)
        × ((lot ≡ n.literal 0)
            ⊎ AtMost cfg.min_lot_size lot × AtMost lot cfg.max_lot_size × AtMost lot raw)
  unfolding clamp
  clamp_bounds raw nonneg fair =
      let steps = n.div raw cfg.lot_step in
      let steps_nonneg = rounded.div_above raw cfg.lot_step nonneg limited.step in
      let floored = n.mul (to_integral steps) cfg.lot_step in
      let within : AtMost floored raw =
        laws.le_trans floored (n.mul steps cfg.lot_step) raw
          (rounded.mul_mono (to_integral steps) steps cfg.lot_step limited.step
            (cut.cut_below steps steps_nonneg))
          fair in
      let (low, high) = laws.le_numbers cfg.min_lot_size cfg.max_lot_size limited.ordered in
      let (known, _) = laws.le_numbers floored raw within in
      rw (divide_above laws raw cfg.lot_step limited.step)
        (elim (Bool-cases (n.lt floored cfg.min_lot_size)) [
          | inl small ↦ rw small (n.literal 0, refl, inl refl)
          | inr large ↦
              let (below, capped) = min-bounds laws floored cfg.max_lot_size known high in
              rw large (
                min_of floored cfg.max_lot_size,
                refl,
                inr (
                  min-above laws floored cfg.max_lot_size cfg.min_lot_size
                      (le_of_not_lt laws cfg.min_lot_size floored low known large) limited.ordered,
                  capped,
                  laws.le_trans (min_of floored cfg.max_lot_size) floored raw below within,
                ),
              )
        ])

  pub calculate_lot_size-IsAffordable :
      (r : Request F)
      → AtMost (n.literal 0) (risk_amount r.account_balance cfg.risk_percent)
      → Below (n.literal 0) (loss_per_lot r)
      → IsNotAbove (risk_amount r.account_balance cfg.risk_percent) (loss_per_lot r)
      → IsNotAbove
          (n.div (risk_amount r.account_balance cfg.risk_percent) (loss_per_lot r))
          cfg.lot_step
      → (lot : F) × (calculate_lot_size to_integral cfg r ≡ returned lot) × IsAffordable cfg r lot
  unfolding calculate_lot_size
  calculate_lot_size-IsAffordable r nonneg loses fair fair_steps =
      let risk = risk_amount r.account_balance cfg.risk_percent in
      elim (Bool-cases (refuses_account r)) [
        | inl bad ↦ rw bad (n.literal 0, refl, inl refl)
        | inr account ↦ rw account (elim (Bool-cases (n.le (stop_distance r) (n.literal 0))) [
          | inl bad ↦ rw bad (n.literal 0, refl, inl refl)
          | inr good ↦
              let raw = n.div risk (loss_per_lot r) in
              let (lot, found, sized) =
                clamp_bounds raw (rounded.div_above risk (loss_per_lot r) nonneg loses)
                  fair_steps in
              rw (good, divide_above laws risk (loss_per_lot r) loses)
                (lot, found, affordable r lot nonneg loses fair sized)
        ])
      ]
