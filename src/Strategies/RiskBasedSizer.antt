-- ===== src/Strategies/RiskBasedSizer.antt =====
-- strategies/risk_based_position_sizer.py: RiskBasedPositionSizer, which answers 0 where the risk
-- budget does not buy the smallest lot. `to_integral` is `Decimal.to_integral_value(ROUND_DOWN)`.
pub mod Budget
use td_sandboxed.Base.{◌≡◌, Bool, ◌||◌, Outcome, returned, raised, ◌>>=◌, if◌then◌else◌}
use td_sandboxed.Base.Number.{Number, divide}
use td_sandboxed.Strategies.PositionSizer.{
  Request, min_of, risk_amount, stop_distance, loss_per_lot,
}

-- `RiskBasedSizerConfig`
pub record Config (F : Type 0) : Type 0 where
  pub risk_percent : F
  pub max_lot_size : F
  pub min_lot_size : F
  pub lot_step : F

module _ {F : Type 0} ⦃n : Number F⦄ where
  abbrev pub refuses_account : Request F → Bool
  refuses_account r =
      n.le r.account_balance (n.literal 0)
      || n.le r.contract_size (n.literal 0)
      || n.le r.quote_to_account_rate (n.literal 0)

module _ {F : Type 0} ⦃n : Number F⦄ (to_integral : F → F) (cfg : Config F) where
  abbrev pub bounded : F → F
  bounded floored =
      if n.lt floored cfg.min_lot_size then n.literal 0 else min_of floored cfg.max_lot_size

  -- `_clamp`
  unfoldable pub clamp : F → Outcome F
  clamp lot =
      divide lot cfg.lot_step >>= λ x. returned (bounded (n.mul (to_integral x) cfg.lot_step))

  -- `calculate_lot_size`
  unfoldable pub calculate_lot_size : Request F → Outcome F
  unfolding clamp
  calculate_lot_size r =
      if refuses_account r
      then returned (n.literal 0)
      else if n.le (stop_distance r) (n.literal 0)
      then returned (n.literal 0)
      else divide (risk_amount r.account_balance cfg.risk_percent) (loss_per_lot r) >>= clamp
