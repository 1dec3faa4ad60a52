-- ===== src/Regime/Classifier.antt =====
-- regime/classifier.py: RuleBasedRegimeClassifier.decide.
pub mod Symmetry
use td_sandboxed.Base.{◌≡◌, Bool, true, false, not, ◌&&◌, ◌||◌, if◌then◌else◌}
use td_sandboxed.Base.Number.{Number}
use td_sandboxed.Regime.Model.{
  RegimeState, unknown, trending_up, trending_down, ranging, high_volatility, RegimeFeatures,
  RegimeThresholds,
}

module _ {F : Type 0} ⦃n : Number F⦄ where
  abbrev pub is_high_volatility : RegimeThresholds F → RegimeFeatures F → Bool
  is_high_volatility t f =
      n.le t.bb_width_high_pct f.bb_width_pct || n.le t.realized_vol_high f.realized_vol

  -- The branch for a strong ADX.
  unfoldable pub direction : RegimeThresholds F → RegimeFeatures F → RegimeState
  direction t f =
      if n.le t.ema_slope_trend_threshold f.ema_slope && n.lt f.minus_di f.plus_di
      then trending_up
      else if n.le f.ema_slope (n.neg t.ema_slope_trend_threshold) && n.lt f.plus_di f.minus_di
      then trending_down
      else unknown

  -- `decide`
  unfoldable pub decide : RegimeThresholds F → RegimeFeatures F → RegimeState
  decide t f =
      if not f.is_warmed_up
      then unknown
      else if is_high_volatility t f
      then high_volatility
      else if n.le t.adx_trend_min f.adx
      then direction t f
      else if n.lt f.bb_width_pct t.bb_width_low_pct
      then ranging
      else unknown
