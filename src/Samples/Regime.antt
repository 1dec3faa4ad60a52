-- ===== src/Samples/Regime.antt =====
-- The regime of a rising and of a volatile market.
use td_sandboxed.Base.{◌≡◌, ◌≢◌, refl, true, false, List, [], ◌∷◌, arith, String}
use td_sandboxed.Base.Int.{ℤ, pos, negsuc}
use td_sandboxed.Samples.Fixed.{fixed, fixed-IsOrdered, fixed-IsNegating}
use td_sandboxed.Regime.Model.{
  RegimeState, unknown, trending_up, trending_down, is_same, RegimeFeatures, RegimeThresholds,
}
use td_sandboxed.Regime.Classifier.{decide}
use td_sandboxed.Regime.Classifier.Symmetry.{mirrored, opposite, decide-mirrored}
use td_sandboxed.Regime.Hysteresis.{Filter, initial, advance, apply}
use td_sandboxed.Regime.Hysteresis.Confirmation.{
  after_bars, IsRun, after_bars-change, after_bars-confirms,
}
use td_sandboxed.Regime.Hysteresis.Emission.{IsEmitted, apply-IsEmitted}

abbrev thresholds : RegimeThresholds ℤ
thresholds = record {
  adx_trend_min = pos 2500;
  adx_strong_trend = pos 4000;
  bb_width_low_pct = pos 20;
  bb_width_high_pct = pos 80;
  realized_vol_high = pos 3;
  ema_slope_trend_threshold = pos 2;
}

abbrev rising : RegimeFeatures ℤ
rising = record {
  adx = pos 3000;
  plus_di = pos 2800;
  minus_di = pos 1200;
  bb_width_pct = pos 50;
  realized_vol = pos 1;
  ema_slope = pos 4;
  is_warmed_up = true;
}

decide-mirrored_example : decide thresholds (mirrored rising) ≡ opposite (decide thresholds rising)
decide-mirrored_example = decide-mirrored fixed-IsOrdered fixed-IsNegating thresholds rising

abbrev rally : List RegimeState
rally = trending_up ∷ trending_up ∷ trending_down ∷ []

flips : (after_bars 2 rally).current ≢ (after_bars 2 (trending_up ∷ trending_down ∷ [])).current
unfolding after_bars advance is_same
flips e = cc e

after_bars-change_example : IsRun trending_up 2 rally
after_bars-change_example = after_bars-change 2 trending_up (trending_up ∷ trending_down ∷ []) flips

after_bars-confirms_example : (after_bars 2 rally).current ≡ trending_up
unfolding IsRun
after_bars-confirms_example =
    after_bars-confirms 2 trending_up rally (omega arith) (refl, (refl, tt))

apply-IsEmitted_example :
    IsEmitted trending_up
      (advance 2 trending_up initial)
      rising
      (apply "XAUUSD-5-MINUTE" 2 thresholds initial trending_up true "2026-01-05" rising).1
unfolding td_sandboxed.Regime.Hysteresis.stability_factor advance td_sandboxed.Regime.Model.is_same
    td_sandboxed.Regime.Hysteresis.clamp_unit td_sandboxed.Base.Int.◌-ℤ◌
    td_sandboxed.Regime.Hysteresis.state_margin
apply-IsEmitted_example =
    apply-IsEmitted fixed-IsOrdered "XAUUSD-5-MINUTE" 2 thresholds initial trending_up "2026-01-05"
      rising refl refl
