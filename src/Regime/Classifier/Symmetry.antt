-- ===== src/Regime/Classifier/Symmetry.antt =====
-- The classifier treats rising and falling markets alike.
use td_sandboxed.Base.{◌≡◌, refl, false, arith}
use td_sandboxed.Base.Number.{Number, IsOrdered, Below}
use td_sandboxed.Base.Comparison.{le_of_lt, not_lt_of_le}
use td_sandboxed.Regime.Model.{
  RegimeState, trending_up, trending_down, RegimeFeatures, RegimeThresholds,
}
use td_sandboxed.Regime.Classifier.{direction, decide}

-- The state of the mirrored market.
abbrev pub opposite : RegimeState → RegimeState
opposite trending_up = trending_down
opposite trending_down = trending_up
opposite state = state

-- Negation turns the order of floats around, and is its own inverse.
pub record IsNegating (F : Type 0) ⦃n : Number F⦄ : Type 0 where
  pub le_neg : (x y : F) → n.le x (n.neg y) ≡ n.le y (n.neg x)
  pub neg_neg : (x : F) → n.neg (n.neg x) ≡ x

module _ {F : Type 0} ⦃n : Number F⦄ where
  -- Features of the mirrored market: the slope turned around, the directional indices swapped.
  abbrev pub mirrored : RegimeFeatures F → RegimeFeatures F
  mirrored f = record {
    adx = f.adx;
    plus_di = f.minus_di;
    minus_di = f.plus_di;
    bb_width_pct = f.bb_width_pct;
    realized_vol = f.realized_vol;
    ema_slope = n.neg f.ema_slope;
    is_warmed_up = f.is_warmed_up;
  }

  module _ (laws : IsOrdered F) (negation : IsNegating F) where
    not_both : (x y : F) → Below x y → n.lt y x ≡ false
    not_both x y h = not_lt_of_le laws x y (le_of_lt laws x y h)

    falls : (t s : F) → n.le (n.neg s) (n.neg t) ≡ n.le t s
    falls t s = rw (negation.le_neg (n.neg s) t, negation.neg_neg s) refl

    direction-mirrored :
        (t : RegimeThresholds F) (f : RegimeFeatures F)
        → direction t (mirrored f) ≡ opposite (direction t f)
    unfolding direction
    direction-mirrored t f =
        rw
          (
            negation.le_neg t.ema_slope_trend_threshold f.ema_slope,
            falls t.ema_slope_trend_threshold f.ema_slope,
          )
          (ground (arith, not_both f.minus_di f.plus_di))

    -- Features with the slope negated and the directional indices swapped get the mirrored regime,
    -- with rising and falling trends exchanged, where comparison is ordered and negation reverses
    -- it.
    pub decide-mirrored :
        (t : RegimeThresholds F) (f : RegimeFeatures F)
        → decide t (mirrored f) ≡ opposite (decide t f)
    unfolding decide
    decide-mirrored t f = ground (arith, direction-mirrored t f)
