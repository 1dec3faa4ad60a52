-- ===== src/Regime/Model.antt =====
-- regime/states.py, regime/features.py (RegimeFeatures) and config/firm_profile.py
-- (RegimeThresholds).
use td_sandboxed.Base.{
  ℕ, ◌≡◌, refl, sym, ap, ◌∙◌, Bool, true, not, ◌&&◌, ◌||◌, ◌==◌, arith, if◌then◌else◌,
}
use td_sandboxed.Base.Number.{Number}

pub data RegimeState : Type 0 where
  unknown trending_up trending_down ranging high_volatility : RegimeState

abbrev index : RegimeState → ℕ
index unknown = 0
index trending_up = 1
index trending_down = 2
index ranging = 3
index high_volatility = 4

abbrev state_at : ℕ → RegimeState
state_at n =
    if n == 0
    then unknown
    else if n == 1
    then trending_up
    else if n == 2
    then trending_down
    else if n == 3
    then ranging
    else high_volatility

state_at-index : (x : RegimeState) → state_at (index x) ≡ x
state_at-index unknown = refl
state_at-index trending_up = refl
state_at-index trending_down = refl
state_at-index ranging = refl
state_at-index high_volatility = refl

-- `==` of two states
unfoldable pub is_same : RegimeState → RegimeState → Bool
is_same x y = index x == index y

pub eq_of_same : (x y : RegimeState) → is_same x y ≡ true → x ≡ y
unfolding is_same
eq_of_same x y h =
    let indices : index x ≡ index y = ground (arith, h) in
    sym (state_at-index x) ∙ ap state_at indices ∙ state_at-index y

pub same_self : (x : RegimeState) → is_same x x ≡ true
unfolding is_same
same_self x = ground arith

pub record RegimeFeatures (F : Type 0) : Type 0 where
  pub adx : F
  pub plus_di : F
  pub minus_di : F
  pub bb_width_pct : F
  pub realized_vol : F
  pub ema_slope : F
  pub is_warmed_up : Bool

pub record RegimeThresholds (F : Type 0) : Type 0 where
  pub adx_trend_min : F
  pub adx_strong_trend : F
  pub bb_width_low_pct : F
  pub bb_width_high_pct : F
  pub realized_vol_high : F
  pub ema_slope_trend_threshold : F

module _ {F : Type 0} ⦃n : Number F⦄ where
  abbrev is_nan : F → Bool
  is_nan x = not (n.le x x)

  -- `RegimeFeatures.__post_init__`: whether the values are accepted
  unfoldable pub accepts_features : RegimeFeatures F → Bool
  accepts_features f = not (
      is_nan f.adx
      || is_nan f.plus_di
      || is_nan f.minus_di
      || is_nan f.bb_width_pct
      || is_nan f.realized_vol
      || is_nan f.ema_slope)

  abbrev is_outside_unit : F → Bool
  is_outside_unit x = not (n.le (n.literal 0) x && n.le x (n.literal 1))

  -- `RegimeThresholds.__post_init__`: whether the values are accepted
  unfoldable pub accepts_thresholds : RegimeThresholds F → Bool
  accepts_thresholds t = not (
      n.le t.adx_trend_min (n.literal 0)
      || n.le t.adx_strong_trend (n.literal 0)
      || n.lt t.adx_strong_trend t.adx_trend_min
      || is_outside_unit t.bb_width_low_pct
      || is_outside_unit t.bb_width_high_pct
      || n.le t.bb_width_high_pct t.bb_width_low_pct
      || n.le t.realized_vol_high (n.literal 0)
      || n.le t.ema_slope_trend_threshold (n.literal 0))
