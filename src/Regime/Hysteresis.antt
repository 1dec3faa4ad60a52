-- ===== src/Regime/Hysteresis.antt =====
-- regime/hysteresis.py, and regime/decision.py for the decision that each bar emits.
pub mod Confirmation
pub mod Emission
use td_sandboxed.Base.{
  ℕ, suc, ◌≡◌, String, str_eq, Bool, true, false, not, Option, none, some, List, [], ◌∷◌, ◌&&◌,
  ◌||◌, ◌==◌, leb, if◌then◌else◌,
}
use td_sandboxed.Base.Number.{Number}
use td_sandboxed.Regime.Model.{
  RegimeState, unknown, trending_up, trending_down, ranging, high_volatility, is_same,
  RegimeFeatures, RegimeThresholds,
}

-- `_current`, `_pending` and `_bars_in_pending`
pub record Filter : Type 0 where
  pub current : RegimeState
  pub pending : Option RegimeState
  pub bars : ℕ

-- The state that `__init__` sets.
abbrev pub initial : Filter
initial = record { current = unknown; pending = none; bars = 0 }

-- The number of bars in a row that the candidate `raw` has now.
abbrev pub counted_bars : RegimeState → Option RegimeState → ℕ → ℕ
counted_bars raw none bars = 1
counted_bars raw (some candidate) bars = if is_same raw candidate then suc bars else 1

-- The state machine of `apply`, which comes before it computes the confidence.
unfoldable pub advance : (confirmation_bars : ℕ) → RegimeState → Filter → Filter
advance confirmation_bars raw f =
    let bars = counted_bars raw f.pending f.bars in
    if is_same raw f.current
    then record { current = f.current; pending = none; bars = 0 }
    else if leb confirmation_bars bars
    then record { current = raw; pending = none; bars = 0 }
    else record { current = f.current; pending = some raw; bars = bars }

-- `timestamp` is what its checks and readers see of it: whether it has a time zone, and its text.
pub record RegimeDecision (F : Type 0) : Type 0 where
  pub is_aware : Bool
  pub timestamp : String
  pub bar_type : String
  pub current_state : RegimeState
  pub raw_state : RegimeState
  pub pending_state : Option RegimeState
  pub bars_in_pending : ℕ
  pub features : RegimeFeatures F
  pub confidence : F

-- The checks of `pending_state` and `bars_in_pending` in `__post_init__`.
abbrev pub is_consistent : RegimeState → Option RegimeState → ℕ → Bool
is_consistent current none bars = bars == 0
is_consistent current (some candidate) bars = not (is_same candidate current) && leb 1 bars

module _ {F : Type 0} ⦃n : Number F⦄ where
  unfoldable pub clamp_unit : F → F
  clamp_unit x =
      if n.lt x (n.literal 0) then n.literal 0 else if n.lt (n.literal 1) x then n.literal 1 else x

  -- `max(x, y)`
  abbrev pub max_of : F → F → F
  max_of x y = if n.lt x y then y else x

  -- `_stability_factor`
  unfoldable pub stability_factor : (confirmation_bars : ℕ) → Filter → F
  stability_factor confirmation_bars f = elim f.pending [
    | none ↦ n.literal 1
    | some _ ↦
        clamp_unit (n.sub (n.literal 1) (n.div (n.literal f.bars) (n.literal confirmation_bars)))
  ]

  abbrev pub trending_margin : RegimeThresholds F → RegimeFeatures F → F
  trending_margin t f =
      let span = n.sub t.adx_strong_trend t.adx_trend_min in
      if n.le span (n.literal 0)
      then n.literal 1
      else clamp_unit (n.div (n.sub f.adx t.adx_trend_min) span)

  abbrev pub high_volatility_margin : RegimeThresholds F → RegimeFeatures F → F
  high_volatility_margin t f =
      let bb_span = n.sub (n.literal 1) t.bb_width_high_pct in
      let bb_margin =
        if n.lt (n.literal 0) bb_span
        then n.div (n.sub f.bb_width_pct t.bb_width_high_pct) bb_span
        else n.literal 1 in
      let rv_margin =
        if n.lt (n.literal 0) t.realized_vol_high
        then n.div (n.sub f.realized_vol t.realized_vol_high) t.realized_vol_high
        else n.literal 1 in
      clamp_unit (max_of bb_margin rv_margin)

  abbrev pub ranging_margin : RegimeThresholds F → RegimeFeatures F → F
  ranging_margin t f =
      if n.le t.bb_width_low_pct (n.literal 0)
      then n.literal 1
      else clamp_unit (n.sub (n.literal 1) (n.div f.bb_width_pct t.bb_width_low_pct))

  -- `_state_margin`
  unfoldable pub state_margin : RegimeThresholds F → RegimeState → RegimeFeatures F → F
  state_margin t trending_up f = trending_margin t f
  state_margin t trending_down f = trending_margin t f
  state_margin t high_volatility f = high_volatility_margin t f
  state_margin t ranging f = ranging_margin t f
  state_margin t unknown f = n.literal 0

  -- `_compute_confidence`
  unfoldable pub compute_confidence :
      (confirmation_bars : ℕ) → RegimeThresholds F → Filter → RegimeFeatures F → F
  compute_confidence confirmation_bars t filter f =
      if is_same filter.current unknown
      then n.literal 0
      else clamp_unit
          (n.mul (stability_factor confirmation_bars filter) (state_margin t filter.current f))

  -- `RegimeDecision.__post_init__`: whether the values are accepted. A count of bars is a natural
  -- number here.
  unfoldable pub accepts : RegimeDecision F → Bool
  accepts d =
      not (str_eq d.bar_type "")
      && d.is_aware
      && is_consistent d.current_state d.pending_state d.bars_in_pending
      && n.le (n.literal 0) d.confidence
      && n.le d.confidence (n.literal 1)

  -- `apply`: the filter after the bar, and the decision, or none where its construction raises.
  unfoldable pub apply :
      (bar_type : String)
      → (confirmation_bars : ℕ) → RegimeThresholds F
      → Filter
      → RegimeState
      → (is_aware : Bool) → (ts : String) → RegimeFeatures F
      → Filter × Option (RegimeDecision F)
  apply bar_type confirmation_bars t filter raw is_aware ts features =
      let next = advance confirmation_bars raw filter in
      let decision : RegimeDecision F = record {
        is_aware = is_aware;
        timestamp = ts;
        bar_type = bar_type;
        current_state = next.current;
        raw_state = raw;
        pending_state = next.pending;
        bars_in_pending = next.bars;
        features = features;
        confidence = compute_confidence confirmation_bars t next features;
      } in
      (next, if accepts decision then some decision else none)
