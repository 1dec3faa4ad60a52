-- ===== src/Regime/Hysteresis/Emission.antt =====
-- The decision that each bar emits passes the checks of its own constructor.
use td_sandboxed.Base.{
  ℕ, ◌≡◌, refl, inl, inr, true, false, String, str_eq, Option, none, some, arith, Bool-cases,
}
use td_sandboxed.Base.Number.{Number, IsOrdered, IsNumber, AtMost}
use td_sandboxed.Base.Comparison.{le_of_not_lt}
use td_sandboxed.Regime.Model.{RegimeState, unknown, is_same, RegimeFeatures, RegimeThresholds}
use td_sandboxed.Regime.Hysteresis.{
  Filter, advance, RegimeDecision, clamp_unit, stability_factor, state_margin, compute_confidence,
  accepts, is_consistent, apply,
}
use td_sandboxed.Regime.Hysteresis.Confirmation.{IsPending, advance-IsSettled}

settled_consistent :
    (confirmation_bars : ℕ) (current : RegimeState) (pending : Option RegimeState) (bars : ℕ)
    → IsPending confirmation_bars current pending bars
    → is_consistent current pending bars ≡ true
settled_consistent confirmation_bars current none bars h = ground (arith, h)
settled_consistent confirmation_bars current (some candidate) bars h = ground (arith, h.0, h.1)

module _ {F : Type 0} ⦃n : Number F⦄ where
  -- The product that the confidence is clamped from is not NaN.
  abbrev pub IsMeasured : ℕ → RegimeThresholds F → Filter → RegimeFeatures F → Type 0
  IsMeasured confirmation_bars t filter f =
      IsNumber (n.mul (stability_factor confirmation_bars filter) (state_margin t filter.current f))

  -- What a bar emits: the filter's state after it, and a confidence between 0 and 1.
  abbrev pub IsEmitted :
      RegimeState → Filter → RegimeFeatures F → Option (RegimeDecision F) → Type 0
  IsEmitted raw next features none = ⊥
  IsEmitted raw next features (some d) =
      (d.current_state ≡ next.current)
      × (d.raw_state ≡ raw)
      × (d.pending_state ≡ next.pending)
      × (d.bars_in_pending ≡ next.bars)
      × (d.features ≡ features)
      × AtMost (n.literal 0) d.confidence
      × AtMost d.confidence (n.literal 1)

  module _ (laws : IsOrdered F) where
    clamp-bounds :
        (x : F)
        → IsNumber x
        → AtMost (n.literal 0) (clamp_unit x) × AtMost (clamp_unit x) (n.literal 1)
    unfolding clamp_unit
    clamp-bounds x number =
        let low = laws.literal_le 0 1 (omega arith) in
        let zero_ = (laws.le_numbers (n.literal 0) (n.literal 1) low).0 in
        let one_ = (laws.le_numbers (n.literal 0) (n.literal 1) low).1 in
        elim (Bool-cases (n.lt x (n.literal 0))) [
          | inl e ↦ rw e ((zero_, low))
          | inr e ↦ elim (Bool-cases (n.lt (n.literal 1) x)) [
            | inl e' ↦ rw (e, e') ((low, one_))
            | inr e' ↦
                rw (e, e')
                  ((
                    le_of_not_lt laws (n.literal 0) x zero_ number e,
                    le_of_not_lt laws x (n.literal 1) number one_ e',
                  ))
          ]
        ]

    confidence-bounds :
        (confirmation_bars : ℕ) (t : RegimeThresholds F) (filter : Filter) (f : RegimeFeatures F)
        → IsMeasured confirmation_bars t filter f
        → AtMost (n.literal 0) (compute_confidence confirmation_bars t filter f)
          × AtMost (compute_confidence confirmation_bars t filter f) (n.literal 1)
    unfolding compute_confidence
    confidence-bounds confirmation_bars t filter f number =
        let low = laws.literal_le 0 1 (omega arith) in
        elim (Bool-cases (is_same filter.current unknown)) [
          | inl e ↦ rw e (((laws.le_numbers (n.literal 0) (n.literal 1) low).0, low))
          | inr e ↦ rw e (clamp-bounds _ number)
        ]

    -- Under the laws of comparison, a bar always emits a decision that passes the checks of
    -- RegimeDecision, with the new state of the filter and a confidence between 0 and 1, if the
    -- bar type has a name, the time has a zone and the product that the confidence is clamped from
    -- is not NaN.
    pub apply-IsEmitted :
        (bar_type : String) (confirmation_bars : ℕ) (t : RegimeThresholds F) (filter : Filter)
        (raw : RegimeState) (ts : String) (features : RegimeFeatures F)
        → str_eq bar_type "" ≡ false
        → IsMeasured confirmation_bars t (advance confirmation_bars raw filter) features
        → IsEmitted raw
            (advance confirmation_bars raw filter)
            features
            (apply bar_type confirmation_bars t filter raw true ts features).1
    unfolding apply accepts
    apply-IsEmitted bar_type confirmation_bars t filter raw ts features named number =
        let next = advance confirmation_bars raw filter in
        let bounds = confidence-bounds confirmation_bars t next features number in
        rw
          (
            named,
            settled_consistent confirmation_bars next.current next.pending next.bars
                (advance-IsSettled confirmation_bars raw filter),
            bounds.0,
            bounds.1,
          )
          ((refl, refl, refl, refl, refl, bounds.0, bounds.1))
