-- ===== src/Rules/MaxDrawdown/Verdict.antt =====
-- What MaxDrawdownRule.validate answers, by either method of measuring.
use td_sandboxed.Base.{
  ◌≡◌, refl, sym, ◌∙◌, returned-injective, ◌⊎◌, inl, inr, Option, none, some, returned, arith, All,
  Bool-cases, ◌≤◌,
}
use td_sandboxed.Base.Number.{Number, IsOrdered, IsMonotone, IsNumber, AtMost, Below}
use td_sandboxed.Base.Comparison.{lt_of_not_le, divide_positive}
use td_sandboxed.Rules.Model.{RuleResult, Context, get_or, as_number, severity}
use td_sandboxed.Rules.Ladder.{IsHighest, descending-IsHighest}
use td_sandboxed.Rules.Grading.{Scale, IsGraded, IsIncreasing, IsGraded_mono}
use td_sandboxed.Rules.MaxDrawdown.{
  MaxDrawdownRule, Method, warning_metadata, no_drawdown, over_limit, graded, on_drawdown, validate,
  compute_drawdown_percent,
}

module _ {F : Type 0} ⦃n : Number F⦄ where
  abbrev pub scale : MaxDrawdownRule F → Scale F
  scale rule = record {
    limit = rule.threshold_percent;
    levels = rule.warning_at;
    usage = λ x. n.mul (n.div x rule.threshold_percent) (n.literal 100);
    Reports = λ usage level r. r.metadata ≡ warning_metadata rule usage level;
  }

  module _ (laws : IsOrdered F) (rule : MaxDrawdownRule F) (limit : IsNumber rule.threshold_percent)
      (levels : All IsNumber rule.warning_at) where
    zero-IsNumber : IsNumber (n.literal 0)
    zero-IsNumber = laws.literal_le 0 0 (omega arith)

    graded-IsGraded :
        (x : F) (found : Option F)
        → Below (n.literal 0) x
        → Below x rule.threshold_percent
        → IsHighest ((scale rule).usage x) rule.warning_at found
        → IsGraded (scale rule) x (graded rule ((scale rule).usage x) x found)
    graded-IsGraded x none positive under h = inr (positive, under, h)
    graded-IsGraded x (some level) positive under h = (positive, under, (level, h, refl))

    on_drawdown-IsGraded :
        (x : F)
        → IsNumber x
        → Below (n.literal 0) x
        → (r : RuleResult F) × (on_drawdown rule x ≡ returned r) × IsGraded (scale rule) x r
    unfolding on_drawdown
    on_drawdown-IsGraded x number positive = elim (Bool-cases (n.le rule.threshold_percent x)) [
      | inl over ↦ rw over (over_limit rule x, refl, (positive, over))
      | inr under ↦
          rw (under, divide_positive laws _ _ positive under)
            (
              graded rule ((scale rule).usage x) x _,
              refl,
              graded-IsGraded x _ positive (lt_of_not_le laws _ _ number limit under)
                  (descending-IsHighest laws _ rule.warning_at levels),
            )
    ]

    -- Under the laws of comparison and for numeric limits and levels, whichever method measures
    -- the drawdown, if it yields a number the maximum drawdown rule returns. It blocks with a
    -- positive drawdown at or above the limit, warns of a smaller one with the highest level that
    -- its share of the limit reaches, and allows otherwise. So a limit that is not positive blocks
    -- every positive drawdown, and no other.
    pub drawdown_validate-IsGraded :
        (context : Context F) (x : F)
        → compute_drawdown_percent rule.method context ≡ returned x
        → IsNumber x
        → (r : RuleResult F) × (validate rule context ≡ returned r) × IsGraded (scale rule) x r
    unfolding validate
    drawdown_validate-IsGraded context x read number =
        rw read (elim (Bool-cases (n.le x (n.literal 0))) [
          | inl small ↦ rw small (no_drawdown rule, refl, inl small)
          | inr large ↦
              rw large
                (on_drawdown-IsGraded x number (lt_of_not_le laws _ _ zero-IsNumber number large))
        ])

    -- For a numeric limit and levels, of two drawdowns in order for which the maximum drawdown
    -- rule returns, the deeper one is never answered more mildly, where comparison is ordered and
    -- the rounded operations are monotone.
    pub drawdown_validate_mono :
        (rounding : IsMonotone F) (mild deep : Context F) (x y : F) {r t : RuleResult F}
        → compute_drawdown_percent rule.method mild ≡ returned x
        → compute_drawdown_percent rule.method deep ≡ returned y
        → AtMost x y
        → validate rule mild ≡ returned r
        → validate rule deep ≡ returned t
        → severity r.action ≤ severity t.action
    drawdown_validate_mono rounding mild deep x y {r} {t} rx ry up er et =
        let (hx, hy) = laws.le_numbers x y up in
        let (r', er', vr) = drawdown_validate-IsGraded mild x rx hx in
        let (t', et', vt) = drawdown_validate-IsGraded deep y ry hy in
        let same = returned-injective _ _ (sym er ∙ er') in
        let same' = returned-injective _ _ (sym et ∙ et') in
        rw (same, same') (IsGraded_mono laws (scale rule) increasing x y r' t' _ _ up vr vt)
      where
        increasing : IsIncreasing (scale rule)
        increasing x y low up under =
            rounding.percent_mono _ _ (rounding.div_mono x y rule.threshold_percent low up under)

  -- Under the laws of comparison, with the balance-based method, numbers for both balances, and a
  -- starting balance that is not positive, or an equity at or above it, the maximum drawdown rule
  -- reports no drawdown and allows the trade, whatever the limit.
  pub balance_based_allows :
      (laws : IsOrdered F) (rule : MaxDrawdownRule F) (context : Context F) (initial equity : F)
      → rule.method ≡ Method.balance_based
      → as_number (get_or context.initial_balance (n.literal 0)) ≡ returned initial
      → as_number (get_or context.current_equity (n.literal 0)) ≡ returned equity
      → AtMost initial (n.literal 0) ⊎ AtMost initial equity
      → validate rule context ≡ returned (no_drawdown rule)
  unfolding validate
  balance_based_allows laws rule context initial equity m ri re why =
      ground (arith, laws.literal_le 0 0)
