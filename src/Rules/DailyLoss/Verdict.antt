-- ===== src/Rules/DailyLoss/Verdict.antt =====
-- What DailyLossLimitRule.validate answers, for every daily result.
use td_sandboxed.Base.{
  ◌≡◌, refl, sym, ◌∙◌, returned-injective, inl, inr, Option, none, some, returned, arith, All,
  Bool-cases, ◌≤◌, if◌then◌else◌,
}
use td_sandboxed.Base.Number.{Number, IsOrdered, IsMonotone, IsNumber, AtMost, Below}
use td_sandboxed.Base.Comparison.{
  le_of_lt, lt_of_not_le, not_le_of_lt, divide_positive, lt_of_le_lt,
}
use td_sandboxed.Rules.Model.{RuleResult, Context, get_or, as_number, severity}
use td_sandboxed.Rules.Ladder.{IsHighest, descending-IsHighest}
use td_sandboxed.Rules.Grading.{Scale, IsGraded, IsIncreasing, IsGraded_mono}
use td_sandboxed.Rules.DailyLoss.{
  DailyLossLimitRule, warning_metadata, no_loss, over_limit, graded, on_loss, validate,
}

module _ {F : Type 0} ⦃n : Number F⦄ where
  -- The loss that a daily result amounts to, as a positive percentage.
  abbrev pub loss_of : F → F
  loss_of pnl = if n.le (n.literal 0) pnl then n.literal 0 else n.abs pnl

  abbrev pub scale : DailyLossLimitRule F → Scale F
  scale rule = record {
    limit = rule.threshold_percent;
    levels = rule.warning_at;
    usage = λ loss. n.mul (n.div loss rule.threshold_percent) (n.literal 100);
    Reports = λ usage level r. r.metadata ≡ warning_metadata rule usage level;
  }

  -- `v` is what the rule reads as today's result.
  abbrev pub Reads : Context F → F → Type 0
  Reads context pnl = as_number (get_or context.daily_pnl_percent (n.literal 0)) ≡ returned pnl

  module _ (laws : IsOrdered F) (rounding : IsMonotone F) (rule : DailyLossLimitRule F)
      (limit : IsNumber rule.threshold_percent) (levels : All IsNumber rule.warning_at) where
    zero-IsNumber : IsNumber (n.literal 0)
    zero-IsNumber = laws.literal_le 0 0 (omega arith)

    graded-IsGraded :
        (loss : F) (found : Option F)
        → Below (n.literal 0) loss
        → Below loss rule.threshold_percent
        → IsHighest ((scale rule).usage loss) rule.warning_at found
        → IsGraded (scale rule) loss (graded rule ((scale rule).usage loss) loss found)
    graded-IsGraded loss none positive under h = inr (positive, under, h)
    graded-IsGraded loss (some level) positive under h = (positive, under, (level, h, refl))

    on_loss-IsGraded :
        (pnl : F)
        → Below pnl (n.literal 0)
        → (r : RuleResult F) × (on_loss rule pnl (n.abs pnl) ≡ returned r)
          × IsGraded (scale rule) (n.abs pnl) r
    unfolding on_loss
    on_loss-IsGraded pnl neg =
        let positive = rounding.abs_pos pnl neg in
        let size = (laws.lt_numbers _ _ positive).1 in
        elim (Bool-cases (n.le rule.threshold_percent (n.abs pnl))) [
          | inl over ↦ rw over (over_limit rule pnl (n.abs pnl), refl, (positive, over))
          | inr under ↦
              rw (under, divide_positive laws _ _ positive under)
                (
                  graded rule ((scale rule).usage (n.abs pnl)) (n.abs pnl) _,
                  refl,
                  graded-IsGraded (n.abs pnl) _ positive (lt_of_not_le laws _ _ size limit under)
                      (descending-IsHighest laws _ rule.warning_at levels),
                )
        ]

    -- For numeric limits and levels and a numeric daily result, the daily loss rule returns. It
    -- blocks with a loss at or above the limit, warns of a smaller one with the highest warning
    -- level that its share of the limit reaches, and allows otherwise; comparison is ordered and
    -- rounded operations are monotone.
    pub loss_validate-IsGraded :
        (context : Context F) (pnl : F)
        → Reads context pnl
        → IsNumber pnl
        → (r : RuleResult F) × (validate rule context ≡ returned r)
          × IsGraded (scale rule) (loss_of pnl) r
    unfolding validate
    loss_validate-IsGraded context pnl read number =
        rw read (elim (Bool-cases (n.le (n.literal 0) pnl)) [
          | inl profit ↦ rw profit (no_loss rule, refl, inl zero-IsNumber)
          | inr loss ↦
              rw loss (on_loss-IsGraded pnl (lt_of_not_le laws _ _ number zero-IsNumber loss))
        ])

    loss_of_antitone :
        (p q : F) → IsNumber p → IsNumber q → AtMost p q → AtMost (loss_of q) (loss_of p)
    loss_of_antitone p q hp hq up = elim (Bool-cases (n.le (n.literal 0) q)) [
      | inl gain ↦ elim (Bool-cases (n.le (n.literal 0) p)) [
        | inl both ↦ rw (gain, both) zero-IsNumber
        | inr lost ↦
            rw (gain, lost)
              (le_of_lt laws _ _ (rounding.abs_pos p (lt_of_not_le laws _ _ hp zero-IsNumber lost)))
      ]
      | inr lost ↦
          let below = lt_of_not_le laws _ _ hq zero-IsNumber lost in
          let also = not_le_of_lt laws _ _ (lt_of_le_lt laws _ _ _ up below) in
          rw (lost, also) (rounding.abs_antitone p q up below)
    ]

    scale-IsIncreasing : IsIncreasing (scale rule)
    scale-IsIncreasing x y low up under =
        rounding.percent_mono _ _ (rounding.div_mono x y rule.threshold_percent low up under)

    -- For a numeric limit and levels, of two numeric daily results for which the daily loss rule
    -- returns, the worse one is never answered more mildly, where comparison is ordered and the
    -- rounded operations are monotone.
    pub loss_validate_mono :
        (bad good : Context F) (p q : F) {r t : RuleResult F}
        → Reads bad p
        → Reads good q
        → IsNumber p
        → IsNumber q
        → AtMost p q
        → validate rule bad ≡ returned r
        → validate rule good ≡ returned t
        → severity t.action ≤ severity r.action
    loss_validate_mono bad good p q {r} {t} rp rq hp hq up er et =
        let (r', er', vr) = loss_validate-IsGraded bad p rp hp in
        let (t', et', vt) = loss_validate-IsGraded good q rq hq in
        let same = returned-injective _ _ (sym er ∙ er') in
        let same' = returned-injective _ _ (sym et ∙ et') in
        rw (same, same')
          (IsGraded_mono laws (scale rule) scale-IsIncreasing (loss_of q) (loss_of p) t' r' _ _
            (loss_of_antitone p q hp hq up) vt vr)
