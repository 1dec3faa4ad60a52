-- ===== src/Rules/PositionSize/Cap.antt =====
-- The cap that MaxPositionSizeRule.validate enforces.
use td_sandboxed.Base.{
  ◌≡◌, refl, ◌⊎◌, inl, inr, Option, none, some, returned, arith, All, Bool-cases,
}
use td_sandboxed.Base.Number.{Number, IsOrdered, IsNumber, AtMost, Below}
use td_sandboxed.Base.Comparison.{lt_of_not_le, le_of_not_lt}
use td_sandboxed.Rules.Model.{RuleAction, RuleResult, Context, get_or, as_number}
use td_sandboxed.Rules.Ladder.{IsHighest, descending-IsHighest}
use td_sandboxed.Rules.PositionSize.{
  MaxPositionSizeRule, calculate_effective_max, graded, usage_percent, check_size, validate,
}

module _ {F : Type 0} ⦃n : Number F⦄ where
  abbrev pub exposure : F → F → F
  exposure requested current = n.add (n.abs current) (n.abs requested)

  -- What an answer says of the order and of the exposure that it would bring.
  abbrev pub IsCapped : MaxPositionSizeRule F → F → F → F → RuleAction → Type 0
  IsCapped rule requested current effective RuleAction.block =
      Below (n.literal 0) requested
      × (Below effective requested ⊎ Below effective (exposure requested current))
  IsCapped rule requested current effective RuleAction.warn =
      Below (n.literal 0) requested
      × AtMost requested effective
      × AtMost (exposure requested current) effective
      × ((level : F) × IsHighest (usage_percent rule (exposure requested current) effective)
            rule.warning_at (some level))
  IsCapped rule requested current effective RuleAction.allow =
      AtMost requested (n.literal 0)
      ⊎ AtMost requested effective
        × AtMost (exposure requested current) effective
        × IsHighest (usage_percent rule (exposure requested current) effective) rule.warning_at none

  module _ (laws : IsOrdered F) (rule : MaxPositionSizeRule F)
      (levels : All IsNumber rule.warning_at) where
    graded-IsCapped :
        (requested current effective : F) (found : Option F)
        → Below (n.literal 0) requested
        → AtMost requested effective
        → AtMost (exposure requested current) effective
        → let usage = usage_percent rule (exposure requested current) effective in
          IsHighest usage rule.warning_at found
          → IsCapped rule requested current effective
              (graded rule usage (exposure requested current) effective found).action
    graded-IsCapped requested current effective none p a b h = inr (a, b, h)
    graded-IsCapped requested current effective (some level) p a b h = (p, a, b, (level, h))

    check_size-IsCapped :
        (requested current effective : F)
        → IsNumber requested
        → IsNumber effective
        → IsNumber (exposure requested current)
        → IsCapped rule requested current effective
            (check_size rule requested current effective).action
    unfolding check_size
    check_size-IsCapped requested current effective hr he ht =
        let total = exposure requested current in
        elim (Bool-cases (n.le requested (n.literal 0))) [
          | inl nothing ↦ rw nothing (inl nothing)
          | inr some_lots ↦
              let positive =
                lt_of_not_le laws _ _ (laws.literal_le 0 0 (omega arith)) hr some_lots in
              elim (Bool-cases (n.lt effective requested)) [
                | inl large ↦ rw (some_lots, large) (positive, inl large)
                | inr fits ↦ elim (Bool-cases (n.lt effective total)) [
                  | inl large ↦ rw (some_lots, fits, large) (positive, inr large)
                  | inr below ↦
                      rw (some_lots, fits, below)
                        (graded-IsCapped requested current effective _ positive
                          (le_of_not_lt laws _ _ hr he fits) (le_of_not_lt laws _ _ ht he below)
                          (descending-IsHighest laws _ rule.warning_at levels))
                ]
              ]
        ]

    -- Under the laws of comparison, for numeric warning levels and a numeric order, effective
    -- limit and exposure, the position size rule returns. It blocks a positive order that is above
    -- the effective limit or brings the exposure above it, warns of one within the limit whose
    -- usage reaches a level, and allows the others.
    pub validate-IsCapped :
        (context : Context F) (requested current effective : F)
        → as_number (get_or context.requested_lots (n.literal 0)) ≡ returned requested
        → as_number (get_or context.current_position_lots (n.literal 0)) ≡ returned current
        → calculate_effective_max rule context ≡ returned effective
        → IsNumber requested
        → IsNumber effective
        → IsNumber (exposure requested current)
        → (r : RuleResult F) × (validate rule context ≡ returned r)
          × IsCapped rule requested current effective r.action
    unfolding validate
    validate-IsCapped context requested current effective rr rc re hr he ht =
        rw (re, rc, rr) (_, refl, check_size-IsCapped requested current effective hr he ht)
