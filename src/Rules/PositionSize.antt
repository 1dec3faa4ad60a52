-- ===== src/Rules/PositionSize.antt =====
-- rules/types/position.py: class MaxPositionSizeRule.
pub mod Cap
use td_sandboxed.Base.{
  String, str_eq, Bool, true, false, ◌&&◌, Option, none, some, List, [], ◌∷◌, Outcome, returned,
  raised, ◌>>=◌, if◌then◌else◌,
}
use td_sandboxed.Base.Number.{Number, divide}
use td_sandboxed.Rules.Model.{
  RuleAction, Value, Message, Meta, RuleResult, Context, get_or, as_number,
}
use td_sandboxed.Rules.Ladder.{ascending, descending, first_reached}

abbrev pub rule_type : String
rule_type = "max_position_size"

pub record MaxPositionSizeRule (F : Type 0) : Type 0 where
  pub max_lots : F
  pub scaling : Option String
  pub warning_at : List F

-- A scaling mode that is not supported falls back to the fixed limit.
abbrev pub known_scaling : Option String → Option String
known_scaling none = none
known_scaling (some s) =
    if str_eq s "fixed" then some s else if str_eq s "per_10k_balance" then some s else none

-- `self.scaling == "per_10k_balance"`
abbrev pub is_scaled : Option String → Bool
is_scaled none = false
is_scaled (some s) = str_eq s "per_10k_balance"

abbrev scaling_label : Option String → String
scaling_label none = "None"
scaling_label (some s) = s

module _ {F : Type 0} ⦃n : Number F⦄ where
  abbrev default_warnings : Option (List F) → List F
  default_warnings none = n.literal 70 ∷ n.literal 80 ∷ n.literal 90 ∷ []
  default_warnings (some levels) = levels

  -- `__init__`, for a `max_lots` that is a float already
  unfoldable pub init : F → Option String → Option (List F) → MaxPositionSizeRule F
  unfolding ascending
  init max_lots scaling warning_at = record {
    max_lots = max_lots;
    scaling = known_scaling scaling;
    warning_at = ascending (default_warnings warning_at);
  }

  module _ (rule : MaxPositionSizeRule F) where
    -- `_calculate_effective_max`
    abbrev pub calculate_effective_max : Context F → Outcome F
    calculate_effective_max context =
        if is_scaled rule.scaling
        then (do
          balance ← as_number (get_or context.account_balance (n.literal 0))
          if n.le balance (n.literal 0)
              then returned rule.max_lots
              else returned (n.mul (n.div balance (n.literal 10000)) rule.max_lots))
        else returned rule.max_lots

    abbrev plain : F → F → RuleResult F
    plain current effective = record {
      action = RuleAction.allow;
      message = none;
      metadata = [];
      current_value = some current;
      threshold_value = some effective;
    }

    abbrev order_too_large : F → F → RuleResult F
    order_too_large requested effective = record {
      action = RuleAction.block;
      message = some (Message.exceeds requested effective);
      metadata =
          ("rule_type", Meta.label rule_type)
          ∷ ("requested_lots", Meta.number requested)
          ∷ ("effective_max", Meta.number effective)
          ∷ ("scaling", Meta.label (scaling_label rule.scaling))
          ∷ [];
      current_value = some requested;
      threshold_value = some effective;
    }

    abbrev exposure_too_large : F → F → F → F → RuleResult F
    exposure_too_large requested current total effective = record {
      action = RuleAction.block;
      message = some (Message.exceeds total effective);
      metadata =
          ("rule_type", Meta.label rule_type)
          ∷ ("requested_lots", Meta.number requested)
          ∷ ("current_position_lots", Meta.number current)
          ∷ ("total_exposure", Meta.number total)
          ∷ ("effective_max", Meta.number effective)
          ∷ ("scaling", Meta.label (scaling_label rule.scaling))
          ∷ [];
      current_value = some total;
      threshold_value = some effective;
    }

    abbrev pub usage_percent : F → F → F
    usage_percent total effective =
        if n.lt (n.literal 0) effective
        then n.mul (n.div total effective) (n.literal 100)
        else n.literal 100

    -- The end of `validate`: the warning loop and the final ALLOW.
    abbrev graded : F → F → F → Option F → RuleResult F
    graded usage total effective (some level) = record {
      action = RuleAction.warn;
      message = some (Message.approaching usage effective total);
      metadata =
          ("rule_type", Meta.label rule_type)
          ∷ ("warning_threshold", Meta.number level)
          ∷ ("usage_percent", Meta.number usage)
          ∷ [];
      current_value = some total;
      threshold_value = some effective;
    }
    graded usage total effective none = plain total effective

    -- `validate` once the three numbers are read
    unfoldable pub check_size : F → F → F → RuleResult F
    check_size requested current effective =
        let total = n.add (n.abs current) (n.abs requested) in
        let usage = usage_percent total effective in
        if n.le requested (n.literal 0)
        then plain total effective
        else if n.lt effective requested
        then order_too_large requested effective
        else if n.lt effective total
        then exposure_too_large requested current total effective
        else graded usage total effective (first_reached usage (descending rule.warning_at))

    unfoldable pub validate : Context F → Outcome (RuleResult F)
    unfolding check_size
    validate context = do
      effective ← calculate_effective_max context
      current ← as_number (get_or context.current_position_lots (n.literal 0))
      requested ← as_number (get_or context.requested_lots (n.literal 0))
      returned (check_size requested current effective)

    unfoldable pub get_current_value : Context F → Outcome F
    get_current_value context = do
      current ← as_number (get_or context.current_position_lots (n.literal 0))
      requested ← as_number (get_or context.requested_lots (n.literal 0))
      returned (n.add (n.abs current) (n.abs requested))
