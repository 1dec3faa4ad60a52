-- ===== src/Rules/Targets.antt =====
-- rules/types/targets.py: the informational rules ProfitTargetRule, MinTradingDaysRule and
-- WeeklyTargetRule.
pub mod Advice
use td_sandboxed.Base.{
  String, Bool, true, false, Option, none, some, List, [], ◌∷◌, Outcome, returned, raised, ◌>>=◌,
  if◌then◌else◌,
}
use td_sandboxed.Base.Int.{ℤ, pos, ◌-ℤ◌, leb_ℤ}
use td_sandboxed.Base.Number.{Number}
use td_sandboxed.Rules.Model.{
  RuleAction, Value, Message, Meta, RuleResult, Context, get_or, as_number, to_float, float,
}

abbrev pub profit_type : String
profit_type = "profit_target"

abbrev pub weekly_type : String
weekly_type = "weekly_target"

module _ {F : Type 0} ⦃n : Number F⦄ where
  -- ProfitTargetRule, given by its `threshold_percent`
  abbrev profit_progress : F → F → F
  profit_progress threshold pnl =
      if n.lt (n.literal 0) threshold
      then n.mul (n.div pnl threshold) (n.literal 100)
      else n.literal 0

  abbrev profit_reached : F → F → RuleResult F
  profit_reached threshold pnl = record {
    action = RuleAction.warn;
    message = some (Message.target_met pnl threshold);
    metadata = ("rule_type", Meta.label profit_type) ∷ ("target_met", Meta.flag true) ∷ [];
    current_value = some pnl;
    threshold_value = some threshold;
  }

  abbrev profit_missing : F → F → RuleResult F
  profit_missing threshold pnl = record {
    action = RuleAction.allow;
    message = some (Message.progress pnl threshold (profit_progress threshold pnl));
    metadata =
        ("rule_type", Meta.label profit_type)
        ∷ ("target_met", Meta.flag false)
        ∷ ("progress_percent", Meta.number (profit_progress threshold pnl))
        ∷ ("remaining_percent", Meta.number (n.sub threshold pnl))
        ∷ [];
    current_value = some pnl;
    threshold_value = some threshold;
  }

  unfoldable pub profit_validate : F → Context F → Outcome (RuleResult F)
  profit_validate threshold context = do
    pnl ← as_number (get_or context.total_pnl_percent (n.literal 0))
    returned
        (if n.le threshold pnl then profit_reached threshold pnl else profit_missing threshold pnl)

  -- `WeeklyTargetRule._coerce`: what is no number counts as 0.
  abbrev number_or_zero : Outcome F → F
  number_or_zero (returned x) = x
  number_or_zero raised = n.literal 0

  abbrev pub weekly_coerce : Value F → F
  weekly_coerce v = number_or_zero (to_float v)

  abbrev weekly_result : F → F → Bool → RuleAction → Option (Message F) → RuleResult F
  weekly_result threshold pnl met action message = record {
    action = action;
    message = message;
    metadata =
        ("rule_type", Meta.label weekly_type)
        ∷ ("weekly_pnl_percent", Meta.number pnl)
        ∷ ("target_met", Meta.flag met)
        ∷ [];
    current_value = some pnl;
    threshold_value = some threshold;
  }

  -- WeeklyTargetRule, given by its `threshold_percent`
  unfoldable pub weekly_validate : F → Context F → Outcome (RuleResult F)
  weekly_validate threshold context =
      let pnl = weekly_coerce (get_or context.weekly_pnl_percent (n.literal 0)) in
      returned (
        if n.le threshold pnl
        then weekly_result threshold pnl true RuleAction.warn
            (some (Message.target_met pnl threshold))
        else weekly_result threshold pnl false RuleAction.allow none)

-- The entry `trading_days_count`: an `int`, a `float` given by its `int()`, or something else.
pub data DayCount : Type 0 where
  whole : ℤ → DayCount
  fractional : ℤ → DayCount
  not_a_count : DayCount

-- `context.get("trading_days_count", 0)` and the conversion of a float
abbrev pub days_of : Option DayCount → Outcome ℤ
days_of none = returned (pos 0)
days_of (some (whole k)) = returned k
days_of (some (fractional k)) = returned k
days_of (some not_a_count) = raised

pub record DaysResult : Type 0 where
  pub action : RuleAction
  pub requirement_met : Bool
  pub remaining_days : Option ℤ
  pub current_value : ℤ
  pub threshold_value : ℤ

abbrev days_reached : ℤ → ℤ → DaysResult
days_reached required days = record {
  action = RuleAction.warn;
  requirement_met = true;
  remaining_days = none;
  current_value = days;
  threshold_value = required;
}

abbrev days_missing : ℤ → ℤ → DaysResult
days_missing required days = record {
  action = RuleAction.allow;
  requirement_met = false;
  remaining_days = some (required -ℤ days);
  current_value = days;
  threshold_value = required;
}

-- MinTradingDaysRule, given by its `required_days`
unfoldable pub days_validate : ℤ → Option DayCount → Outcome DaysResult
days_validate required count = do
  days ← days_of count
  returned (if leb_ℤ required days then days_reached required days else days_missing required days)
