-- ===== src/Rules/DailyLoss.antt =====
-- rules/types/drawdown.py: class DailyLossLimitRule.
pub mod Verdict
use td_sandboxed.Base.{
  String, Bool, true, false, Option, none, some, List, [], ◌∷◌, Outcome, returned, raised, ◌>>=◌,
  if◌then◌else◌,
}
use td_sandboxed.Base.Number.{Number, divide}
use td_sandboxed.Rules.Model.{
  RuleAction, Value, Message, Meta, RuleResult, Context, get_or, as_number,
}
use td_sandboxed.Rules.Ladder.{ascending, descending, first_reached}

abbrev pub rule_type : String
rule_type = "daily_loss_limit"

pub record DailyLossLimitRule (F : Type 0) : Type 0 where
  pub threshold_percent : F
  pub reset_time : String
  pub timezone : String
  pub warning_at : List F

module _ {F : Type 0} ⦃n : Number F⦄ where
  abbrev default_warnings : Option (List F) → List F
  default_warnings none = n.literal 70 ∷ n.literal 80 ∷ n.literal 90 ∷ []
  default_warnings (some levels) = levels

  -- `__init__`, for a `threshold_percent` that is a float already
  unfoldable pub init : F → String → String → Option (List F) → DailyLossLimitRule F
  unfolding ascending
  init threshold reset_time timezone warning_at = record {
    threshold_percent = threshold;
    reset_time = reset_time;
    timezone = timezone;
    warning_at = ascending (default_warnings warning_at);
  }

  module _ (rule : DailyLossLimitRule F) where
    abbrev no_loss : RuleResult F
    no_loss = record {
      action = RuleAction.allow;
      message = none;
      metadata = [];
      current_value = some (n.literal 0);
      threshold_value = some rule.threshold_percent;
    }

    abbrev over_limit : F → F → RuleResult F
    over_limit pnl loss = record {
      action = RuleAction.block;
      message = some (Message.exceeds loss rule.threshold_percent);
      metadata = ("rule_type", Meta.label rule_type) ∷ ("daily_pnl_percent", Meta.number pnl) ∷ [];
      current_value = some loss;
      threshold_value = some rule.threshold_percent;
    }

    abbrev pub warning_metadata : F → F → List (String × Meta F)
    warning_metadata usage level =
        ("rule_type", Meta.label rule_type)
        ∷ ("warning_threshold", Meta.number level)
        ∷ ("usage_percent", Meta.number usage)
        ∷ []

    -- The end of `validate`: the warning loop and the final ALLOW.
    abbrev graded : F → F → Option F → RuleResult F
    graded usage loss (some level) = record {
      action = RuleAction.warn;
      message = some (Message.approaching usage rule.threshold_percent loss);
      metadata = warning_metadata usage level;
      current_value = some loss;
      threshold_value = some rule.threshold_percent;
    }
    graded usage loss none = record {
      action = RuleAction.allow;
      message = none;
      metadata = [];
      current_value = some loss;
      threshold_value = some rule.threshold_percent;
    }

    -- `validate` below the test for a profit
    below_limit : F → Outcome (RuleResult F)
    below_limit loss = do
      ratio ← divide loss rule.threshold_percent
      let usage = n.mul ratio (n.literal 100)
      returned (graded usage loss (first_reached usage (descending rule.warning_at)))

    on_loss : F → F → Outcome (RuleResult F)
    unfolding below_limit
    on_loss pnl loss =
        if n.le rule.threshold_percent loss
        then returned (over_limit pnl loss)
        else below_limit loss

    unfoldable pub validate : Context F → Outcome (RuleResult F)
    unfolding on_loss
    validate context = do
      pnl ← as_number (get_or context.daily_pnl_percent (n.literal 0))
      if n.le (n.literal 0) pnl then returned no_loss else on_loss pnl (n.abs pnl)

    unfoldable pub get_current_value : Context F → Outcome F
    get_current_value context = do
      pnl ← as_number (get_or context.daily_pnl_percent (n.literal 0))
      returned (if n.le (n.literal 0) pnl then n.literal 0 else n.abs pnl)
