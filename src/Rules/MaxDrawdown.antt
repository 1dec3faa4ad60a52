-- ===== src/Rules/MaxDrawdown.antt =====
-- rules/types/drawdown.py: class MaxDrawdownRule.
pub mod Verdict
use td_sandboxed.Base.{
  String, Bool, str_eq, true, false, Option, none, some, List, [], ◌∷◌, Outcome, returned, raised,
  ◌>>=◌, if◌then◌else◌,
}
use td_sandboxed.Base.Number.{Number, divide}
use td_sandboxed.Rules.Model.{
  RuleAction, Value, Message, Meta, RuleResult, Context, get_or, as_number, to_float,
}
use td_sandboxed.Rules.Ladder.{ascending, descending, first_reached}

abbrev pub rule_type : String
rule_type = "max_drawdown"

-- `VALID_METHODS`
pub data Method : Type 0 where
  equity_peak balance_based : Method

pub record MaxDrawdownRule (F : Type 0) : Type 0 where
  pub threshold_percent : F
  pub reference : String
  pub method : Method
  pub warning_at : List F

-- `method not in self.VALID_METHODS` is a ValueError.
abbrev pub method_of : String → Outcome Method
method_of name =
    if str_eq name "equity_peak"
    then returned equity_peak
    else if str_eq name "balance_based"
    then returned balance_based
    else raised

abbrev method_name : Method → String
method_name equity_peak = "equity_peak"
method_name balance_based = "balance_based"

module _ {F : Type 0} ⦃n : Number F⦄ where
  abbrev default_warnings : Option (List F) → List F
  default_warnings none = n.literal 50 ∷ n.literal 70 ∷ n.literal 85 ∷ []
  default_warnings (some levels) = levels

  -- `__init__`, for a `threshold_percent` that is a float already
  unfoldable pub init : F → String → String → Option (List F) → Outcome (MaxDrawdownRule F)
  unfolding ascending
  init threshold reference method warning_at = do
    known ← method_of method
    returned (record {
      threshold_percent = threshold;
      reference = reference;
      method = known;
      warning_at = ascending (default_warnings warning_at);
    })

  -- `_compute_drawdown_percent` below its two guards on the balances
  abbrev below_start : F → F → Outcome F
  below_start initial equity = do
    ratio ← divide (n.sub initial equity) initial
    returned (n.mul ratio (n.literal 100))

  abbrev balance_drawdown : Context F → Outcome F
  balance_drawdown context = do
    initial ← as_number (get_or context.initial_balance (n.literal 0))
    if n.le initial (n.literal 0) then returned (n.literal 0) else (do
      equity ← as_number (get_or context.current_equity (n.literal 0))
      if n.le initial equity then returned (n.literal 0) else below_start initial equity)

  -- `_compute_drawdown_percent`
  abbrev pub compute_drawdown_percent : Method → Context F → Outcome F
  compute_drawdown_percent equity_peak context =
      to_float (get_or context.total_drawdown_percent (n.literal 0))
  compute_drawdown_percent balance_based context = balance_drawdown context

  module _ (rule : MaxDrawdownRule F) where
    abbrev pub no_drawdown : RuleResult F
    no_drawdown = record {
      action = RuleAction.allow;
      message = none;
      metadata = [];
      current_value = some (n.literal 0);
      threshold_value = some rule.threshold_percent;
    }

    abbrev over_limit : F → RuleResult F
    over_limit drawdown = record {
      action = RuleAction.block;
      message = some (Message.exceeds drawdown rule.threshold_percent);
      metadata =
          ("rule_type", Meta.label rule_type)
          ∷ ("reference", Meta.label rule.reference)
          ∷ ("method", Meta.label (method_name rule.method))
          ∷ [];
      current_value = some drawdown;
      threshold_value = some rule.threshold_percent;
    }

    abbrev pub warning_metadata : F → F → List (String × Meta F)
    warning_metadata usage level =
        ("rule_type", Meta.label rule_type)
        ∷ ("warning_threshold", Meta.number level)
        ∷ ("usage_percent", Meta.number usage)
        ∷ ("method", Meta.label (method_name rule.method))
        ∷ []

    -- The end of `validate`: the warning loop and the final ALLOW.
    abbrev graded : F → F → Option F → RuleResult F
    graded usage drawdown (some level) = record {
      action = RuleAction.warn;
      message = some (Message.approaching usage rule.threshold_percent drawdown);
      metadata = warning_metadata usage level;
      current_value = some drawdown;
      threshold_value = some rule.threshold_percent;
    }
    graded usage drawdown none = record {
      action = RuleAction.allow;
      message = none;
      metadata = [];
      current_value = some drawdown;
      threshold_value = some rule.threshold_percent;
    }

    -- `validate` below the test for no drawdown
    on_drawdown : F → Outcome (RuleResult F)
    on_drawdown drawdown =
        if n.le rule.threshold_percent drawdown then returned (over_limit drawdown) else (do
          ratio ← divide drawdown rule.threshold_percent
          let usage = n.mul ratio (n.literal 100)
          returned (graded usage drawdown (first_reached usage (descending rule.warning_at))))

    unfoldable pub validate : Context F → Outcome (RuleResult F)
    unfolding on_drawdown
    validate context = do
      drawdown ← compute_drawdown_percent rule.method context
      if n.le drawdown (n.literal 0) then returned no_drawdown else on_drawdown drawdown
