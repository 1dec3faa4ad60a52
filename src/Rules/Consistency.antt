-- ===== src/Rules/Consistency.antt =====
-- rules/types/consistency.py: class ConsistencyRule.
pub mod Verdict
use td_sandboxed.Base.{
  String, Bool, true, false, ◌&&◌, Option, none, some, List, [], ◌∷◌, Outcome, returned, raised,
  ◌>>=◌, if◌then◌else◌,
}
use td_sandboxed.Base.Number.{Number, divide}
use td_sandboxed.Rules.Model.{
  RuleAction, Value, Message, Meta, RuleResult, Context, get_or, to_float,
}
use td_sandboxed.Rules.Ladder.{ascending, descending, first_reached}

abbrev pub rule_type : String
rule_type = "consistency"

pub record ConsistencyRule (F : Type 0) : Type 0 where
  pub block_at : F
  pub warn_at : List F

module _ {F : Type 0} ⦃n : Number F⦄ where
  -- `w for w in ladder if w < block`
  abbrev keep_below : F → List F → List F
  keep_below block [] = []
  keep_below block (w ∷ ws) = if n.lt w block then w ∷ keep_below block ws else keep_below block ws

  -- The check of a given ladder: a level at or above `block` is a ValueError.
  abbrev check_below : F → List F → Outcome (List F)
  check_below block [] = returned []
  check_below block (w ∷ ws) = do
    rest ← check_below block ws
    if n.le block w then raised else returned (w ∷ rest)

  abbrev ladder_of : F → Option (List F) → Outcome (List F)
  ladder_of block none =
      returned (ascending (keep_below block (n.literal 40 ∷ n.literal 45 ∷ n.literal 48 ∷ [])))
  ladder_of block (some levels) = check_below block (ascending levels)

  -- `__init__`
  unfoldable pub init : Option (List F) → F → Outcome (ConsistencyRule F)
  unfolding ascending
  init warn_at block =
      if n.lt (n.literal 0) block && n.le block (n.literal 100)
      then (do
        warn ← ladder_of block warn_at
        returned (record { block_at = block; warn_at = warn }))
      else raised

  -- One step of the loop over the history: values that are no numbers are passed over.
  abbrev add_profit : F → Outcome F → F
  add_profit sum raised = sum
  add_profit sum (returned v) = if n.lt (n.literal 0) v then n.add sum v else sum

  unfoldable pub sum_positive : F → List (String × Value F) → F
  sum_positive sum [] = sum
  sum_positive sum ((_, value) ∷ history) = sum_positive (add_profit sum (to_float value)) history

  -- `context.get("daily_profits_history", {}) or {}`
  abbrev pub history_of : Context F → List (String × Value F)
  history_of context = elim context.daily_profits_history [ none ↦ [] | some h ↦ h ]

  -- `_compute_ratio_percent` for a profit of today and the sum of the earlier ones
  abbrev pub share : F → F → Outcome F
  share today prior =
      if n.le prior (n.literal 0)
      then returned (n.literal 0)
      else if n.le (n.add today prior) (n.literal 0)
      then returned (n.literal 0)
      else (do ratio ← divide today (n.add today prior); returned (n.mul ratio (n.literal 100)))

  abbrev ratio_of_profit : Outcome F → List (String × Value F) → Outcome F
  ratio_of_profit raised history = returned (n.literal 0)
  ratio_of_profit (returned today) history =
      if n.le today (n.literal 0)
      then returned (n.literal 0)
      else share today (sum_positive (n.literal 0) history)

  -- `_compute_ratio_percent`
  unfoldable pub compute_ratio_percent : Context F → Outcome F
  compute_ratio_percent context =
      ratio_of_profit (to_float (get_or context.current_day_pnl (n.literal 0))) (history_of context)

  module _ (rule : ConsistencyRule F) where
    abbrev pub not_applicable : RuleResult F
    not_applicable = record {
      action = RuleAction.allow;
      message = none;
      metadata = [];
      current_value = some (n.literal 0);
      threshold_value = some rule.block_at;
    }

    abbrev over_limit : F → RuleResult F
    over_limit ratio = record {
      action = RuleAction.block;
      message = some (Message.share ratio rule.block_at);
      metadata =
          ("rule_type", Meta.label rule_type)
          ∷ ("ratio_percent", Meta.number ratio)
          ∷ ("block_at", Meta.number rule.block_at)
          ∷ [];
      current_value = some ratio;
      threshold_value = some rule.block_at;
    }

    abbrev pub warning_metadata : F → F → List (String × Meta F)
    warning_metadata ratio level =
        ("rule_type", Meta.label rule_type)
        ∷ ("ratio_percent", Meta.number ratio)
        ∷ ("warn_threshold", Meta.number level)
        ∷ ("block_at", Meta.number rule.block_at)
        ∷ []

    abbrev graded : F → Option F → RuleResult F
    graded ratio (some level) = record {
      action = RuleAction.warn;
      message = some (Message.share ratio rule.block_at);
      metadata = warning_metadata ratio level;
      current_value = some ratio;
      threshold_value = some rule.block_at;
    }
    graded ratio none = record {
      action = RuleAction.allow;
      message = none;
      metadata = [];
      current_value = some ratio;
      threshold_value = some rule.block_at;
    }

    -- `validate` once the ratio is known
    unfoldable pub judge : F → RuleResult F
    judge ratio =
        if n.le ratio (n.literal 0)
        then not_applicable
        else if n.le rule.block_at ratio
        then over_limit ratio
        else graded ratio (first_reached ratio (descending rule.warn_at))

    unfoldable pub validate : Context F → Outcome (RuleResult F)
    unfolding compute_ratio_percent judge
    validate context = do ratio ← compute_ratio_percent context; returned (judge ratio)
