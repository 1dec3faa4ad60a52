-- ===== src/Execution/Validator.antt =====
-- execution/order_validator.py: validate_order, with the context of rules/context_builder.py, whose
-- custom fields no caller sets. Notifications, timing and texts of errors are left out; whether the
-- audit of the results raises is an argument.
pub mod Admission
use td_sandboxed.Base.{
  ◌≡◌, Bool, true, false, not, String, Option, none, some, List, [], ◌∷◌, ◌==◌, if◌then◌else◌,
}
use td_sandboxed.Base.Number.{Number}
use td_sandboxed.Rules.Model.{RuleAction, Message, RuleResult, Value, Context, is_blocked, get_or}
use td_sandboxed.Rules.Engine.{
  Rule, RuleEngine, RuleEngineResult, Findings, Reason, validate, warning_messages,
}

-- The keys of the account state that the builder reads for the rules; none is a missing key.
pub record AccountState (F : Type 0) : Type 0 where
  pub balance : Option (Value F)
  pub equity : Option (Value F)
  pub initial_balance : Option (Value F)
  pub daily_pnl_percent : Option (Value F)
  pub total_drawdown_percent : Option (Value F)
  pub account_balance : Option (Value F)
  pub requested_lots : Option (Value F)
  pub current_position_lots : Option (Value F)
  pub total_pnl_percent : Option (Value F)

-- `ValidationResult`
pub record ValidationResult (C F : Type 0) : Type 0 where
  pub allowed : Bool
  pub reason : Option (Reason C F)
  pub warnings : List (Message F)
  pub blocked_by_rule : Option String
  pub current_value : Option F
  pub threshold_value : Option F

module _ {F : Type 0} ⦃n : Number F⦄ where
  abbrev pub or_zero : Option (Value F) → Option (Value F)
  or_zero v = some (get_or v (n.literal 0))

  abbrev pub or_else : Option (Value F) → Value F → Option (Value F)
  or_else none fallback = some fallback
  or_else (some v) fallback = some v

  -- `build_validation_context` for an order of the given volume, as the rules read it
  unfoldable pub build_validation_context : (volume : F) → AccountState F → Context F
  build_validation_context volume state = record {
    daily_pnl_percent = or_zero state.daily_pnl_percent;
    total_drawdown_percent = or_zero state.total_drawdown_percent;
    initial_balance = or_zero state.initial_balance;
    current_equity = or_zero state.equity;
    account_balance = or_else state.account_balance (get_or state.balance (n.literal 0));
    requested_lots = or_else state.requested_lots (Value.float volume);
    current_position_lots = or_zero state.current_position_lots;
    current_day_pnl = none;
    daily_profits_history = none;
    total_pnl_percent = or_zero state.total_pnl_percent;
    weekly_pnl_percent = none;
  }

module _ {F : Type 0} where
  abbrev pub current_of : Option (RuleResult F) → Option F
  current_of none = none
  current_of (some r) = r.current_value

  abbrev pub threshold_of : Option (RuleResult F) → Option F
  threshold_of none = none
  threshold_of (some r) = r.threshold_value

  abbrev pub has_warnings : List (RuleResult F) → Bool
  has_warnings [] = false
  has_warnings (_ ∷ _) = true

module _ {C F : Type 0} where
  -- The first result of the rule that blocked
  abbrev pub result_of : Rule C F → List (Rule C F × RuleResult F) → Option (RuleResult F)
  result_of blocker [] = none
  result_of blocker ((rule, r) ∷ rest) =
      if rule.ident == blocker.ident then some r else result_of blocker rest

  abbrev pub blocking_result :
      Option (Rule C F) → List (Rule C F × RuleResult F) → Option (RuleResult F)
  blocking_result none results = none
  blocking_result (some blocker) results = result_of blocker results

  abbrev pub name_of : Option (Rule C F) → String
  name_of none = "unknown"
  name_of (some rule) = rule.name

  -- The result of an engine that blocked, and of one that did not
  abbrev pub blocked : Findings C F → ValidationResult C F
  blocked f =
      let r = blocking_result f.blocked_by f.all_results in
      record {
        allowed = false;
        reason = f.blocking_reason;
        warnings = [];
        blocked_by_rule = some (name_of f.blocked_by);
        current_value = current_of r;
        threshold_value = threshold_of r;
      }

  abbrev pub admitted : List (Message F) → ValidationResult C F
  admitted warnings = record {
    allowed = true;
    reason = none;
    warnings = warnings;
    blocked_by_rule = none;
    current_value = none;
    threshold_value = none;
  }

  -- The `except` clauses, which differ in the text of the error
  abbrev pub fail_safe : ValidationResult C F
  fail_safe = record {
    allowed = false;
    reason = none;
    warnings = [];
    blocked_by_rule = some "error";
    current_value = none;
    threshold_value = none;
  }

  abbrev pub mapped : RuleEngineResult C F → ValidationResult C F
  mapped r =
      if is_blocked r.action
      then blocked r.findings
      else admitted (if has_warnings r.findings.warnings then warning_messages r else [])

  -- `validate_order` in a context; `audited` is false where the audit of the results raises.
  unfoldable pub validate_in : RuleEngine C F → (audited : Bool) → C → ValidationResult C F
  unfolding validate warning_messages
  validate_in engine audited context =
      if audited then mapped (validate engine context false) else fail_safe

module _ {F : Type 0} ⦃n : Number F⦄ where
  -- `validate_order`
  unfoldable pub validate_order :
      RuleEngine (Context F) F
      → (audited : Bool) → (volume : F) → AccountState F
      → ValidationResult (Context F) F
  unfolding validate_in build_validation_context
  validate_order engine audited volume state =
      validate_in engine audited (build_validation_context volume state)
