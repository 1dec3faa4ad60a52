-- ===== src/Rules/Engine.antt =====
-- rules/engine.py and rules/engine_result.py: class RuleEngine.
-- A rule is its attributes and its `validate`; `ident` tells two rule objects apart. The text of a
-- caught exception and the evaluation time are left out.
pub mod Action
pub mod Order
use td_sandboxed.Base.{
  ℕ, String, Bool, true, false, not, ◌&&◌, Option, none, some, List, [], ◌∷◌, ◌++◌, Outcome,
  returned, raised, if◌then◌else◌, map,
}
use td_sandboxed.Base.Int.{ℤ, pos, ltb_ℤ}
use td_sandboxed.Base.Sort.{sorted}
use td_sandboxed.Rules.Model.{RuleAction, Message, Meta, RuleResult, is_blocked}

module _ (C F : Type 0) where
  pub record Rule : Type 0 where
    pub ident : ℕ
    pub rule_type : String
    pub name : String
    pub priority : Option ℤ
    pub validate : C → Outcome (RuleResult F)

  pub record RuleEngine : Type 0 where
    pub account_id : String
    pub strict_mode : Bool
    pub rules : List Rule

  -- `blocking_reason`: the rule's message, or "Blocked by <rule_type>".
  pub data Reason : Type 0 where
    given : Message F → Reason
    blocked_by_type : String → Reason

  -- RuleEngineResult, and the loop's variables before the final action is set.
  pub record Findings : Type 0 where
    pub blocked_by : Option Rule
    pub blocking_reason : Option Reason
    pub warnings : List (RuleResult F)
    pub all_results : List (Rule × RuleResult F)

  pub record RuleEngineResult : Type 0 where
    pub action : RuleAction
    pub findings : Findings

module _ {F : Type 0} where
  -- `w.message for w in ws if w.message`
  abbrev keep_messages : List (RuleResult F) → List (Message F)
  keep_messages [] = []
  keep_messages (w ∷ ws) = elim w.message [
    | none ↦ keep_messages ws
    | some m ↦ m ∷ keep_messages ws
  ]

module _ {C F : Type 0} where
  -- `getattr(r, "priority", 50)`
  abbrev pub priority_of : Rule C F → ℤ
  priority_of r = elim r.priority [ none ↦ pos 50 | some p ↦ p ]

  abbrev pub more_urgent : Rule C F → Rule C F → Bool
  more_urgent a b = ltb_ℤ (priority_of a) (priority_of b)

  -- `__init__`
  unfoldable pub init : String → List (Rule C F) → Bool → RuleEngine C F
  unfolding sorted
  init account_id rules strict_mode = record {
    account_id = account_id;
    strict_mode = strict_mode;
    rules = sorted more_urgent rules;
  }

  abbrev pub no_findings : Findings C F
  no_findings = record {
    blocked_by = none;
    blocking_reason = none;
    warnings = [];
    all_results = [];
  }

  abbrev reason_of : Rule C F → RuleResult F → Reason C F
  reason_of rule result = elim result.message [
    | some m ↦ Reason.given m
    | none ↦ Reason.blocked_by_type rule.rule_type
  ]

  abbrev note_action : Rule C F → RuleResult F → RuleAction → Findings C F → Findings C F
  note_action rule result RuleAction.allow s = s
  note_action rule result RuleAction.warn s = record s { warnings = s.warnings ++ (result ∷ []) }
  note_action rule result RuleAction.block s = record s {
    blocked_by = some rule;
    blocking_reason = some (reason_of rule result);
  }

  -- A result that a rule returned: appended, and noted by its action.
  abbrev pub note : Rule C F → RuleResult F → Findings C F → Findings C F
  note rule result s =
      note_action rule result result.action
        (record s { all_results = s.all_results ++ ((rule, result) ∷ []) })

  abbrev pub error_result : Rule C F → RuleResult F
  error_result rule = record {
    action = RuleAction.block;
    message = some (Message.error rule.rule_type);
    metadata = ("rule_type", Meta.label rule.rule_type) ∷ [];
    current_value = none;
    threshold_value = none;
  }

  -- The `except` branch in strict mode.
  abbrev pub note_error : Rule C F → Findings C F → Findings C F
  note_error rule s = record s {
    blocked_by = some rule;
    blocking_reason = some (Reason.given (Message.error rule.rule_type));
    all_results = s.all_results ++ ((rule, error_result rule) ∷ []);
  }

  -- The loop of `validate`.
  unfoldable pub evaluate : Bool → Bool → C → List (Rule C F) → Findings C F → Findings C F
  evaluate strict go_on context [] s = s
  evaluate strict go_on context (rule ∷ rules) s = elim (rule.validate context) [
    | returned result ↦
        let rest = evaluate strict go_on context rules (note rule result s) in
        if is_blocked result.action && not go_on then note rule result s else rest
    | raised ↦
        let rest = evaluate strict go_on context rules s in
        if strict then note_error rule s else rest
  ]

  -- The final action
  abbrev pub final_action : Option (Rule C F) → List (RuleResult F) → RuleAction
  final_action (some _) warnings = RuleAction.block
  final_action none [] = RuleAction.allow
  final_action none (_ ∷ _) = RuleAction.warn

  -- `validate`
  unfoldable pub validate : RuleEngine C F → C → Bool → RuleEngineResult C F
  unfolding evaluate
  validate engine context continue_after_block =
      let s = evaluate engine.strict_mode continue_after_block context engine.rules no_findings in
      record { action = final_action s.blocked_by s.warnings; findings = s }

  -- `warning_messages`
  unfoldable pub warning_messages : RuleEngineResult C F → List (Message F)
  warning_messages r = keep_messages r.findings.warnings
