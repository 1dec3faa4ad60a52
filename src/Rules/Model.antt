-- ===== src/Rules/Model.antt =====
-- rules/base_rule.py: what a rule reads and what it answers.
-- A context value is a Python object; the rules only ask whether it is a number. The text of a
-- message is kept as the numbers that it interpolates.
use td_sandboxed.Base.{
  ℕ, String, Bool, true, false, Option, none, some, List, Outcome, returned, raised,
}

pub data RuleAction : Type 0 where
  allow warn block : RuleAction

-- An entry of the context: a `float` (or an `int`), a `Decimal` given by its `float()`, a `str`
-- with what `float()` makes of it, or `None`.
pub data Value (F : Type 0) : Type 0 where
  float : F → Value F
  decimal : F → Value F
  text : Option F → Value F
  null : Value F

pub data Message (F : Type 0) : Type 0 where
  exceeds : (current limit : F) → Message F
  approaching : (usage limit current : F) → Message F
  share : (ratio limit : F) → Message F
  target_met : (current target : F) → Message F
  progress : (current target done : F) → Message F
  error : String → Message F

pub data Meta (F : Type 0) : Type 0 where
  number : F → Meta F
  flag : Bool → Meta F
  label : String → Meta F

pub record RuleResult (F : Type 0) : Type 0 where
  pub action : RuleAction
  pub message : Option (Message F)
  pub metadata : List (String × Meta F)
  pub current_value : Option F
  pub threshold_value : Option F

-- The keys of the context that the rules read; `none` is a missing key.
pub record Context (F : Type 0) : Type 0 where
  pub daily_pnl_percent : Option (Value F)
  pub total_drawdown_percent : Option (Value F)
  pub initial_balance : Option (Value F)
  pub current_equity : Option (Value F)
  pub account_balance : Option (Value F)
  pub requested_lots : Option (Value F)
  pub current_position_lots : Option (Value F)
  pub current_day_pnl : Option (Value F)
  pub daily_profits_history : Option (List (String × Value F))
  pub total_pnl_percent : Option (Value F)
  pub weekly_pnl_percent : Option (Value F)

-- `RuleResult.is_allowed`
abbrev pub is_allowed : RuleAction → Bool
is_allowed allow = true
is_allowed warn = true
is_allowed block = false

-- `RuleResult.is_blocked`
abbrev pub is_blocked : RuleAction → Bool
is_blocked block = true
is_blocked _ = false

-- How severe an action is: allow, warn, block in this order.
abbrev pub severity : RuleAction → ℕ
severity allow = 0
severity warn = 1
severity block = 2

module _ {F : Type 0} where
  -- `context.get(key, default)` for a numeric default.
  abbrev pub get_or : Option (Value F) → F → Value F
  get_or none default = float default
  get_or (some v) _ = v

  -- A value after `if isinstance(v, Decimal): v = float(v)`, at its first comparison with a
  -- number: `str` and `None` raise TypeError there.
  abbrev pub as_number : Value F → Outcome F
  as_number (float x) = returned x
  as_number (decimal x) = returned x
  as_number (text _) = raised
  as_number null = raised

  -- `float(v)`
  abbrev pub to_float : Value F → Outcome F
  to_float (float x) = returned x
  to_float (decimal x) = returned x
  to_float (text (some x)) = returned x
  to_float (text none) = raised
  to_float null = raised

  -- The context with no key at all.
  abbrev pub no_context : Context F
  no_context = record {
    daily_pnl_percent = none;
    total_drawdown_percent = none;
    initial_balance = none;
    current_equity = none;
    account_balance = none;
    requested_lots = none;
    current_position_lots = none;
    current_day_pnl = none;
    daily_profits_history = none;
    total_pnl_percent = none;
    weekly_pnl_percent = none;
  }
