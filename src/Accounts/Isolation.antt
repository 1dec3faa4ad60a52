-- ===== src/Accounts/Isolation.antt =====
-- accounts/risk_isolation.py: RiskIsolationService, over the registry and the account manager.
pub mod Separation
pub mod Enforcement
use td_sandboxed.Base.{
  ℕ, ◌≡◌, Bool, true, false, String, Option, none, some, List, [], ◌∷◌, Outcome, returned, raised,
  if◌then◌else◌,
}
use td_sandboxed.Base.Number.{Number}
use td_sandboxed.Accounts.RiskState.{RiskState, get_warning_level}
use td_sandboxed.Accounts.Registry.{
  RuleType, daily_loss, max_drawdown, Violation, Registry, state_for, get_or_create,
  update_account_equity, record_account_trade, check_account_violation, record_violation,
}
use td_sandboxed.Accounts.Manager.{Manager, Reply, pause_for_rule_violation}

-- `RuleConfig`
pub record RuleConfig (F : Type 0) : Type 0 where
  pub rule_type : RuleType
  pub limit : F

-- The two collaborators of the service, and whether the call raised.
pub record Service (F T : Type 0) : Type 0 where
  pub registry : Registry F T
  pub accounts : Manager

pub record Ending (F T : Type 0) : Type 0 where
  pub service : Service F T
  pub is_raised : Bool

module _ {F T : Type 0} ⦃n : Number F⦄ where
  -- The violation is recorded if the pause did not raise
  abbrev pub recorded : Bool → Manager → Violation F → Registry F T → Ending F T
  recorded true m v reg = record {
    service = record { registry = reg; accounts = m };
    is_raised = true;
  }
  recorded false m v reg = record {
    service = record { registry = record_violation v reg; accounts = m };
    is_raised = false;
  }

  -- `_pause_for_violation`
  unfoldable pub pause_for_violation : Violation F → Service F T → Ending F T
  unfolding pause_for_rule_violation record_violation
  pause_for_violation v w =
      let r = pause_for_rule_violation v.account_id w.accounts in
      recorded r.is_raised r.manager v w.registry

  -- What follows a check of one limit
  abbrev pub enforce : String → RuleType → F → Service F T → Outcome (Bool × F) → Ending F T
  enforce a rule limit w raised = record { service = w; is_raised = true }
  enforce a rule limit w (returned (violated, current)) =
      if violated
      then pause_for_violation
          (record {
            account_id = a;
            rule_type = rule;
            current_value = current;
            limit_value = limit;
          })
          w
      else record { service = w; is_raised = false }

  abbrev pub check_and_enforce : T → String → RuleType → F → Manager → Registry F T → Ending F T
  check_and_enforce now a rule limit m reg =
      let (reg', answer) = check_account_violation now a rule limit reg in
      enforce a rule limit (record { registry = reg'; accounts = m }) answer

  -- `on_equity_update`
  unfoldable pub on_equity_update : T → String → (equity limit : F) → Service F T → Ending F T
  unfolding pause_for_violation update_account_equity check_account_violation
  on_equity_update now a equity limit w =
      check_and_enforce now a max_drawdown limit w.accounts
        (update_account_equity now a equity w.registry)

  -- `on_trade_completed`
  unfoldable pub on_trade_completed :
      T → String → (realized_pnl limit : F) → Service F T → Ending F T
  unfolding pause_for_violation record_account_trade check_account_violation
  on_trade_completed now a realized_pnl limit w =
      check_and_enforce now a daily_loss limit w.accounts
        (record_account_trade now a realized_pnl w.registry)

  abbrev pub next_rule :
      Registry F T → Outcome (Bool × F) → Registry F T × Outcome Bool → Registry F T × Outcome Bool
  next_rule reg raised rest = (reg, raised)
  next_rule reg (returned (true, current)) rest = (reg, returned false)
  next_rule reg (returned (false, current)) rest = rest

  -- `check_pre_trade`: the registry after it, and whether the trade is allowed
  unfoldable pub check_pre_trade :
      T → String → List (RuleConfig F) → Registry F T → Registry F T × Outcome Bool
  unfolding check_account_violation
  check_pre_trade now a [] reg = (reg, returned true)
  check_pre_trade now a (rule ∷ rules) reg =
      let (reg', answer) = check_account_violation now a rule.rule_type rule.limit reg in
      next_rule reg' answer (check_pre_trade now a rules reg')

  -- `get_warning_level`
  unfoldable pub warning_level_of : T → String → F → Registry F T → Option ℕ
  unfolding state_for get_warning_level
  warning_level_of now a limit reg = get_warning_level limit (state_for now a reg)
