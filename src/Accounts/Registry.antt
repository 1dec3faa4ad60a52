-- ===== src/Accounts/Registry.antt =====
-- accounts/risk_registry.py: RiskStateRegistry, with the AccountRiskManager of each account as the
-- state that it keeps. Redis answers, and gives back the states that were saved. The lock of an
-- account orders the calls for it; a call is one step here.
use td_sandboxed.Base.{Bool, String, Option, none, some, List, [], ◌∷◌, Outcome, returned, raised}
use td_sandboxed.Base.Dict.{Dict, lookup, insert}
use td_sandboxed.Base.Number.{Number}
use td_sandboxed.Accounts.RiskState.{
  RiskState, fresh, update_equity, record_trade, reset_daily, check_daily_loss_limit,
  check_max_drawdown,
}

-- The names of rules that `check_account_violation` knows, and the others.
pub data RuleType : Type 0 where
  daily_loss max_drawdown : RuleType
  unknown : String → RuleType

-- An entry of `record_risk_violation`
pub record Violation (F : Type 0) : Type 0 where
  pub account_id : String
  pub rule_type : RuleType
  pub current_value : F
  pub limit_value : F

-- `managers` is `_risk_managers`; `saved` and `violations` are what Redis was sent.
pub record Registry (F T : Type 0) : Type 0 where
  pub managers : Dict (RiskState F T)
  pub saved : Dict (RiskState F T)
  pub violations : List (Violation F)

module _ {F T : Type 0} where
  -- The manager's state changes and is persisted
  abbrev pub persist : String → RiskState F T → Registry F T → Registry F T
  persist a s reg = record reg { managers = insert a s reg.managers; saved = insert a s reg.saved }

  -- `get_risk_state`
  unfoldable pub get_risk_state : String → Registry F T → Option (RiskState F T)
  get_risk_state a reg = lookup a reg.managers

  -- `record_violation`
  unfoldable pub record_violation : Violation F → Registry F T → Registry F T
  record_violation v reg = record reg { violations = v ∷ reg.violations }

module _ {F T : Type 0} ⦃n : Number F⦄ where
  -- The state that a new manager starts from
  abbrev pub initial_state : T → Option (RiskState F T) → RiskState F T
  initial_state now none = fresh now
  initial_state now (some existing) = existing

  abbrev pub found_or : Option (RiskState F T) → RiskState F T → RiskState F T
  found_or (some s) initial = s
  found_or none initial = initial

  -- The state of an account, where it has a manager or gets one
  unfoldable pub state_for : T → String → Registry F T → RiskState F T
  state_for now a reg = found_or (lookup a reg.managers) (initial_state now (lookup a reg.saved))

  -- `get_or_create`
  unfoldable pub get_or_create : T → String → Registry F T → Registry F T
  unfolding state_for
  get_or_create now a reg = record reg { managers = insert a (state_for now a reg) reg.managers }

  -- `update_account_equity`
  unfoldable pub update_account_equity : T → String → F → Registry F T → Registry F T
  unfolding get_or_create
  update_account_equity now a equity reg =
      persist a (update_equity equity now (state_for now a reg)) (get_or_create now a reg)

  -- `record_account_trade`
  unfoldable pub record_account_trade : T → String → F → Registry F T → Registry F T
  unfolding get_or_create
  record_account_trade now a realized_pnl reg =
      persist a (record_trade realized_pnl now (state_for now a reg)) (get_or_create now a reg)

  abbrev pub check_state : RuleType → F → RiskState F T → Outcome (Bool × F)
  check_state daily_loss limit s = returned (check_daily_loss_limit limit s)
  check_state max_drawdown limit s = returned (check_max_drawdown limit s)
  check_state (unknown name) limit s = raised

  -- `check_account_violation`: the registry after it, and the answer
  unfoldable pub check_account_violation :
      T → String → RuleType → F → Registry F T → Registry F T × Outcome (Bool × F)
  unfolding get_or_create
  check_account_violation now a rule limit reg =
      (get_or_create now a reg, check_state rule limit (state_for now a reg))

  -- `reset_daily_all`
  unfoldable pub reset_daily_all : T → Dict F → Registry F T → Registry F T
  unfolding get_or_create
  reset_daily_all now [] reg = reg
  reset_daily_all now ((a, balance) ∷ balances) reg =
      reset_daily_all now balances
        (persist a (reset_daily balance now (state_for now a reg)) (get_or_create now a reg))
