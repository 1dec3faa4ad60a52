-- ===== src/Accounts/Isolation/Separation.antt =====
-- The risk events of one account leave the others alone.
use td_sandboxed.Base.{
  ◌≡◌, ◌≢◌, ◌∙◌, refl, Bool, true, false, String, eq_iff, List, [], ◌∷◌, Outcome, returned, raised,
  arith, All,
}
use td_sandboxed.Base.Dict.{lookup, lookup-insert_ne}
use td_sandboxed.Base.Number.{Number}
use td_sandboxed.Accounts.RiskState.{RiskState, update_equity, record_trade}
use td_sandboxed.Accounts.Registry.{
  RuleType, daily_loss, max_drawdown, Registry, Violation, persist, get_or_create,
  update_account_equity, record_account_trade, check_account_violation, get_risk_state,
  record_violation, state_for,
}
use td_sandboxed.Accounts.Manager.{Manager, get_account_status, pause_for_rule_violation}
use td_sandboxed.Accounts.Manager.Table.{violation, operate-Follows}
use td_sandboxed.Accounts.Isolation.{
  Service, Ending, recorded, pause_for_violation, enforce, check_and_enforce, on_equity_update,
  on_trade_completed,
}

paused-same :
    (a b : String) (m : Manager)
    → a ≢ b
    → get_account_status b (pause_for_rule_violation a m).manager ≡ get_account_status b m
paused-same a b m other =
    let follows = operate-Follows a b m violation in ground (arith, follows.1, eq_iff a b, other)

-- What the service is told: the account, then the amount and the limit.
pub data Event (F T : Type 0) : Type 0 where
  equity_update trade_completed : T → String → F → F → Event F T

-- The risk state of an account, in memory and in Redis, and its status are what they were.
pub record IsUntouched (F T : Type 0) (b : String) (w w' : Service F T) : Type 0 where
  pub in_memory : get_risk_state b w'.registry ≡ get_risk_state b w.registry
  pub in_redis : lookup b w'.registry.saved ≡ lookup b w.registry.saved
  pub status : get_account_status b w'.accounts ≡ get_account_status b w.accounts

module _ {F T : Type 0} where
  abbrev pub account_of : Event F T → String
  account_of (equity_update now a amount limit) = a
  account_of (trade_completed now a amount limit) = a

module _ {F T : Type 0} ⦃n : Number F⦄ where
  abbrev pub handle : Event F T → Service F T → Ending F T
  handle (equity_update now a amount limit) w = on_equity_update now a amount limit w
  handle (trade_completed now a amount limit) w = on_trade_completed now a amount limit w

  -- The events in order; the caller of a call that raised goes on with the next.
  unfoldable pub handle_all : List (Event F T) → Service F T → Service F T
  handle_all [] w = w
  handle_all (e ∷ es) w = handle_all es (handle e w).service

  module _ (a b : String) (other : a ≢ b) where
    Keeps : Registry F T → Registry F T → Type 0
    Keeps reg reg' =
        (get_risk_state b reg' ≡ get_risk_state b reg) × (lookup b reg'.saved ≡ lookup b reg.saved)

    created-Keeps : (now : T) (reg : Registry F T) → Keeps reg (get_or_create now a reg)
    unfolding Keeps get_or_create get_risk_state
    created-Keeps now reg = (lookup-insert_ne a b (state_for now a reg) reg.managers other, refl)

    persist-Keeps :
        (now : T) (s : RiskState F T) (reg : Registry F T)
        → Keeps reg (persist a s (get_or_create now a reg))
    unfolding Keeps get_or_create get_risk_state
    persist-Keeps now s reg = (
      lookup-insert_ne a b s _ other
          ∙ lookup-insert_ne a b (state_for now a reg) reg.managers other,
      lookup-insert_ne a b s reg.saved other,
    )

    recorded-IsUntouched :
        (is_raised : Bool) (v : Violation F) (w : Service F T) (m : Manager)
        → get_account_status b m ≡ get_account_status b w.accounts
        → IsUntouched F T b w (recorded is_raised m v w.registry).service
    unfolding record_violation get_risk_state
    recorded-IsUntouched true v w m same = record {
      in_memory = refl;
      in_redis = refl;
      status = same;
    }
    recorded-IsUntouched false v w m same = record {
      in_memory = refl;
      in_redis = refl;
      status = same;
    }

    enforce-IsUntouched :
        (rule : RuleType) (limit : F) (w : Service F T) (answer : Outcome (Bool × F))
        → IsUntouched F T b w (enforce a rule limit w answer).service
    unfolding pause_for_violation
    enforce-IsUntouched rule limit w raised = record {
      in_memory = refl;
      in_redis = refl;
      status = refl;
    }
    enforce-IsUntouched rule limit w (returned (false, current)) = record {
      in_memory = refl;
      in_redis = refl;
      status = refl;
    }
    enforce-IsUntouched rule limit w (returned (true, current)) =
        recorded-IsUntouched (pause_for_rule_violation a w.accounts).is_raised _ w
          (pause_for_rule_violation a w.accounts).manager (paused-same a b w.accounts other)

    checked-IsUntouched :
        (now : T) (rule : RuleType) (limit : F) (w : Service F T) (reg : Registry F T)
        → Keeps w.registry reg
        → IsUntouched F T b w (check_and_enforce now a rule limit w.accounts reg).service
    unfolding check_account_violation Keeps
    checked-IsUntouched now rule limit w reg kept =
        let (memory, redis) = created-Keeps now reg in
        let h =
          enforce-IsUntouched rule limit
            (record { registry = get_or_create now a reg; accounts = w.accounts })
            (check_account_violation now a rule limit reg).1 in
        record {
          in_memory = h.in_memory ∙ memory ∙ kept.0;
          in_redis = h.in_redis ∙ redis ∙ kept.1;
          status = h.status;
        }

  handle-IsUntouched :
      (b : String) (e : Event F T) (w : Service F T)
      → account_of e ≢ b
      → IsUntouched F T b w (handle e w).service
  unfolding on_equity_update on_trade_completed update_account_equity record_account_trade
  handle-IsUntouched b (equity_update now a amount limit) w other =
      checked-IsUntouched a b other now max_drawdown limit w
        (update_account_equity now a amount w.registry)
        (persist-Keeps a b other now (update_equity amount now (state_for now a w.registry))
          w.registry)
  handle-IsUntouched b (trade_completed now a amount limit) w other =
      checked-IsUntouched a b other now daily_loss limit w
        (record_account_trade now a amount w.registry)
        (persist-Keeps a b other now (record_trade amount now (state_for now a w.registry))
          w.registry)

  -- Whatever equity updates and completed trades of other accounts the service handles, calls that
  -- raise included, the risk state of an account, in memory and in Redis, and its status are after
  -- them what they were.
  pub handle_all-IsUntouched :
      (b : String) (es : List (Event F T)) (w : Service F T)
      → All (λ e. account_of e ≢ b) es
      → IsUntouched F T b w (handle_all es w)
  unfolding handle_all
  handle_all-IsUntouched b [] w others = record { in_memory = refl; in_redis = refl; status = refl }
  handle_all-IsUntouched b (e ∷ es) w others =
      let first = handle-IsUntouched b e w others.0 in
      let rest = handle_all-IsUntouched b es (handle e w).service others.1 in
      record {
        in_memory = rest.in_memory ∙ first.in_memory;
        in_redis = rest.in_redis ∙ first.in_redis;
        status = rest.status ∙ first.status;
      }
