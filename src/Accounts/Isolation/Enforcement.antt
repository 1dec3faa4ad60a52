-- ===== src/Accounts/Isolation/Enforcement.antt =====
-- What a completed trade does to its own account.
use td_sandboxed.Base.{
  ◌≡◌, ◌∙◌, refl, ap, sym, subst, Bool, true, false, ◌&&◌, String, some, List, ◌∷◌, returned,
  if◌then◌else◌, arith, All,
}
use td_sandboxed.Base.Dict.{lookup, contains, lookup-insert_self}
use td_sandboxed.Base.Number.{Number, IsOrdered, Below}
use td_sandboxed.Base.Comparison.{not_le_of_lt, not_lt_of_le}
use td_sandboxed.Accounts.RiskState.{RiskState, fresh, record_trade, check_daily_loss_limit}
use td_sandboxed.Accounts.RiskState.Bookkeeping.{Update, updates, IsIntraday, unbased}
use td_sandboxed.Accounts.Registry.{
  daily_loss, Registry, Violation, get_or_create, record_account_trade, check_account_violation,
  get_risk_state, record_violation, state_for,
}
use td_sandboxed.Accounts.Manager.{
  AccountState, active, paused, stopped, error, can_transition_to, Manager, accept, refuse,
  publish_alert, save_account_status, get_account_status, pause_account, pause_for_rule_violation,
}
use td_sandboxed.Accounts.Isolation.{
  Service, Ending, pause_for_violation, enforce, on_trade_completed,
}

abbrev pub is_active : AccountState → Bool
is_active active = true
is_active _ = false

pause_lem :
    (a : String) (m : Manager) (st : AccountState)
    → contains a m.accounts ≡ true
    → get_account_status a m ≡ some st
    → pause_for_rule_violation a m ≡ (
        if is_active st
        then accept (publish_alert a (save_account_status a paused m))
        else refuse m)
unfolding pause_for_rule_violation pause_account can_transition_to
pause_lem a m active known now = rw (known, now)
pause_lem a m paused known now = rw (known, now)
pause_lem a m stopped known now = rw (known, now)
pause_lem a m error known now = rw (known, now)

module _ {F T : Type 0} where
  -- What a check of the daily loss that found `violated` at `current` leaves of an account with the
  -- status `st` and the risk state `s`: if it is active it is paused and the violation recorded, and
  -- otherwise the call raises.
  pub record IsEnforced (a : String) (limit : F) (st : AccountState) (violated : Bool) (current : F)
      (s : RiskState F T) (earlier : List (Violation F)) (e : Ending F T) : Type 0 where
    pub raises : e.is_raised ≡ (if is_active st then false else violated)
    pub status :
        get_account_status a e.service.accounts
        ≡ some (if is_active st && violated then paused else st)
    pub violations : e.service.registry.violations ≡ (
        if is_active st && violated
        then record {
          account_id = a;
          rule_type = daily_loss;
          current_value = current;
          limit_value = limit;
        }
          ∷ earlier
        else earlier)
    pub state : get_risk_state a e.service.registry ≡ some s

  module _ (a : String) (limit : F) (m : Manager) (reg : Registry F T) (s : RiskState F T) where
    unchanged-IsEnforced :
        (st : AccountState) (current : F)
        → get_account_status a m ≡ some st
        → get_risk_state a reg ≡ some s
        → IsEnforced a limit st false current s reg.violations
            (record { service = record { registry = reg; accounts = m }; is_raised = false })
    unchanged-IsEnforced st current at_status kept = record {
      raises = ground arith;
      status = ground (arith, at_status);
      violations = ground arith;
      state = kept;
    }

    refused-IsEnforced :
        (st : AccountState) (current : F)
        → is_active st ≡ false
        → get_account_status a m ≡ some st
        → get_risk_state a reg ≡ some s
        → IsEnforced a limit st true current s reg.violations
            (record { service = record { registry = reg; accounts = m }; is_raised = true })
    refused-IsEnforced st current idle at_status kept = record {
      raises = rw idle;
      status = rw idle at_status;
      violations = rw idle;
      state = kept;
    }

module _ {F T : Type 0} ⦃n : Number F⦄ (a : String) (limit : F) where
  violation-IsEnforced :
      (m : Manager) (reg : Registry F T) (s : RiskState F T) (st : AccountState) (violated : Bool)
      (current : F)
      → contains a m.accounts ≡ true
      → get_account_status a m ≡ some st
      → get_risk_state a reg ≡ some s
      → IsEnforced a limit st violated current s reg.violations (
          enforce a daily_loss limit
            (record { registry = reg; accounts = m })
            (returned (violated, current)))
  unfolding pause_for_violation record_violation get_risk_state
  violation-IsEnforced m reg s st false current known at_status kept =
      unchanged-IsEnforced a limit m reg s st current at_status kept
  violation-IsEnforced m reg s active true current known at_status kept =
      rw (pause_lem a m active known at_status) (record {
        raises = refl;
        status = lookup-insert_self a paused m.statuses;
        violations = refl;
        state = kept;
      })
  violation-IsEnforced m reg s paused true current known at_status kept =
      rw (pause_lem a m paused known at_status)
        (refused-IsEnforced a limit m reg s paused current refl at_status kept)
  violation-IsEnforced m reg s stopped true current known at_status kept =
      rw (pause_lem a m stopped known at_status)
        (refused-IsEnforced a limit m reg s stopped current refl at_status kept)
  violation-IsEnforced m reg s error true current known at_status kept =
      rw (pause_lem a m error known at_status)
        (refused-IsEnforced a limit m reg s error current refl at_status kept)

  held :
      (now : T) (reg : Registry F T) (s : RiskState F T)
      → lookup a reg.managers ≡ some s
      → state_for now a reg ≡ s
  unfolding state_for
  held now reg s there = rw there

  -- After a completed trade of an account the risk state holds the trade. If the daily loss limit
  -- is then reached, an active account is paused and the violation recorded, and for one that is
  -- not active the call raises and records nothing; otherwise status and records stay as they
  -- were.
  pub on_trade_completed-IsEnforced :
      (now : T) (realized_pnl : F) (w : Service F T) (st : AccountState)
      → contains a w.accounts.accounts ≡ true
      → get_account_status a w.accounts ≡ some st
      → IsEnforced a limit st
          (check_daily_loss_limit limit
            (record_trade realized_pnl now (state_for now a w.registry))).0
          (check_daily_loss_limit limit
            (record_trade realized_pnl now (state_for now a w.registry))).1
          (record_trade realized_pnl now (state_for now a w.registry))
          w.registry.violations
          (on_trade_completed now a realized_pnl limit w)
  unfolding on_trade_completed record_account_trade check_account_violation get_or_create
      get_risk_state
  on_trade_completed-IsEnforced now realized_pnl w st known at_status =
      let s = record_trade realized_pnl now (state_for now a w.registry) in
      let reg = record_account_trade now a realized_pnl w.registry in
      let found : state_for now a reg ≡ s = held now reg s (lookup-insert_self a s _) in
      let checked = get_or_create now a reg in
      subst
        (λ t.
          IsEnforced a limit st (check_daily_loss_limit limit s).0
            (check_daily_loss_limit limit s).1 s w.registry.violations
            (enforce a daily_loss limit (record { registry = checked; accounts = w.accounts })
              (returned (check_daily_loss_limit limit t))))
        (sym found)
        (violation-IsEnforced w.accounts checked s st (check_daily_loss_limit limit s).0
          (check_daily_loss_limit limit s).1 known at_status
          (lookup-insert_self a (state_for now a reg) reg.managers ∙ ap (λ x. some x) found))

module _ {F T : Type 0} ⦃n : Number F⦄ (laws : IsOrdered F) where
  -- Under the laws of comparison, as long as the daily metrics of an account that started afresh
  -- were not reset, its daily loss reaches no positive limit, whatever its trades lose; the
  -- absolute value of zero is zero.
  pub unbased-unlimited :
      n.abs (n.literal 0) ≡ n.literal 0
      → (start : T) (us : List (Update F T)) (limit : F) → All IsIntraday us
      → Below (n.literal 0) limit
      → (check_daily_loss_limit limit (updates us (fresh start))).0 ≡ false
  unfolding check_daily_loss_limit
  unbased-unlimited abs_zero start us limit intraday positive =
      let zero_ = laws.literal_le 0 0 (omega arith) in
      let same : (updates us (fresh start)).daily_pnl_percent ≡ n.literal 0 =
        unbased us (fresh start) intraday (not_lt_of_le laws (n.literal 0) (n.literal 0) zero_) in
      rw (same, abs_zero, not_le_of_lt laws (n.literal 0) limit positive)
