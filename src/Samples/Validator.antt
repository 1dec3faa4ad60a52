-- ===== src/Samples/Validator.antt =====
-- An order of half a lot behind the rules and the gate.
use td_sandboxed.Base.{
  ◌+◌, ◌≤◌, ◌≡◌, ◌↔◌, refl, true, false, not, none, some, [], ◌∷◌, All, returned,
}
use td_sandboxed.Base.Int.{ℤ, pos, negsuc}
use td_sandboxed.Samples.Fixed.{fixed, fixed-IsOrdered}
use td_sandboxed.Samples.Execution.{scripts}
use td_sandboxed.Samples.Engine.{both}
use td_sandboxed.Rules.Model.{RuleAction, RuleResult, Value}
use td_sandboxed.Rules.Consistency
use td_sandboxed.Rules.Engine.{init}
use td_sandboxed.Rules.Engine.Action.{Passes}
use td_sandboxed.Execution.Reservation.{Counter, stored, up, reserved_lots}
use td_sandboxed.Execution.Gate.{
  Adapter, Order, Answers, World, replies, snapshot, send_order_and_wait,
}
use td_sandboxed.Execution.Validator.{AccountState, validate_order, build_validation_context}
use td_sandboxed.Execution.Validator.Admission.{consistency-disarmed, send_order_and_wait-admitted}

abbrev account : AccountState ℤ
account = record {
  balance = some (Value.decimal (pos 10000000));
  equity = some (Value.decimal (pos 9990000));
  initial_balance = none;
  daily_pnl_percent = some (Value.decimal (negsuc 9));
  total_drawdown_percent = none;
  account_balance = none;
  requested_lots = none;
  current_position_lots = none;
  total_pnl_percent = none;
}

abbrev consistency : Consistency.ConsistencyRule ℤ
consistency = record { block_at = pos 3000; warn_at = pos 2000 ∷ [] }

consistency-disarmed_example :
    (r : RuleResult ℤ) × (Consistency.validate consistency
        (build_validation_context (pos 50) account)
      ≡ returned r)
    × (r.action ≡ RuleAction.allow)
consistency-disarmed_example = consistency-disarmed fixed-IsOrdered consistency (pos 50) account

abbrev adapter : Adapter
adapter = record {
  has_reservation = true;
  started = true;
  scripts = scripts;
  provider = some (λ lots. some 100);
  has_registry = true;
}

abbrev order : Order
order = record { volume = 50 }

abbrev world : World
world = record { key = stored scripts 30; position = 20; sent = [] }

abbrev answers : Answers
answers = record {
  has_risk_state = true;
  is_blocked = not (validate_order (init "a1" both true) true (pos 50) account).allowed;
  reserving = up;
  sending = replies true;
  tracked = some 70;
  releasing = up;
}

send_order_and_wait-admitted_example :
    ((send_order_and_wait adapter order answers world).1.sent ≡ 50 ∷ []) ↔ (
      (true ≡ true)
      × All (Passes (build_validation_context (pos 50) account)) both
      × (reserved_lots (stored scripts 30) + 50 + snapshot adapter true 20 ≤ 100))
send_order_and_wait-admitted_example =
    send_order_and_wait-admitted "a1" both true (pos 50) account adapter order answers world 100
      refl refl (refl, refl, ((λ lots. some 100), refl, refl))

-- 0.20 lots beside 0.10 in flight, under a cap of 0.30: the doubles add up to more, and the order is
-- refused.
abbrev tight : Adapter
tight = record adapter { provider = some (λ lots. some 30) }

boundary_refused :
    (send_order_and_wait tight
      (record { volume = 20 })
      (record answers { is_blocked = false })
      (record { key = stored scripts 10; position = 0; sent = [] })).1.sent
    ≡ []
unfolding send_order_and_wait td_sandboxed.Execution.Gate.try_reserve
    td_sandboxed.Execution.Reservation.reserve td_sandboxed.Execution.Reservation.atomic_reserve
boundary_refused = refl
