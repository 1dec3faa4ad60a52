-- ===== src/Samples/Accounts.antt =====
-- Two accounts, their risk states, and their profit and loss. A time is a number.
use td_sandboxed.Base.{
  String, str_eq, if◌then◌else◌, ℕ, ◌≡◌, ◌⊎◌, ◌↔◌, ◌≢◌, refl, Bool, true, false, String, str_eq,
  eq_iff, some, List, [], ◌∷◌, Outcome, returned, raised, if◌then◌else◌,
}
use td_sandboxed.Base.Int.{ℤ, pos, negsuc, ◌+ℤ◌}
use td_sandboxed.Base.Number.{AtMost}
use td_sandboxed.Samples.Fixed.{fixed, fixed-IsOrdered}
use td_sandboxed.Accounts.RiskState.{
  RiskState, fresh, record_trade, check_daily_loss_limit, Codec, to_dict, from_dict,
}
use td_sandboxed.Accounts.RiskState.Bookkeeping.{
  Update, equity, trade, updates, IsHighWater, updates-IsHighWater, from_dict-to_dict,
}
use td_sandboxed.Accounts.Registry.{Registry, state_for}
use td_sandboxed.Accounts.Manager.{Manager, active, paused, get_account_status, start_all_accounts}
use td_sandboxed.Accounts.Manager.Table.{violation, operate, is_allowed, operate-Follows}
use td_sandboxed.Accounts.Manager.Restart.{start_all_accounts-reactivates}
use td_sandboxed.Accounts.Isolation.{Service, on_trade_completed}
use td_sandboxed.Accounts.Isolation.Separation.{
  Event, trade_completed, IsUntouched, handle_all, handle_all-IsUntouched,
}
use td_sandboxed.Accounts.Isolation.Enforcement.{IsEnforced, on_trade_completed-IsEnforced}
use td_sandboxed.Accounts.SignalRouter
use td_sandboxed.Accounts.SignalRouter.{has, route_symbol, build_symbol_mapping, remove_account}
use td_sandboxed.Accounts.SignalRouter.Routing.{build_symbol_mapping-routes}
use td_sandboxed.Accounts.SignalRouter.Removal.{remove_account-routes}
use td_sandboxed.Base.Dict.{Dict}
use td_sandboxed.Accounts.PnlTracker
use td_sandboxed.Accounts.PnlTracker.{
  Tracker, Position, Fill, mark_each, on_tick, on_trade_executed,
}
use td_sandboxed.Accounts.PnlTracker.Equity
use td_sandboxed.Accounts.PnlTracker.Equity.{
  IsBalanced, on_tick-marks, refill-ignores_price, handle_all-IsBalanced,
}
use td_sandboxed.Accounts.PhasePromotion.{
  AccountPhase, FirmRegistry, Account, from_to, validate_phase_transition,
}
use td_sandboxed.Accounts.PhasePromotion.Legality.{IsLegal, validate_phase_transition-IsLegal}

abbrev start : RiskState ℤ ℕ
start = fresh 0

abbrev morning : List (Update ℤ ℕ)
morning = equity (pos 10000000) 1 ∷ trade (negsuc 49999) 2 ∷ equity (pos 9950000) 3 ∷ []

start-IsHighWater : IsHighWater start
unfolding td_sandboxed.Accounts.RiskState.drawdown_from_peak
start-IsHighWater = record { bounded = refl; measured = refl }

updates-IsHighWater_example :
    IsHighWater (updates morning start)
    × AtMost start.peak_equity (updates morning start).peak_equity
updates-IsHighWater_example =
    updates-IsHighWater fixed-IsOrdered morning start (refl, (tt, (refl, tt))) start-IsHighWater

-- Amounts and times that are 0 or 1, as texts.
abbrev parse_digit : String → Outcome Bool
parse_digit s =
    if str_eq s "0" then returned false else if str_eq s "1" then returned true else raised

abbrev print_digit : Bool → String
print_digit true = "1"
print_digit false = "0"

abbrev digit : Codec Bool
digit = record { print = print_digit; parse = parse_digit }

digit_back : (x : Bool) → digit.parse (digit.print x) ≡ returned x
digit_back true = refl
digit_back false = refl

abbrev digits : RiskState Bool Bool
digits = record {
  daily_pnl = true;
  daily_pnl_percent = false;
  current_equity = true;
  peak_equity = true;
  total_drawdown_percent = false;
  daily_starting_balance = true;
  last_updated = true;
}

from_dict-to_dict_example :
    from_dict digit digit false (to_dict digit digit digits) ≡ returned digits
from_dict-to_dict_example = from_dict-to_dict digit digit digit_back digit_back false digits

abbrev manager : Manager
manager = record {
  accounts = ("a1", true) ∷ ("a2", true) ∷ [];
  statuses = ("a1", active) ∷ ("a2", paused) ∷ [];
  tasks = "a1" ∷ [];
  alerts = [];
}

operate-Follows_example :
    (is_allowed
        (get_account_status "a1" manager)
        (get_account_status "a1" (operate violation "a1" manager).manager)
      ≡ true)
    × (get_account_status "a2" (operate violation "a1" manager).manager ≡ (
        if str_eq "a1" "a2"
        then get_account_status "a1" (operate violation "a1" manager).manager
        else get_account_status "a2" manager))
    × (((operate violation "a1" manager).is_raised ≡ false)
        ⊎ ((operate violation "a1" manager).manager.statuses ≡ manager.statuses))
operate-Follows_example = operate-Follows "a1" "a2" manager violation

start_all_accounts-reactivates_example :
    get_account_status "a2" (start_all_accounts manager) ≡ some active
start_all_accounts-reactivates_example = start_all_accounts-reactivates "a2" manager refl refl

abbrev based : RiskState ℤ ℕ
based = record start { daily_starting_balance = pos 10000000 }

abbrev registry : Registry ℤ ℕ
registry = record { managers = ("a1", based) ∷ ("a2", based) ∷ []; saved = []; violations = [] }

abbrev service : Service ℤ ℕ
service = record { registry = registry; accounts = manager }

a1-ne-a2 : ◌≢◌ {A = String} "a1" "a2"
a1-ne-a2 h = cc ((eq_iff "a1" "a2").1 h)

-- A loss of 6 percent, where 5 are allowed.
abbrev loss : Event ℤ ℕ
loss = trade_completed 4 "a1" (negsuc 599999) (pos 500)

handle_all-IsUntouched_example :
    IsUntouched ℤ ℕ "a2" service (handle_all (loss ∷ loss ∷ []) service)
handle_all-IsUntouched_example =
    handle_all-IsUntouched "a2" (loss ∷ loss ∷ []) service (a1-ne-a2, (a1-ne-a2, tt))

on_trade_completed-IsEnforced_example :
    IsEnforced "a1"
      (pos 500)
      active
      (check_daily_loss_limit
        (pos 500)
        (record_trade (negsuc 599999) 4 (state_for 4 "a1" registry))).0
      (check_daily_loss_limit
        (pos 500)
        (record_trade (negsuc 599999) 4 (state_for 4 "a1" registry))).1
      (record_trade (negsuc 599999) 4 (state_for 4 "a1" registry))
      []
      (on_trade_completed 4 "a1" (negsuc 599999) (pos 500) service)
on_trade_completed-IsEnforced_example =
    on_trade_completed-IsEnforced "a1" (pos 500) 4 (negsuc 599999) service active refl refl

-- The loss is a violation: the account is paused.
loss_pauses :
    (check_daily_loss_limit
      (pos 500)
      (record_trade (negsuc 599999) 4 (state_for 4 "a1" registry))).0
    ≡ true
unfolding check_daily_loss_limit record_trade state_for ◌+ℤ◌
loss_pauses = refl

abbrev gold : Position ℤ
gold = record {
  symbol = "XAUUSD";
  side = PnlTracker.buy;
  volume = pos 50;
  entry_price = pos 264000;
  current_price = pos 264000;
  unrealized_pnl = pos 0;
}

abbrev tracker : Tracker ℤ
tracker = record {
  balance = pos 10000000;
  positions = ("o1", gold) ∷ [];
  daily_realized_pnl = pos 0;
  current_equity = pos 10000000;
  reports = [];
}

abbrev refill : Fill ℤ
refill = record {
  order_id = "o1";
  symbol = "XAUUSD";
  action = PnlTracker.buy;
  volume = pos 50;
  fill_price = some (pos 265000);
  is_filled = true;
}

abbrev known_equity : RiskState ℤ ℕ
known_equity = record start { current_equity = pos 10000000 }

tracker-IsBalanced : IsBalanced 1 known_equity tracker
unfolding ◌+ℤ◌ PnlTracker.get_total_unrealized_pnl Equity.risk_after
tracker-IsBalanced = record { equity = refl; reported = refl; realized = refl }

abbrev day : List (Equity.Event ℤ)
day =
    Equity.tick "XAUUSD" (pos 264500) (pos 264520)
    ∷ Equity.execution refill
    ∷ Equity.closing "o1" (pos 25000)
    ∷ []

handle_all-IsBalanced_example : IsBalanced 1 known_equity (Equity.handle_all day tracker)
handle_all-IsBalanced_example = handle_all-IsBalanced 1 known_equity day tracker tracker-IsBalanced

abbrev challenge : AccountPhase
challenge = record { phase_id = "challenge"; allowed_transitions = "funded" ∷ [] }

abbrev funded : AccountPhase
funded = record { phase_id = "funded"; allowed_transitions = [] }

abbrev firms : FirmRegistry
firms = ("ftmo", ("swing", ("challenge", challenge) ∷ ("funded", funded) ∷ []) ∷ []) ∷ []

abbrev challenger : Account
challenger = record { firm_id = some "ftmo"; product_id = some "swing"; phase = some "challenge" }

validate_phase_transition-IsLegal_example :
    (validate_phase_transition firms challenger "funded" ≡ from_to challenge funded)
    ↔ IsLegal firms "ftmo" "swing" "challenge" "funded" challenge funded
validate_phase_transition-IsLegal_example =
    validate_phase_transition-IsLegal firms "funded" challenge funded challenger "ftmo" "swing"
      "challenge" refl refl refl

-- Upper case, of the texts that are used.
abbrev upper : String → String
upper text = if str_eq text "xauusd" then "XAUUSD" else text

abbrev subscribers : Dict SignalRouter.Account
subscribers =
    ("a1", record { is_active = true; symbols = "xauusd" ∷ [] })
    ∷ ("a2", record { is_active = true; symbols = [] })
    ∷ ("a3", record { is_active = false; symbols = [] })
    ∷ []

build_symbol_mapping-routes_example :
    has "a1" (route_symbol upper "XAUUSD" (build_symbol_mapping upper subscribers)) ≡ true
build_symbol_mapping-routes_example = build_symbol_mapping-routes upper "a1" "XAUUSD" subscribers

remove_account-routes_example :
    has "a2"
      (route_symbol upper "EURUSD" (remove_account "a2" (build_symbol_mapping upper subscribers)))
    ≡ false
remove_account-routes_example = remove_account-routes upper "a2" "a2" "EURUSD" subscribers
