-- ===== src/Accounts/PnlTracker.antt =====
-- accounts/pnl_tracker.py: PnLTracker, the positions of an account and its equity. What it tells the
-- risk registry and saves in Redis is kept as the list of equities and trades that it reports.
pub mod Equity
use td_sandboxed.Base.{
  ℕ, ◌≡◌, Bool, true, false, not, String, str_eq, Option, none, some, List, [], ◌∷◌, ◌||◌, length,
  if◌then◌else◌,
}
use td_sandboxed.Base.Dict.{Dict, lookup, insert, erase}
use td_sandboxed.Base.Number.{Number}
use td_sandboxed.Accounts.RiskState.{RiskState}

pub data OrderSide : Type 0 where
  buy sell : OrderSide

pub record Position (F : Type 0) : Type 0 where
  pub symbol : String
  pub side : OrderSide
  pub volume : F
  pub entry_price : F
  pub current_price : F
  pub unrealized_pnl : F

-- A call of `update_account_equity` or of `record_account_trade` of the risk registry.
pub data Report (F : Type 0) : Type 0 where
  equity_report trade_report : F → Report F

pub record Tracker (F : Type 0) : Type 0 where
  pub balance : F
  pub positions : Dict (Position F)
  pub daily_realized_pnl : F
  pub current_equity : F
  pub reports : List (Report F)

-- What `on_trade_executed` reads of an order and its result, with numbers as decimals.
pub record Fill (F : Type 0) : Type 0 where
  pub order_id : String
  pub symbol : String
  pub action : OrderSide
  pub volume : F
  pub fill_price : Option F
  pub is_filled : Bool

module _ {F : Type 0} ⦃n : Number F⦄ where
  -- `get_multiplier`
  abbrev pub get_multiplier : String → F
  get_multiplier symbol = n.literal 1

  -- `__init__`
  abbrev pub initial : F → Tracker F
  initial balance = record {
    balance = balance;
    positions = [];
    daily_realized_pnl = n.literal 0;
    current_equity = balance;
    reports = [];
  }

  abbrev pub has_symbol : String → Dict (Position F) → Bool
  has_symbol symbol [] = false
  has_symbol symbol ((_, p) ∷ d) = str_eq p.symbol symbol || has_symbol symbol d

  -- `has_position_for_symbol`
  unfoldable pub has_position_for_symbol : String → Tracker F → Bool
  has_position_for_symbol symbol t = has_symbol symbol t.positions

  abbrev pub exposure_from : F → Dict (Position F) → F
  exposure_from total [] = total
  exposure_from total ((_, p) ∷ d) =
      exposure_from (n.add total (n.mul (n.mul p.volume p.entry_price) (get_multiplier p.symbol))) d

  -- `get_total_exposure`
  unfoldable pub get_total_exposure : Tracker F → F
  get_total_exposure t = exposure_from (n.literal 0) t.positions

  abbrev pub pnl_of : OrderSide → F → F → F → F → F
  pnl_of buy entry price volume multiplier = n.mul (n.mul (n.sub price entry) volume) multiplier
  pnl_of sell entry price volume multiplier = n.mul (n.mul (n.sub entry price) volume) multiplier

  -- `calculate_unrealized_pnl`
  unfoldable pub calculate_unrealized_pnl : Position F → F → F
  calculate_unrealized_pnl p price =
      pnl_of p.side p.entry_price price p.volume (get_multiplier p.symbol)

  abbrev pub unrealized_from : F → Dict (Position F) → F
  unrealized_from total [] = total
  unrealized_from total ((_, p) ∷ d) = unrealized_from (n.add total p.unrealized_pnl) d

  -- `_get_total_unrealized_pnl`: Python's `sum` adds from 0.
  unfoldable pub get_total_unrealized_pnl : Dict (Position F) → F
  get_total_unrealized_pnl d = unrealized_from (n.literal 0) d

  -- `_recalculate_equity`, and the report of the equity that follows each call of it
  unfoldable pub recalculate_equity : Tracker F → Tracker F
  unfolding get_total_unrealized_pnl
  recalculate_equity t =
      let equity = n.add t.balance (get_total_unrealized_pnl t.positions) in
      record t { current_equity = equity; reports = equity_report equity ∷ t.reports }

  abbrev pub mark_price : OrderSide → (bid ask : F) → F
  mark_price buy bid ask = bid
  mark_price sell bid ask = ask

  abbrev pub marked : (bid ask : F) → Position F → Position F
  marked bid ask p =
      let price = mark_price p.side bid ask in
      record p { current_price = price; unrealized_pnl = calculate_unrealized_pnl p price }

  abbrev pub mark_each : String → (bid ask : F) → Dict (Position F) → Dict (Position F)
  mark_each symbol bid ask [] = []
  mark_each symbol bid ask ((k, p) ∷ d) =
      (k, if str_eq p.symbol symbol then marked bid ask p else p) ∷ mark_each symbol bid ask d

  -- `on_tick`
  unfoldable pub on_tick : String → (bid ask : F) → Tracker F → Tracker F
  unfolding has_position_for_symbol calculate_unrealized_pnl recalculate_equity
  on_tick symbol bid ask t =
      if has_position_for_symbol symbol t
      then recalculate_equity (record t { positions = mark_each symbol bid ask t.positions })
      else t

  -- `fill_price or 0`
  abbrev pub price_of : Option F → F
  price_of none = n.literal 0
  price_of (some price) = price

  abbrev pub filled_position : Fill F → Option (Position F) → Position F
  filled_position f (some p) = record p { volume = n.add p.volume f.volume }
  filled_position f none = record {
    symbol = f.symbol;
    side = f.action;
    volume = f.volume;
    entry_price = price_of f.fill_price;
    current_price = price_of f.fill_price;
    unrealized_pnl = n.literal 0;
  }

  -- `on_trade_executed`
  unfoldable pub on_trade_executed : Fill F → Tracker F → Tracker F
  unfolding recalculate_equity
  on_trade_executed f t =
      let p = filled_position f (lookup f.order_id t.positions) in
      if f.is_filled
      then recalculate_equity (record t { positions = insert f.order_id p t.positions })
      else t

  abbrev pub closed : String → F → Option (Position F) → Tracker F → Tracker F
  closed id realized_pnl none t = t
  closed id realized_pnl (some p) t = recalculate_equity (record t {
    positions = erase id t.positions;
    daily_realized_pnl = n.add t.daily_realized_pnl realized_pnl;
    balance = n.add t.balance realized_pnl;
    reports = trade_report realized_pnl ∷ t.reports;
  })

  -- `on_position_closed`, which only logs the price
  unfoldable pub on_position_closed : String → F → Tracker F → Tracker F
  unfolding recalculate_equity
  on_position_closed id realized_pnl t = closed id realized_pnl (lookup id t.positions) t

  -- `reset_daily`
  unfoldable pub reset_daily : F → Tracker F → Tracker F
  reset_daily starting_balance t = record t {
    daily_realized_pnl = n.literal 0;
    balance = starting_balance;
  }

-- `PnLMetrics`
pub record Metrics (F : Type 0) : Type 0 where
  pub current_equity : F
  pub balance : F
  pub unrealized_pnl : F
  pub daily_pnl : F
  pub daily_pnl_percent : F
  pub total_drawdown_percent : F
  pub open_positions_count : ℕ

module _ {F T : Type 0} ⦃n : Number F⦄ where
  abbrev pub starting_balance : Tracker F → Option (RiskState F T) → F
  starting_balance t none = t.balance
  starting_balance t (some s) = s.daily_starting_balance

  abbrev pub drawdown : Option (RiskState F T) → F
  drawdown none = n.literal 0
  drawdown (some s) = s.total_drawdown_percent

  -- `get_pnl_metrics`, with the account's risk state if the registry has one
  unfoldable pub get_pnl_metrics : Option (RiskState F T) → Tracker F → Metrics F
  unfolding get_total_unrealized_pnl
  get_pnl_metrics risk t =
      let unrealized = get_total_unrealized_pnl t.positions in
      let daily = n.add t.daily_realized_pnl unrealized in
      let start = starting_balance t risk in
      record {
        current_equity = t.current_equity;
        balance = t.balance;
        unrealized_pnl = unrealized;
        daily_pnl = daily;
        daily_pnl_percent =
            if n.lt (n.literal 0) start
            then n.mul (n.div daily start) (n.literal 100)
            else n.literal 0;
        total_drawdown_percent = drawdown risk;
        open_positions_count = length t.positions;
      }
