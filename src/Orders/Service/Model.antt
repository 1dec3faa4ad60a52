-- ===== src/Orders/Service/Model.antt =====
-- orders/execution_service.py: the state of the service, and the order of a signal (`_create_order`).
-- The random order id is an argument.
use td_sandboxed.Base.{
  Bool, true, false, String, str_eq, Option, none, some, List, [], ◌∷◌, if◌then◌else◌,
}
use td_sandboxed.Base.Dict.{Dict}
use td_sandboxed.Base.Number.{Number}
use td_sandboxed.Orders.Lifecycle.{OrderState}
use td_sandboxed.Orders.Positions.{OrderSide, Position, Tracker, get_position}
use td_sandboxed.Orders.Trade.{Trade}

-- orders/signal.py; `no_action` is NONE.
pub data SignalType : Type 0 where
  buy sell close no_action : SignalType

pub record Signal : Type 0 where
  pub signal_type : SignalType
  pub symbol : String
  pub strategy_name : String

-- `InternalOrder`, without the fields that only the logs read
pub record InternalOrder (F : Type 0) : Type 0 where
  pub order_id : String
  pub account_id : String
  pub symbol : String
  pub action : OrderSide
  pub volume : F
  pub price : F
  pub sl : Option F
  pub tp : Option F
  pub signal_type : SignalType
  pub state : OrderState
  pub filled_at : String
  pub fill_price : Option F
  pub slippage : Option F

-- The exceptions: `value_error` is that of a bad transition and of a position that is there already.
pub data Failure : Type 0 where
  duplicate_order no_position timeout value_error other : Failure

pub data OrderStatus : Type 0 where
  filled partially_filled rejected error : OrderStatus

-- What the bridge answers to an order; `failed` is an exception on the way.
pub data Answer (F : Type 0) : Type 0 where
  timed_out failed : Answer F
  result : OrderStatus → (fill_price slippage : Option F) → Answer F

pub record Service (F : Type 0) : Type 0 where
  pub tracker : Tracker F
  pub trades : List (Trade F)
  pub pending_order_ids : List String
  pub signals_by_order : Dict Signal

-- How a call ends.
pub data Ending (F : Type 0) : Type 0 where
  order_returned : InternalOrder F → Ending F
  exception : Failure → Ending F

abbrev pub opposite : OrderSide → OrderSide
opposite OrderSide.buy = OrderSide.sell
opposite OrderSide.sell = OrderSide.buy

abbrev pub member : String → List String → Bool
member a [] = false
member a (b ∷ bs) = if str_eq b a then true else member a bs

abbrev pub discard : String → List String → List String
discard a [] = []
discard a (b ∷ bs) = let rest = discard a bs in if str_eq b a then rest else b ∷ rest

module _ {F : Type 0} ⦃n : Number F⦄ where
  abbrev pub new_order :
      String
      → Signal
      → String
      → OrderSide
      → (volume price : F) (stops : Option F × Option F) → InternalOrder F
  new_order id signal account action volume price stops = record {
    order_id = id;
    account_id = account;
    symbol = signal.symbol;
    action = action;
    volume = volume;
    price = price;
    sl = stops.0;
    tp = stops.1;
    signal_type = signal.signal_type;
    state = OrderState.pending;
    filled_at = "";
    fill_price = none;
    slippage = none;
  }

  abbrev pub closing_order :
      String
      → Signal
      → String
      → (volume price : F) (stops : Option F × Option F) → Option (Position F)
      → Option (InternalOrder F)
  closing_order id signal account volume price stops none = none
  closing_order id signal account volume price stops (some p) = some (
      new_order id signal account (opposite p.side)
        (if n.eq volume (n.literal 0) then p.quantity else volume) price stops)

  abbrev pub order_of_type :
      SignalType
      → String
      → Signal
      → String
      → (volume price : F) (stops : Option F × Option F) → Tracker F
      → Option (InternalOrder F)
  order_of_type SignalType.close id signal account volume price stops tracker =
      closing_order id signal account volume price stops
        (get_position (account, signal.symbol) tracker)
  order_of_type SignalType.buy id signal account volume price stops tracker =
      some (new_order id signal account OrderSide.buy volume price stops)
  order_of_type _ id signal account volume price stops tracker =
      some (new_order id signal account OrderSide.sell volume price stops)

  -- `_create_order`: none for NoPositionError
  unfoldable pub create_order :
      String
      → Signal
      → String
      → (volume price : F) (stops : Option F × Option F) → Tracker F
      → Option (InternalOrder F)
  create_order id signal account volume price stops tracker =
      order_of_type signal.signal_type id signal account volume price stops tracker
