-- ===== src/Orders/Service/Handlers.antt =====
-- orders/execution_service.py: _handle_result, _handle_entry_fill and _handle_close_fill. The writes
-- to the database that nobody waits for are left out.
use td_sandboxed.Base.{String, Option, none, some, List, [], ◌∷◌, ◌++◌}
use td_sandboxed.Base.Dict.{erase}
use td_sandboxed.Base.Number.{Number}
use td_sandboxed.Orders.Lifecycle.{OrderState, transition_to}
use td_sandboxed.Orders.Positions.{
  Position, FilledOrder, Tracker, open_position, close_position, entry_price_of,
}
use td_sandboxed.Orders.Trade.{Trade, close as close_trade, calculate_pnl, close_by_order_id}
use td_sandboxed.Orders.Service.Model.{
  SignalType, InternalOrder, Failure, value_error, OrderStatus, filled, partially_filled, Service,
}

module _ {F : Type 0} ⦃n : Number F⦄ where
  abbrev pub filled_order : InternalOrder F → FilledOrder F
  filled_order o = record {
    order_id = o.order_id;
    account_id = o.account_id;
    symbol = o.symbol;
    action = o.action;
    volume = o.volume;
    fill_price = o.fill_price;
    price = o.price;
    entry_time = o.filled_at;
  }

  abbrev pub entry_trade : InternalOrder F → Trade F
  entry_trade o = record {
    order_id = o.order_id;
    account_id = o.account_id;
    symbol = o.symbol;
    side = o.action;
    quantity = o.volume;
    entry_price = entry_price_of o.fill_price o.price;
    entry_time = o.filled_at;
    exit_price = none;
    exit_time = none;
    pnl_dollars = none;
    pnl_percent = none;
    slippage = o.slippage;
  }

  -- What follows `open_position`; `audit` is the exception of the audit service, if there is one.
  abbrev pub opened :
      Option Failure
      → InternalOrder F
      → Service F
      → Option (Position F × Tracker F)
      → Service F × Option Failure
  opened audit o s none = (s, some value_error)
  opened audit o s (some (p, tracker)) = (
    record s {
      tracker = tracker;
      trades = s.trades ++ (entry_trade o ∷ []);
      signals_by_order = erase o.order_id s.signals_by_order;
    },
    audit,
  )

  -- `_handle_entry_fill`
  unfoldable pub handle_entry_fill :
      Option Failure → InternalOrder F → Service F → Service F × Option Failure
  handle_entry_fill audit o s = opened audit o s (open_position (filled_order o) s.tracker)

  abbrev pub fallback_trade : InternalOrder F → (exit_price : F) → Position F → Trade F
  fallback_trade o exit_price p =
      let (dollars, percent) = calculate_pnl p.side p.entry_price p.quantity exit_price in
      record {
        order_id = p.order_id;
        account_id = o.account_id;
        symbol = o.symbol;
        side = p.side;
        quantity = p.quantity;
        entry_price = p.entry_price;
        entry_time = p.entry_time;
        exit_price = some exit_price;
        exit_time = some o.filled_at;
        pnl_dollars = some dollars;
        pnl_percent = some percent;
        slippage = o.slippage;
      }

  abbrev pub trades_or : List (Trade F) → Option (List (Trade F)) → List (Trade F)
  trades_or appended none = appended
  trades_or appended (some updated) = updated

  -- What follows `close_position`
  abbrev pub closed_position :
      Option Failure
      → InternalOrder F
      → Service F
      → Option (Position F)
      → Service F × Option Failure
  closed_position audit o s none = (s, none)
  closed_position audit o s (some p) =
      let exit_price = entry_price_of o.fill_price o.price in
      let trades =
        trades_or (s.trades ++ (fallback_trade o exit_price p ∷ []))
          (close_by_order_id p.order_id (close_trade exit_price o.filled_at o.slippage) s.trades) in
      (record s { trades = trades }, audit)

  -- `_handle_close_fill`
  unfoldable pub handle_close_fill :
      Option Failure → InternalOrder F → Service F → Service F × Option Failure
  unfolding close_by_order_id close_trade
  handle_close_fill audit o s =
      let (closed, tracker) = close_position (o.account_id, o.symbol) s.tracker in
      closed_position audit o (record s { tracker = tracker }) closed

  abbrev pub handle_fill :
      SignalType → Option Failure → InternalOrder F → Service F → Service F × Option Failure
  handle_fill SignalType.close audit o s = handle_close_fill audit o s
  handle_fill _ audit o s = handle_entry_fill audit o s

  abbrev pub entered :
      InternalOrder F
      → Service F
      → (InternalOrder F → Service F × Option Failure)
      → Option OrderState
      → InternalOrder F × (Service F × Option Failure)
  entered o s next none = (o, (s, some value_error))
  entered o s next (some state) = let o' = record o { state = state } in (o', next o')

  -- A change of state before `next`, which a bad transition keeps from running
  abbrev pub in_state :
      OrderState
      → InternalOrder F
      → Service F
      → (InternalOrder F → Service F × Option Failure)
      → InternalOrder F × (Service F × Option Failure)
  in_state new o s next = entered o s next (transition_to o.state new)

  -- `_handle_result`: the order, the service, and the exception that is raised, if any
  unfoldable pub handle_result :
      (now : String)
      → Option Failure
      → InternalOrder F
      → OrderStatus
      → (fill_price slippage : Option F) → Service F
      → InternalOrder F × (Service F × Option Failure)
  unfolding handle_entry_fill handle_close_fill
  handle_result now audit o filled fill_price slippage s =
      let o' = record o { filled_at = now; fill_price = fill_price; slippage = slippage } in
      in_state OrderState.filled o' s (λ x. handle_fill x.signal_type audit x s)
  handle_result now audit o partially_filled fill_price slippage s = (o, (s, none))
  handle_result now audit o _ fill_price slippage s =
      in_state OrderState.rejected o s (λ x. (s, none))
