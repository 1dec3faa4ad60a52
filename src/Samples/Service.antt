-- ===== src/Samples/Service.antt =====
-- A buy signal for gold that fills, and its close.
use td_sandboxed.Base.{◌≡◌, refl, false, none, some, [], ◌∷◌, ◌++◌}
use td_sandboxed.Base.Int.{ℤ, pos}
use td_sandboxed.Samples.Fixed.{fixed}
use td_sandboxed.Orders.Lifecycle.{OrderState}
use td_sandboxed.Orders.Positions.{OrderSide, entry_price_of}
use td_sandboxed.Orders.Trade.{close as close_trade, price_diff}
use td_sandboxed.Orders.Service.Model.{
  SignalType, Signal, InternalOrder, timeout, filled, Answer, result, Service, create_order,
  new_order,
}
use td_sandboxed.Orders.Service.Handlers.{handle_entry_fill, handle_close_fill, entry_trade}
use td_sandboxed.Orders.Service.Execution.{execute_signal, waiting, get_total_pnl, is_order_pending}
use td_sandboxed.Orders.Service.Failures.{
  IsSettled, IsUnmoved, execute_signal-IsSettled, execute_signal-not_pending,
}
use td_sandboxed.Orders.Service.Fills.{handle_close_fill-handle_entry_fill}

abbrev idle : Service ℤ
idle = record { tracker = []; trades = []; pending_order_ids = "o0" ∷ []; signals_by_order = [] }

abbrev signal : Signal
signal = record { signal_type = SignalType.buy; symbol = "XAUUSD"; strategy_name = "ma_cross" }

abbrev fill : Answer ℤ
fill = result filled (some (pos 264012)) (some (pos 12))

abbrev nothing_else : Service ℤ → Service ℤ
nothing_else s = s

-- The order fills and the audit service times out.
execute_signal-IsSettled_example :
    IsSettled fill
      (execute_signal "t1" "o1"
        (some timeout)
        signal
        "a1"
        (pos 50)
        (pos 264000)
        (none, none)
        fill
        nothing_else
        idle).0
    × IsUnmoved fill
        (nothing_else (waiting "o1" signal idle))
        (execute_signal "t1" "o1"
          (some timeout)
          signal
          "a1"
          (pos 50)
          (pos 264000)
          (none, none)
          fill
          nothing_else
          idle).1
unfolding create_order td_sandboxed.Orders.Service.Execution.is_sendable
execute_signal-IsSettled_example =
    execute_signal-IsSettled "t1" "o1" (some timeout) signal "a1" (pos 50) (pos 264000) (none, none)
      fill nothing_else idle
      (new_order "o1" signal "a1" OrderSide.buy (pos 50) (pos 264000) (none, none)) refl refl refl

execute_signal-not_pending_example :
    is_order_pending "o1"
      (execute_signal "t1" "o1" none signal "a1"
        (pos 50)
        (pos 264000)
        (none, none)
        fill
        nothing_else
        idle).1
    ≡ false
unfolding is_order_pending
execute_signal-not_pending_example =
    execute_signal-not_pending "t1" "o1" none signal "a1" (pos 50) (pos 264000) (none, none) fill
      nothing_else idle refl

abbrev entry : InternalOrder ℤ
entry = record {
  order_id = "o1";
  account_id = "a1";
  symbol = "XAUUSD";
  action = OrderSide.buy;
  volume = pos 50;
  price = pos 264000;
  sl = none;
  tp = none;
  signal_type = SignalType.buy;
  state = OrderState.filled;
  filled_at = "t1";
  fill_price = some (pos 264012);
  slippage = some (pos 12);
}

abbrev exit : InternalOrder ℤ
exit = record entry {
  order_id = "o2";
  action = OrderSide.sell;
  signal_type = SignalType.close;
  filled_at = "t2";
  fill_price = some (pos 265012);
}

handle_close_fill-handle_entry_fill_example :
    ((handle_entry_fill none entry idle).1 ≡ none)
    × ((handle_close_fill none exit (handle_entry_fill none entry idle).0).1 ≡ none)
    × ((handle_close_fill none exit (handle_entry_fill none entry idle).0).0.tracker ≡ idle.tracker)
    × ((handle_close_fill none exit (handle_entry_fill none entry idle).0).0.trades
        ≡ idle.trades ++ (close_trade (pos 265012) "t2" (some (pos 12)) (entry_trade entry) ∷ []))
    × (get_total_pnl (handle_close_fill none exit (handle_entry_fill none entry idle).0).0
        ≡ fixed.add
            (get_total_pnl idle)
            (fixed.mul (price_diff OrderSide.buy (pos 264012) (pos 265012)) (pos 50)))
unfolding td_sandboxed.Orders.Positions.get_position
handle_close_fill-handle_entry_fill_example =
    handle_close_fill-handle_entry_fill entry exit idle refl tt refl
