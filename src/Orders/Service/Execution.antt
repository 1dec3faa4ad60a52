-- ===== src/Orders/Service/Execution.antt =====
-- orders/execution_service.py: execute_signal. What the bridge and the audit service answer and the
-- clock are arguments; what other calls do while this one waits is a function on the service.
use td_sandboxed.Base.{
  Bool, true, not, ◌&&◌, String, str_eq, Option, none, some, ◌∷◌, if◌then◌else◌,
}
use td_sandboxed.Base.Dict.{insert, erase}
use td_sandboxed.Base.Number.{Number}
use td_sandboxed.Orders.Lifecycle.{OrderState, transition_to}
use td_sandboxed.Orders.Trade.{closed_total}
use td_sandboxed.Orders.Service.Model.{
  Signal, InternalOrder, Failure, duplicate_order, no_position, timeout, value_error, Answer,
  timed_out, failed, result, Service, Ending, order_returned, exception, member, discard,
  create_order,
}
use td_sandboxed.Orders.Service.Handlers.{handle_result}

module _ {F : Type 0} ⦃n : Number F⦄ where
  abbrev pub failed_as : Failure → Option OrderState → Ending F
  failed_as f none = exception value_error
  failed_as f (some _) = exception f

  -- The two `except` clauses: the order goes to ERROR and the exception on; where the order cannot go
  -- to ERROR, the ValueError of `transition_to` is raised in its place.
  abbrev pub failed_order : InternalOrder F → Failure → Ending F
  failed_order o f = failed_as f (transition_to o.state OrderState.error)

  abbrev pub ending_of : InternalOrder F → Option Failure → Ending F
  ending_of o none = order_returned o
  ending_of o (some f) = failed_order o f

  -- The `finally` clause
  abbrev pub tidied : String → Service F → Service F
  tidied id s = record s {
    pending_order_ids = discard id s.pending_order_ids;
    signals_by_order = erase id s.signals_by_order;
  }

  -- What follows the answer of the bridge
  abbrev pub conclude :
      (now : String)
      → Option Failure
      → InternalOrder F
      → Answer F
      → Service F
      → Ending F × Service F
  conclude now audit o timed_out s = (failed_order o timeout, tidied o.order_id s)
  conclude now audit o failed s = (failed_order o Failure.other, tidied o.order_id s)
  conclude now audit o (result status fill_price slippage) s =
      let (o', (s', failure)) = handle_result now audit o status fill_price slippage s in
      (ending_of o' failure, tidied o.order_id s')

  -- The service while a call waits: the order is pending and its signal is stored.
  abbrev pub waiting : String → Signal → Service F → Service F
  waiting id signal s = record s {
    pending_order_ids = id ∷ s.pending_order_ids;
    signals_by_order = insert id signal s.signals_by_order;
  }

  abbrev pub is_positive_or_none : Option F → Bool
  is_positive_or_none none = true
  is_positive_or_none (some x) = n.lt (n.literal 0) x

  -- The checks of the message `Order` to the bridge, whose construction raises ValidationError
  -- where one fails.
  unfoldable pub is_sendable : InternalOrder F → Bool
  is_sendable o =
      not (str_eq o.account_id "")
      && not (str_eq o.symbol "")
      && n.lt (n.literal 0) o.volume
      && n.lt (n.literal 0) o.price
      && is_positive_or_none o.sl
      && is_positive_or_none o.tp
      && not (str_eq o.order_id "")

  abbrev pub submitted_as :
      (now : String)
      → Option Failure
      → Signal
      → Answer F
      → (Service F → Service F)
      → Service F
      → InternalOrder F
      → Option OrderState
      → Ending F × Service F
  submitted_as now audit signal answer others s o none =
      (failed_order o value_error, tidied o.order_id (waiting o.order_id signal s))
  submitted_as now audit signal answer others s o (some state) =
      let waiting_ = waiting o.order_id signal s in
      if is_sendable o
      then conclude now audit (record o { state = state }) answer (others waiting_)
      else conclude now audit (record o { state = state }) failed waiting_

  abbrev pub admit :
      (now : String)
      → Option Failure
      → Signal
      → Answer F
      → (Service F → Service F)
      → Service F
      → Option (InternalOrder F)
      → Ending F × Service F
  admit now audit signal answer others s none = (exception no_position, s)
  admit now audit signal answer others s (some o) =
      if member o.order_id s.pending_order_ids
      then (
        exception duplicate_order,
        record s { signals_by_order = insert o.order_id signal s.signals_by_order },
      )
      else submitted_as now audit signal answer others s o
          (transition_to o.state OrderState.submitted)

  -- `execute_signal`, where `others` is what happens while it waits for the bridge
  unfoldable pub execute_signal :
      (now id : String)
      → Option Failure
      → Signal
      → String
      → (volume price : F) (stops : Option F × Option F) → Answer F
      → (others : Service F → Service F) → Service F
      → Ending F × Service F
  unfolding create_order handle_result
  execute_signal now id audit signal account volume price stops answer others s =
      admit now audit signal answer others s
        (create_order id signal account volume price stops s.tracker)

  -- `get_total_pnl` without an account
  unfoldable pub get_total_pnl : Service F → F
  get_total_pnl s = closed_total (n.literal 0) s.trades

  -- `is_order_pending`
  unfoldable pub is_order_pending : String → Service F → Bool
  is_order_pending id s = member id s.pending_order_ids
