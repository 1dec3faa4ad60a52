-- ===== src/Orders/Service/Failures.antt =====
-- How a call of execute_signal ends, for every answer of the bridge.
use td_sandboxed.Base.{
  ◌≡◌, refl, subst, inl, inr, true, false, String, Option, none, some, List, [], ◌∷◌, arith,
  Bool-cases,
}
use td_sandboxed.Base.Number.{Number}
use td_sandboxed.Orders.Lifecycle.{OrderState, transition_to, can_transition}
use td_sandboxed.Orders.Positions.{Position, Tracker, get_position}
use td_sandboxed.Orders.Service.Model.{
  SignalType, Signal, InternalOrder, Failure, timeout, value_error, filled, partially_filled,
  rejected, error, Answer, timed_out, failed, result, Service, Ending, order_returned, exception,
  member, discard, create_order, order_of_type, closing_order,
}
use td_sandboxed.Orders.Service.Handlers.{handle_result, handle_fill}
use td_sandboxed.Orders.Service.Execution.{
  execute_signal, waiting, is_sendable, conclude, ending_of, submitted_as, admit, is_order_pending,
}

member-discard : (id : String) (ids : List String) → member id (discard id ids) ≡ false
member-discard id [] = refl
member-discard id (x ∷ xs) = ground (arith, member-discard id xs)

module _ {F : Type 0} where
  -- How a call may end, for an answer of the bridge.
  abbrev pub IsSettled : Answer F → Ending F → Type 0
  IsSettled timed_out e = e ≡ exception timeout
  IsSettled failed e = e ≡ exception Failure.other
  IsSettled (result filled _ _) (order_returned o) = o.state ≡ OrderState.filled
  IsSettled (result filled _ _) (exception f) = f ≡ value_error
  IsSettled (result partially_filled _ _) (order_returned o) = o.state ≡ OrderState.submitted
  IsSettled (result partially_filled _ _) (exception f) = ⊥
  IsSettled (result _ _ _) (order_returned o) = o.state ≡ OrderState.rejected
  IsSettled (result _ _ _) (exception f) = ⊥

  -- Positions and trades are as before, unless the answer is a fill.
  abbrev pub IsUnmoved : Answer F → Service F → Service F → Type 0
  IsUnmoved (result filled _ _) s s' = Unit
  IsUnmoved _ s s' = (s'.tracker ≡ s.tracker) × (s'.trades ≡ s.trades)

  -- An order as `_create_order` makes it.
  abbrev IsNew : String → Option (InternalOrder F) → Type 0
  IsNew id none = Unit
  IsNew id (some o) = (o.order_id ≡ id) × (o.state ≡ OrderState.pending)

module _ {F : Type 0} ⦃n : Number F⦄ where
  closing-IsNew :
      (id : String) (signal : Signal) (account : String) (volume price : F)
      (stops : Option F × Option F) (p : Option (Position F))
      → IsNew id (closing_order id signal account volume price stops p)
  closing-IsNew id signal account volume price stops none = tt
  closing-IsNew id signal account volume price stops (some p) = (refl, refl)

  typed-IsNew :
      (t : SignalType) (id : String) (signal : Signal) (account : String) (volume price : F)
      (stops : Option F × Option F) (d : Tracker F)
      → IsNew id (order_of_type t id signal account volume price stops d)
  typed-IsNew SignalType.close id signal account volume price stops d =
      closing-IsNew id signal account volume price stops (get_position (account, signal.symbol) d)
  typed-IsNew SignalType.buy id signal account volume price stops d = (refl, refl)
  typed-IsNew SignalType.sell id signal account volume price stops d = (refl, refl)
  typed-IsNew SignalType.no_action id signal account volume price stops d = (refl, refl)

  create_order-IsNew :
      (id : String) (signal : Signal) (account : String) (volume price : F)
      (stops : Option F × Option F) (d : Tracker F)
      → IsNew id (create_order id signal account volume price stops d)
  unfolding create_order
  create_order-IsNew id signal account volume price stops d =
      typed-IsNew signal.signal_type id signal account volume price stops d

  -- A submitted order, answered.
  module _ (now : String) (audit : Option Failure) (o : InternalOrder F) (s : Service F) where
    filled-IsSettled :
        (price slippage : Option F) (failure : Option Failure) (o' : InternalOrder F)
        → o'.state ≡ OrderState.filled
        → IsSettled (result filled price slippage) (ending_of o' failure)
    unfolding transition_to can_transition
    filled-IsSettled price slippage none o' same = same
    filled-IsSettled price slippage (some f) o' same = simp same refl

    conclude-IsSettled :
        (answer : Answer F)
        → IsSettled answer
            (conclude now audit (record o { state = OrderState.submitted }) answer s).0
          × IsUnmoved answer s
              (conclude now audit (record o { state = OrderState.submitted }) answer s).1
    unfolding transition_to can_transition handle_result
    conclude-IsSettled timed_out = (refl, (refl, refl))
    conclude-IsSettled failed = (refl, (refl, refl))
    conclude-IsSettled (result filled price slippage) =
        let o' = record o {
          filled_at = now;
          fill_price = price;
          slippage = slippage;
          state = OrderState.filled;
        } in
        (filled-IsSettled price slippage (handle_fill o.signal_type audit o' s).1 o' refl, tt)
    conclude-IsSettled (result partially_filled price slippage) = (refl, (refl, refl))
    conclude-IsSettled (result rejected price slippage) = (refl, (refl, refl))
    conclude-IsSettled (result error price slippage) = (refl, (refl, refl))

  conclude-free :
      (now : String) (audit : Option Failure) (o : InternalOrder F) (answer : Answer F)
      (s : Service F)
      → is_order_pending o.order_id (conclude now audit o answer s).1 ≡ false
  unfolding is_order_pending
  conclude-free now audit o timed_out s = member-discard o.order_id s.pending_order_ids
  conclude-free now audit o failed s = member-discard o.order_id s.pending_order_ids
  conclude-free now audit o (result status price slippage) s =
      member-discard o.order_id
        (handle_result now audit o status price slippage s).1.0.pending_order_ids

  submitted-free :
      (now : String) (audit : Option Failure) (signal : Signal) (answer : Answer F)
      (others : Service F → Service F) (s : Service F) (o : InternalOrder F)
      (state : Option OrderState)
      → is_order_pending o.order_id (submitted_as now audit signal answer others s o state).1
        ≡ false
  unfolding is_order_pending
  submitted-free now audit signal answer others s o none =
      member-discard o.order_id (o.order_id ∷ s.pending_order_ids)
  submitted-free now audit signal answer others s o (some state) =
      elim (Bool-cases (is_sendable o)) [
        | inl sendable ↦ simp sendable (
            conclude-free now audit (record o { state = state }) answer
              (others (waiting o.order_id signal s)))
        | inr invalid ↦ simp invalid (
            conclude-free now audit (record o { state = state }) failed
              (waiting o.order_id signal s))
      ]

  module _ (now id : String) (audit : Option Failure) (signal : Signal) (account : String)
      (volume price : F) (stops : Option F × Option F) (answer : Answer F)
      (others : Service F → Service F) (s : Service F) where
    admitted-IsSettled :
        (created : Option (InternalOrder F)) (o : InternalOrder F)
        → IsNew id created
        → created ≡ some o
        → is_sendable o ≡ true
        → member id s.pending_order_ids ≡ false
        → IsSettled answer (admit now audit signal answer others s created).0
          × IsUnmoved answer
              (others (waiting id signal s))
              (admit now audit signal answer others s created).1
    unfolding transition_to can_transition
    admitted-IsSettled none o new made valid free = cc made
    admitted-IsSettled (some x) o (same, fresh) made valid free =
        let one : o ≡ x = cc made in
        let sendable : is_sendable x ≡ true = subst (λ y. is_sendable y ≡ true) one valid in
        simp (sendable, same, free, fresh)
          (conclude-IsSettled now audit (record x { order_id = id }) (others (waiting id signal s))
            answer)

    -- A signal for which a sendable order is created under an id that is not pending ends as the
    -- bridge answers: a timeout and a failure are raised, a rejection returns the order as
    -- REJECTED, and a fill returns it as FILLED or raises ValueError, whatever went wrong after
    -- the fill. A partial fill returns the order as SUBMITTED. Only a fill changes positions and
    -- trades.
    pub execute_signal-IsSettled :
        (o : InternalOrder F)
        → create_order id signal account volume price stops s.tracker ≡ some o
        → is_sendable o ≡ true
        → member id s.pending_order_ids ≡ false
        → IsSettled answer
            (execute_signal now id audit signal account volume price stops answer others s).0
          × IsUnmoved answer
              (others (waiting id signal s))
              (execute_signal now id audit signal account volume price stops answer others s).1
    unfolding execute_signal
    execute_signal-IsSettled o made valid free =
        admitted-IsSettled (create_order id signal account volume price stops s.tracker) o
          (create_order-IsNew id signal account volume price stops s.tracker) made valid free

    admitted-free :
        (created : Option (InternalOrder F))
        → IsNew id created
        → is_order_pending id s ≡ false
        → is_order_pending id (admit now audit signal answer others s created).1 ≡ false
    unfolding is_order_pending
    admitted-free none new free = free
    admitted-free (some o) (same, fresh) free =
        elim (Bool-cases (member o.order_id s.pending_order_ids)) [
          | inl there ↦ simp there free
          | inr absent ↦ simp absent (
              subst
                (λ x.
                  is_order_pending x
                    (submitted_as now audit signal answer others s o
                      (transition_to o.state OrderState.submitted)).1
                  ≡ false)
                same
                (submitted-free now audit signal answer others s o
                  (transition_to o.state OrderState.submitted)))
        ]

    -- An order id that is not pending before a call is not pending after it, however the call ends
    -- and whatever other calls do to the service while it waits.
    pub execute_signal-not_pending :
        is_order_pending id s ≡ false
        → is_order_pending id
            (execute_signal now id audit signal account volume price stops answer others s).1
          ≡ false
    unfolding execute_signal
    execute_signal-not_pending free =
        admitted-free (create_order id signal account volume price stops s.tracker)
          (create_order-IsNew id signal account volume price stops s.tracker) free
