-- ===== src/Orders/Lifecycle.antt =====
-- orders/order.py: OrderState, _VALID_TRANSITIONS and InternalOrder.transition_to.
pub mod Progress
use td_sandboxed.Base.{◌≡◌, Bool, true, false, Option, none, some, List, [], ◌∷◌, if◌then◌else◌}

pub data OrderState : Type 0 where
  pending submitted filled partially_filled rejected cancelled error : OrderState

-- `OrderState.is_terminal`
unfoldable pub is_terminal : OrderState → Bool
is_terminal filled = true
is_terminal rejected = true
is_terminal cancelled = true
is_terminal error = true
is_terminal _ = false

-- `can_transition_to`, with the table `_VALID_TRANSITIONS`
unfoldable pub can_transition : OrderState → OrderState → Bool
can_transition pending submitted = true
can_transition pending cancelled = true
can_transition pending error = true
can_transition submitted filled = true
can_transition submitted partially_filled = true
can_transition submitted rejected = true
can_transition submitted cancelled = true
can_transition submitted error = true
can_transition partially_filled filled = true
can_transition partially_filled cancelled = true
can_transition partially_filled error = true
can_transition _ _ = false

-- `transition_to`: the new state, or none for the ValueError that leaves the state as it is.
unfoldable pub transition_to : OrderState → OrderState → Option OrderState
transition_to state new = if can_transition state new then some new else none

-- Transitions one after the other, to the first that raises.
unfoldable pub transitions : OrderState → List OrderState → Option OrderState
transitions state [] = some state
transitions state (new ∷ news) = elim (transition_to state new) [
  | none ↦ none
  | some next ↦ transitions next news
]
