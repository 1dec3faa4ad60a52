-- ===== src/Orders/Lifecycle/Progress.antt =====
-- The state machine of an order moves forward only, and stops at its terminal states.
use td_sandboxed.Base.{
  ℕ, ◌+◌, ◌≤◌, ◌<◌, ◌≡◌, ◌↔◌, inl, inr, true, none, some, List, [], ◌∷◌, length, arith, Bool-cases,
}
use td_sandboxed.Orders.Lifecycle.{
  OrderState, pending, submitted, partially_filled, error, is_terminal, can_transition,
  transition_to, transitions,
}

-- How many transitions a state has before it at most.
abbrev pub rank : OrderState → ℕ
rank pending = 0
rank submitted = 1
rank partially_filled = 2
rank _ = 3

transition-rank : (s t : OrderState) → can_transition s t ≡ true → rank s < rank t
unfolding can_transition
transition-rank s t h = ground (arith, h)

rank_bound : (s : OrderState) → rank s ≤ 3
rank_bound s = ground arith

-- The states that is_terminal names are exactly those from which every transition raises.
pub is_terminal-stuck :
    (s : OrderState) → (is_terminal s ≡ true) ↔ ((t : OrderState) → transition_to s t ≡ none)
unfolding is_terminal transition_to can_transition
is_terminal-stuck s = (λ h t. ground (arith, h), λ h. ground (arith, h error))

-- Transitions that all succeed move the rank up by one each at least.
pub transitions-rank :
    (s t : OrderState) (news : List OrderState)
    → transitions s news ≡ some t
    → rank s + length news ≤ rank t
unfolding transitions transition_to
transitions-rank s t [] h = ground (arith, h)
transitions-rank s t (new ∷ news) h = elim (Bool-cases (can_transition s new)) [
  | inl e ↦ omega (
    arith,
    transition-rank s new e,
    transitions-rank new t news (rw (transitions, transition_to, e) at h),
  )
  | inr e ↦ ground (arith, rw (transitions, transition_to, e) at h)
]

-- A sequence of transitions of an order that all succeed has at most three of them.
pub transitions-length :
    (s t : OrderState) (news : List OrderState) → transitions s news ≡ some t → length news ≤ 3
transitions-length s t news h = omega (arith, transitions-rank s t news h, rank_bound t)
