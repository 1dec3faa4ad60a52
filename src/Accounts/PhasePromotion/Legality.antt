-- ===== src/Accounts/PhasePromotion/Legality.antt =====
-- Which promotions succeed.
use td_sandboxed.Base.{
  ◌≡◌, ◌↔◌, inl, inr, true, false, String, str_eq, Option, none, some, arith, Bool-cases,
}
use td_sandboxed.Accounts.PhasePromotion.{
  AccountPhase, FirmRegistry, Account, resolve, from_to, member, bound, resolved, of_bound,
  validate_phase_transition,
}

-- The target is another phase, both phases are in the registry under the account's firm and product,
-- and the current one declares the transition.
pub record IsLegal (registry : FirmRegistry) (firm product phase target_id : String)
    (p q : AccountPhase) : Type 0 where
  pub moves : str_eq target_id phase ≡ false
  pub current : resolve registry firm product phase ≡ some p
  pub target : resolve registry firm product target_id ≡ some q
  pub allowed : member target_id p.allowed_transitions ≡ true

resolved-from_to :
    (target_id : String) (x y : Option AccountPhase) (p q : AccountPhase)
    → resolved target_id x y ≡ from_to p q
    → (x ≡ some p) × (y ≡ some q) × (member target_id p.allowed_transitions ≡ true)
resolved-from_to target_id none y p q h = cc h
resolved-from_to target_id (some x) none p q h = cc h
resolved-from_to target_id (some x) (some y) p q h = ground arith

module _ (registry : FirmRegistry) (target_id : String) (p q : AccountPhase) where
  -- A promotion returns the two phases exactly if it is legal.
  of_bound-from_to :
      (firm product phase : String)
      → (of_bound registry target_id (some firm) (some product) (some phase) ≡ from_to p q)
        ↔ IsLegal registry firm product phase target_id p q
  of_bound-from_to firm product phase = elim (Bool-cases (str_eq target_id phase)) [
    | inl same ↦ (λ h. cc (rw same at h), λ h. cc (h.moves, same))
    | inr moves ↦ (
      λ h.
          let (x, y, allowed) =
            resolved-from_to target_id (resolve registry firm product phase)
              (resolve registry firm product target_id) p q (rw moves at h) in
          record { moves = moves; current = x; target = y; allowed = allowed },
      λ h. rw (h.moves, h.current, h.target, h.allowed),
    )
  ]

  -- For an account with a firm, a product and a phase, the check returns the current and the
  -- target phase exactly if the target is another phase, the registry has both for the firm and
  -- product, and the current phase declares the transition.
  pub validate_phase_transition-IsLegal :
      (account : Account) (firm product phase : String)
      → bound account.firm_id ≡ some firm
      → bound account.product_id ≡ some product
      → bound account.phase ≡ some phase
      → (validate_phase_transition registry account target_id ≡ from_to p q)
        ↔ IsLegal registry firm product phase target_id p q
  unfolding validate_phase_transition
  validate_phase_transition-IsLegal account firm product phase f g h =
      simp (f, g, h) (of_bound-from_to firm product phase)
