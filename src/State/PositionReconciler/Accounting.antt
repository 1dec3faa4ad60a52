-- ===== src/State/PositionReconciler/Accounting.antt =====
-- What a reconciliation of state/position_reconciler.py reports and saves.
use td_sandboxed.Base.{
  ℕ, ◌+◌, ◌≤◌, Bool, true, false, String, some, List, length, Outcome, returned, >>=-eq-returned,
  returned-injective, Bool-cases, ◌≡◌, refl, ap, ◌∙◌, inl, inr, arith, ltb,
}
use td_sandboxed.Base.Number.{Number}
use td_sandboxed.State.Discrepancy.{
  orphan_position, side_mismatch, LocalPosition, Mt5Position, Discrepancy, count_type,
}
use td_sandboxed.State.Matching.{match_positions}
use td_sandboxed.State.Matching.Tally.{match_positions-IsTally}
use td_sandboxed.State.PositionReconciler.{
  Reconciliation, has_critical_discrepancies, concluded, reconcile_account, apply_each,
}

module _ {F : Type 0} ⦃n : Number F⦄ (decimal : String → Outcome F) where
  uncritical-few :
      (ds : List (Discrepancy F)) (ps : List LocalPosition) (ms : List (Mt5Position F))
      → has_critical_discrepancies decimal ds ps ms ≡ returned false
      → (count_type side_mismatch ds ≡ 0) × (count_type orphan_position ds ≤ 3)
  unfolding has_critical_discrepancies
  uncritical-few ds ps ms h = elim (Bool-cases (ltb 0 (count_type side_mismatch ds))) [
    | inl sides ↦ ground (arith, (rw sides at h))
    | inr no_side ↦ elim (Bool-cases (ltb 3 (count_type orphan_position ds))) [
      | inl many ↦ ground (arith, (rw (no_side, many) at h))
      | inr few ↦ (ground (arith, no_side), ground (arith, few))
    ]
  ]

  saved-uncritical :
      (account_id : String) (verified : ℕ) (ds : List (Discrepancy F)) (critical : Bool)
      (reconciled positions : List LocalPosition)
      → (concluded account_id verified ds critical reconciled).saved ≡ some positions
      → critical ≡ false
  saved-uncritical account_id verified ds true reconciled positions h = ground arith
  saved-uncritical account_id verified ds false reconciled positions h = refl

  -- When a reconciliation against the positions of MT5 returns and saves positions, its counters
  -- account for each position of the snapshot and of MT5 once: verified, updated and removed sum
  -- to the snapshot, and verified, updated and added to MT5. No discrepancy is then a side
  -- mismatch, and the counter of removals, one for each orphan, is at most three.
  pub reconcile_account-IsAccounted :
      (str : F → String) (account_id : String) (ms : List (Mt5Position F)) (ps : List LocalPosition)
      (r : Reconciliation F) (positions : List LocalPosition)
      → reconcile_account decimal str account_id (inr ms) ps ≡ returned r
      → r.saved ≡ some positions
      → (r.result.positions_verified + r.result.positions_updated + r.result.positions_removed
          ≡ length ps)
        × (r.result.positions_verified + r.result.positions_updated + r.result.positions_added
            ≡ length ms)
        × (count_type side_mismatch r.result.discrepancies ≡ 0)
        × (r.result.positions_removed ≤ 3)
  unfolding reconcile_account
  reconcile_account-IsAccounted str account_id ms ps r positions h saved =
      let (x, matched, next) = >>=-eq-returned (match_positions decimal account_id ps ms) _ h in
      let (critical, judged, last) =
        >>=-eq-returned (has_critical_discrepancies decimal x.1 ps ms) _ next in
      let same = returned-injective _ _ last in
      let uncritical =
        saved-uncritical account_id (length x.0) x.1 critical (apply_each str ms x.1 ps) positions
          (ap (λ y. y.saved) same ∙ saved) in
      let few = uncritical-few x.1 ps ms (judged ∙ ap (λ b. returned b) uncritical) in
      let tally = match_positions-IsTally decimal account_id ps ms x matched in
      rw (← same) (omega (arith, tally.0, few.0), omega (arith, tally.1, few.0), few.0, few.1)
