-- ===== src/Samples/State.antt =====
-- The theorems on state/position_reconciler.py at concrete positions, with two-place decimals that
-- are written in a few digits.
use td_sandboxed.Base.{
  ℕ, true, false, String, str_eq, Option, none, some, List, [], ◌∷◌, map, if◌then◌else◌, Outcome,
  returned, raised, ◌≡◌, refl, inr, ◌+◌, ◌≤◌,
}
use td_sandboxed.Base.Int.{ℤ, leb_ℤ, ◌-ℤ◌, ◌+ℤ◌}
use td_sandboxed.Samples.Fixed.{fixed, hundredths}
use td_sandboxed.State.Discrepancy.{
  LocalPosition, Mt5Position, side_mismatch, count_type, validate_position,
}
use td_sandboxed.State.Matching.{
  match_positions, separate, match_each, compare_with, create_mismatch_discrepancy,
  create_orphan_discrepancy,
}
use td_sandboxed.State.PositionReconciler.{
  Reconciliation, new_position, concluded, reconcile_account, has_critical_discrepancies,
  apply_each,
}
use td_sandboxed.State.PositionReconciler.Accounting.{reconcile_account-IsAccounted}
use td_sandboxed.State.PositionReconciler.Confirmation.{reconcile_account-saved}

-- The texts that the samples use.
abbrev decimal : String → Outcome ℤ
decimal text =
    if str_eq text "0.10"
    then returned (hundredths 10)
    else if str_eq text "0.20"
    then returned (hundredths 20)
    else if str_eq text "10.00"
    then returned (hundredths 1000)
    else raised

abbrev str : ℤ → String
str x =
    if leb_ℤ x (hundredths 10) then "0.10" else if leb_ℤ x (hundredths 20) then "0.20" else "10.00"

abbrev held : String → String → ℕ → Mt5Position ℤ
held symbol ticket lots = record {
  symbol = symbol;
  side = "BUY";
  volume = hundredths lots;
  entry_price = hundredths 20;
  entry_time = "t";
  ticket = ticket;
}

abbrev local : String → String → LocalPosition
local symbol volume = record {
  symbol = some symbol;
  side = some "BUY";
  volume = some volume;
  entry_price = none;
  entry_time = none;
  ticket = none;
}

abbrev reported : List (Mt5Position ℤ)
reported = held "EURUSD" "7" 1000 ∷ held "XAUUSD" "8" 10 ∷ []

abbrev recorded : List LocalPosition
recorded = local "EURUSD" "10.00" ∷ local "XAUUSD" "0.20" ∷ local "USDJPY" "0.10" ∷ []

abbrev saved_by : Outcome (Reconciliation ℤ) → Option (List LocalPosition)
saved_by raised = none
saved_by (returned r) = r.saved

abbrev the : Outcome (Reconciliation ℤ) → Reconciliation ℤ
the raised = concluded "a1" 0 [] true []
the (returned r) = r

abbrev reconciled : Outcome (Reconciliation ℤ)
reconciled = reconcile_account decimal str "a1" (inr reported) recorded

corrects : saved_by reconciled ≡ some (local "EURUSD" "10.00" ∷ local "XAUUSD" "0.10" ∷ [])
unfolding reconcile_account match_positions separate validate_position match_each compare_with ◌-ℤ◌
    create_mismatch_discrepancy create_orphan_discrepancy has_critical_discrepancies ◌+ℤ◌ apply_each
corrects = refl

-- Of two equal positions of which MT5 reports one, neither stays.
doubles-removed :
    saved_by (
      reconcile_account decimal str "a1"
        (inr reported)
        (local "EURUSD" "10.00" ∷ local "XAUUSD" "0.10" ∷ local "XAUUSD" "0.10" ∷ []))
    ≡ some (local "EURUSD" "10.00" ∷ [])
unfolding reconcile_account match_positions separate validate_position match_each compare_with ◌-ℤ◌
    create_mismatch_discrepancy create_orphan_discrepancy has_critical_discrepancies ◌+ℤ◌ apply_each
doubles-removed = refl

-- Two positions of a symbol that MT5 reports in the other order end with the same volume.
crossed-volumes :
    saved_by (
      reconcile_account decimal str "a1"
        (inr (held "XAUUSD" "8" 20 ∷ held "XAUUSD" "9" 10 ∷ []))
        (local "XAUUSD" "0.10" ∷ local "XAUUSD" "0.20" ∷ []))
    ≡ some (local "XAUUSD" "0.10" ∷ local "XAUUSD" "0.10" ∷ [])
unfolding reconcile_account match_positions separate validate_position match_each compare_with ◌-ℤ◌
    create_mismatch_discrepancy create_orphan_discrepancy has_critical_discrepancies ◌+ℤ◌ apply_each
crossed-volumes = refl

reconcile_account-IsAccounted_example :
    ((the reconciled).result.positions_verified
        + (the reconciled).result.positions_updated
        + (the reconciled).result.positions_removed
      ≡ 3)
    × ((the reconciled).result.positions_verified
          + (the reconciled).result.positions_updated
          + (the reconciled).result.positions_added
        ≡ 2)
    × (count_type side_mismatch (the reconciled).result.discrepancies ≡ 0)
    × ((the reconciled).result.positions_removed ≤ 3)
unfolding reconcile_account match_positions separate validate_position match_each compare_with ◌-ℤ◌
    create_mismatch_discrepancy create_orphan_discrepancy has_critical_discrepancies ◌+ℤ◌ apply_each
reconcile_account-IsAccounted_example =
    reconcile_account-IsAccounted decimal str "a1" reported recorded (the reconciled)
      (local "EURUSD" "10.00" ∷ local "XAUUSD" "0.10" ∷ []) refl refl

reconcile_account-saved_example :
    reconcile_account decimal str "a1" (inr reported) (map (new_position str) reported)
    ≡ returned (concluded "a1" 2 [] false (map (new_position str) reported))
unfolding ◌-ℤ◌ ◌+ℤ◌
reconcile_account-saved_example =
    reconcile_account-saved decimal str "a1" reported ((refl, refl), ((refl, refl), tt)) refl
