-- ===== src/State/PositionReconciler/Confirmation.antt =====
-- A snapshot that holds what MT5 reports is confirmed by state/position_reconciler.py.
use td_sandboxed.Base.{
  true, false, String, str_eq, eq_iff, some, List, [], ◌∷◌, map, length, Outcome, returned, ◌≡◌,
  refl, inr, arith, All,
}
use td_sandboxed.Base.Number.{Number, AtMost}
use td_sandboxed.State.Discrepancy.{ValidPosition, Mt5Position, validate_position}
use td_sandboxed.State.Matching.{
  volume_tolerance, separate, compare_with, match_each, match_positions,
}
use td_sandboxed.State.PositionReconciler.{
  new_position, total_exposure_from, mt5_exposure_from, is_exposure_critical,
  has_critical_discrepancies, concluded, reconcile_account, apply_each,
}

module _ {F : Type 0} ⦃n : Number F⦄ (decimal : String → Outcome F) (str : F → String) where
  -- The volume is read back from its text, and is within the tolerance of itself.
  abbrev pub IsReadable : Mt5Position F → Type 0
  IsReadable m =
      (decimal (str m.volume) ≡ returned m.volume)
      × AtMost (n.abs (n.sub m.volume m.volume)) volume_tolerance

  abbrev pub valid_of : Mt5Position F → ValidPosition
  valid_of m = record {
    symbol = m.symbol;
    side = m.side;
    volume = str m.volume;
    entry_price = some (str m.entry_price);
  }

  separate-saved :
      (account_id : String) (ms : List (Mt5Position F))
      → separate decimal account_id (map (new_position str) ms) ≡ returned (map valid_of ms, [])
  unfolding separate validate_position
  separate-saved account_id [] = refl
  separate-saved account_id (m ∷ ms) = rw (separate-saved account_id ms) refl

  abbrev pub pair_of : Mt5Position F → ValidPosition × Mt5Position F
  pair_of m = (valid_of m, m)

  self_eq : (s : String) → str_eq s s ≡ true
  self_eq s = ground (arith, eq_iff s s)

  match_each-saved :
      (account_id : String) (ms : List (Mt5Position F))
      → All IsReadable ms
      → match_each decimal account_id (map valid_of ms) ms ≡ returned (map pair_of ms, [])
  unfolding match_each compare_with
  match_each-saved account_id [] h = refl
  match_each-saved account_id (m ∷ ms) h =
      rw (h.0.0, self_eq m.symbol, self_eq m.side, h.0.1, match_each-saved account_id ms h.1) refl

  total_exposure_from-saved :
      (total : F) (ms : List (Mt5Position F))
      → All IsReadable ms
      → total_exposure_from decimal total (map (new_position str) ms)
        ≡ returned (mt5_exposure_from total ms)
  total_exposure_from-saved total [] h = refl
  total_exposure_from-saved total (m ∷ ms) h =
      rw h.0.0 (total_exposure_from-saved (n.add total m.volume) ms h.1)

  length-map : (ms : List (Mt5Position F)) → length (map pair_of ms) ≡ length ms
  length-map [] = refl
  length-map (m ∷ ms) = rw (length-map ms) refl

  -- A snapshot of the positions of MT5, as the reconciler writes them, is confirmed against the
  -- same positions: all are verified, there is no discrepancy and no alert, and the snapshot is
  -- saved as it was. Each volume is to be read back from its text and to be within the tolerance
  -- of itself, and the total exposure is not to differ critically from itself.
  pub reconcile_account-saved :
      (account_id : String) (ms : List (Mt5Position F))
      → All IsReadable ms
      → is_exposure_critical
          (mt5_exposure_from (n.literal 0) ms)
          (mt5_exposure_from (n.literal 0) ms)
        ≡ false
      → reconcile_account decimal str account_id (inr ms) (map (new_position str) ms)
        ≡ returned (concluded account_id (length ms) [] false (map (new_position str) ms))
  unfolding reconcile_account match_positions has_critical_discrepancies apply_each
  reconcile_account-saved account_id ms h same =
      rw
        (
          separate-saved account_id ms,
          match_each-saved account_id ms h,
          total_exposure_from-saved (n.literal 0) ms h,
          same,
          length-map ms,
        )
        refl
