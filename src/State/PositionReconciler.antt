-- ===== src/State/PositionReconciler.antt =====
-- state/position_reconciler.py: PositionReconciler, which corrects the positions of a snapshot by those
-- that MT5 reports. `decimal` reads a text as Decimal does and `str` writes a number. The answer of
-- MT5 is an argument. The texts of alerts and errors are left out.
pub mod Accounting
pub mod Confirmation
use td_sandboxed.Base.{
  ℕ, Bool, true, false, not, ◌&&◌, String, str_eq, Option, none, some, List, [], ◌∷◌, ◌++◌, length,
  ltb, if◌then◌else◌, Outcome, returned, ◌>>=◌, ◌⊎◌, inl, inr,
}
use td_sandboxed.Base.Dict.{Dict, insert}
use td_sandboxed.Base.Number.{Number}
use td_sandboxed.State.Discrepancy.{
  DiscrepancyType, orphan_position, unknown_position, volume_mismatch, side_mismatch, LocalPosition,
  Mt5Position, Discrepancy, count_type,
}
use td_sandboxed.State.Matching.{match_positions}

pub data QueryError : Type 0 where
  query_timeout not_connected : QueryError

pub record ReconciliationResult (F : Type 0) : Type 0 where
  pub account_id : String
  pub success : Bool
  pub positions_verified : ℕ
  pub discrepancies : List (Discrepancy F)
  pub positions_added : ℕ
  pub positions_removed : ℕ
  pub positions_updated : ℕ
  pub requires_manual_intervention : Bool
  pub error_message : Option QueryError

-- What a reconciliation returns, whether it publishes an alert, and the positions it saves.
pub record Reconciliation (F : Type 0) : Type 0 where
  pub result : ReconciliationResult F
  pub is_alerted : Bool
  pub saved : Option (List LocalPosition)

abbrev pub some_eq : Option String → Option String → Bool
some_eq none none = true
some_eq (some x) (some y) = str_eq x y
some_eq _ _ = false

-- `_remove_orphan_from_state`, for the fields of the orphan
abbrev pub remove_orphan_from_state :
    (symbol side volume : Option String) → List LocalPosition → List LocalPosition
remove_orphan_from_state symbol side volume [] = []
remove_orphan_from_state symbol side volume (p ∷ ps) =
    let rest = remove_orphan_from_state symbol side volume ps in
    if some_eq p.symbol symbol && some_eq p.side side && some_eq p.volume volume
    then rest
    else p ∷ rest

-- `_update_position_volume`
abbrev pub update_position_volume :
    String → Option String → String → List LocalPosition → List LocalPosition
update_position_volume symbol side volume [] = []
update_position_volume symbol side volume (p ∷ ps) =
    let rest = update_position_volume symbol side volume ps in
    if some_eq p.symbol (some symbol) && some_eq p.side side
    then record p { volume = some volume } ∷ rest
    else p ∷ rest

module _ {F : Type 0} ⦃n : Number F⦄ where
  -- The first position of MT5 that an unknown position was made from.
  abbrev pub find_unknown : Discrepancy F → List (Mt5Position F) → Option (Mt5Position F)
  find_unknown d [] = none
  find_unknown d (m ∷ ms) =
      let later = find_unknown d ms in
      if str_eq m.symbol d.symbol
        && (some_eq (some m.side) d.mt5_side
            && elim d.mt5_volume [ none ↦ false | some volume ↦ n.eq m.volume volume ])
      then some m
      else later

  -- `_calculate_mt5_exposure`
  abbrev pub mt5_exposure_from : F → List (Mt5Position F) → F
  mt5_exposure_from total [] = total
  mt5_exposure_from total (m ∷ ms) = mt5_exposure_from (n.add total m.volume) ms

  -- `CRITICAL_EXPOSURE_DIFF_PERCENT`
  abbrev pub is_exposure_critical : (snapshot mt5 : F) → Bool
  is_exposure_critical snapshot mt5 =
      if n.lt (n.literal 0) snapshot
      then (n.lt (n.literal 10)
          (n.mul (n.div (n.abs (n.sub mt5 snapshot)) snapshot) (n.literal 100)))
      else false

module _ {F : Type 0} ⦃n : Number F⦄ (decimal : String → Outcome F) where
  -- `_calculate_total_exposure`: what Decimal raises on a bad text is neither ValueError nor TypeError.
  abbrev pub total_exposure_from : F → List LocalPosition → Outcome F
  total_exposure_from total [] = returned total
  total_exposure_from total (p ∷ ps) = elim p.volume [
    | none ↦ total_exposure_from total ps
    | some text ↦ decimal text >>= λ volume. total_exposure_from (n.add total volume) ps
  ]

  -- `_has_critical_discrepancies`
  unfoldable pub has_critical_discrepancies :
      List (Discrepancy F) → List LocalPosition → List (Mt5Position F) → Outcome Bool
  has_critical_discrepancies ds ps ms =
      if ltb 0 (count_type side_mismatch ds)
      then returned true
      else if ltb 3 (count_type orphan_position ds)
      then returned true
      else (total_exposure_from (n.literal 0) ps >>= λ exposure.
          returned (is_exposure_critical exposure (mt5_exposure_from (n.literal 0) ms)))

module _ {F : Type 0} ⦃n : Number F⦄ (str : F → String) where
  -- `str(d.snapshot_volume)`
  abbrev pub written_volume : Option F → String
  written_volume none = "None"
  written_volume (some volume) = str volume

  -- `_add_unknown_to_state`
  abbrev pub new_position : Mt5Position F → LocalPosition
  new_position m = record {
    symbol = some m.symbol;
    side = some m.side;
    volume = some (str m.volume);
    entry_price = some (str m.entry_price);
    entry_time = some m.entry_time;
    ticket = some m.ticket;
  }

  abbrev pub add_found : Option (Mt5Position F) → List LocalPosition → List LocalPosition
  add_found none ps = ps
  add_found (some m) ps = ps ++ new_position m ∷ []

  -- One round of the loop that applies the discrepancies.
  abbrev pub apply_as :
      DiscrepancyType
      → List (Mt5Position F)
      → Discrepancy F
      → List LocalPosition
      → List LocalPosition
  apply_as orphan_position ms d ps =
      remove_orphan_from_state (some d.symbol) d.snapshot_side
        (some (written_volume d.snapshot_volume)) ps
  apply_as unknown_position ms d ps = add_found (find_unknown d ms) ps
  apply_as volume_mismatch ms d ps =
      update_position_volume d.symbol d.mt5_side (written_volume d.mt5_volume) ps
  apply_as side_mismatch ms d ps = ps

  unfoldable pub apply_each :
      List (Mt5Position F) → List (Discrepancy F) → List LocalPosition → List LocalPosition
  apply_each ms [] ps = ps
  apply_each ms (d ∷ ds) ps = apply_each ms ds (apply_as d.discrepancy_type ms d ps)

module _ {F : Type 0} where
  -- The result when MT5 could not be asked.
  abbrev pub failed : String → QueryError → Reconciliation F
  failed account_id error = record {
    result = record {
      account_id = account_id;
      success = false;
      positions_verified = 0;
      discrepancies = [];
      positions_added = 0;
      positions_removed = 0;
      positions_updated = 0;
      requires_manual_intervention = true;
      error_message = some error;
    };
    is_alerted = false;
    saved = none;
  }

  -- The result of a comparison, with the positions that it saves.
  abbrev pub concluded :
      String → ℕ → List (Discrepancy F) → Bool → List LocalPosition → Reconciliation F
  concluded account_id verified ds requires_manual reconciled = record {
    result = record {
      account_id = account_id;
      success = not requires_manual;
      positions_verified = verified;
      discrepancies = ds;
      positions_added = count_type unknown_position ds;
      positions_removed = count_type orphan_position ds;
      positions_updated = count_type volume_mismatch ds;
      requires_manual_intervention = requires_manual;
      error_message = none;
    };
    is_alerted = requires_manual;
    saved = if requires_manual then none else some reconciled;
  }

module _ {F : Type 0} ⦃n : Number F⦄ (decimal : String → Outcome F) (str : F → String) where
  -- `reconcile_account` with the answer of `query_positions`
  unfoldable pub reconcile_account :
      String → QueryError ⊎ List (Mt5Position F) → List LocalPosition → Outcome (Reconciliation F)
  reconcile_account account_id (inl error) ps = returned (failed account_id error)
  reconcile_account account_id (inr ms) ps = do
    matched ← match_positions decimal account_id ps ms
    critical ← has_critical_discrepancies decimal matched.1 ps ms
    returned (
        concluded account_id (length matched.0) matched.1 critical (apply_each str ms matched.1 ps))

  -- The result for an account without a valid snapshot.
  abbrev pub started_fresh : String → ReconciliationResult F
  started_fresh account_id = record {
    account_id = account_id;
    success = true;
    positions_verified = 0;
    discrepancies = [];
    positions_added = 0;
    positions_removed = 0;
    positions_updated = 0;
    requires_manual_intervention = false;
    error_message = none;
  }

  abbrev pub reconcile_snapshot :
      String
      → QueryError ⊎ List (Mt5Position F)
      → Option (List LocalPosition)
      → Outcome (ReconciliationResult F)
  reconcile_snapshot account_id answer none = returned (started_fresh account_id)
  reconcile_snapshot account_id answer (some ps) =
      reconcile_account account_id answer ps >>= λ r. returned r.result

  -- `run_position_reconciliation`: `validated` is the snapshot of an account, if it is valid.
  unfoldable pub run_position_reconciliation :
      (validated : String → Option (List LocalPosition))
      (answers : String → QueryError ⊎ List (Mt5Position F))
      → List String
      → Dict (ReconciliationResult F)
      → Outcome (Dict (ReconciliationResult F))
  run_position_reconciliation validated answers [] results = returned results
  run_position_reconciliation validated answers (account_id ∷ accounts) results = do
    result ← reconcile_snapshot account_id (answers account_id) (validated account_id)
    run_position_reconciliation validated answers accounts (insert account_id result results)
