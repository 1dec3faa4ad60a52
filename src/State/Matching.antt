-- ===== src/State/Matching.antt =====
-- state/position_reconciler.py: the matching of the positions of a snapshot with those of MT5.
-- `decimal` reads a text as Decimal does.
pub mod Tally
use td_sandboxed.Base.{
  not, String, str_eq, Option, none, some, List, [], ◌∷◌, ◌++◌, map, if◌then◌else◌, Outcome,
  returned, ◌>>=◌,
}
use td_sandboxed.Base.Number.{Number}
use td_sandboxed.State.Discrepancy.{
  DiscrepancyType, orphan_position, volume_mismatch, side_mismatch, LocalPosition, ValidPosition,
  Mt5Position, Discrepancy, text_or, validate_position, take_symbol, found_in, left_of,
  create_unknown_discrepancy,
}

module _ {F : Type 0} ⦃n : Number F⦄ where
  -- `VOLUME_TOLERANCE`
  abbrev pub volume_tolerance : F
  volume_tolerance = n.div (n.literal 1) (n.literal 1000)

module _ {F : Type 0} ⦃n : Number F⦄ (decimal : String → Outcome F) where
  -- `Decimal(position["entry_price"]) if "entry_price" in position else None`, or so for the volume
  abbrev pub read_field : Option String → Outcome (Option F)
  read_field none = returned none
  read_field (some text) = decimal text >>= λ x. returned (some x)

  -- The discrepancy for a position dict without the required fields.
  unfoldable pub invalid_discrepancy : String → LocalPosition → Outcome (Discrepancy F)
  invalid_discrepancy account_id p = do
    volume ← read_field p.volume
    entry_price ← read_field p.entry_price
    returned (record {
      discrepancy_type = orphan_position;
      account_id = account_id;
      symbol = text_or "UNKNOWN" p.symbol;
      snapshot_side = p.side;
      mt5_side = none;
      snapshot_volume = volume;
      mt5_volume = none;
      snapshot_entry_price = entry_price;
      mt5_entry_price = none;
    })

  -- `_create_orphan_discrepancy`
  unfoldable pub create_orphan_discrepancy : String → ValidPosition → Outcome (Discrepancy F)
  create_orphan_discrepancy account_id p = do
    volume ← decimal p.volume
    entry_price ← read_field p.entry_price
    returned (record {
      discrepancy_type = orphan_position;
      account_id = account_id;
      symbol = p.symbol;
      snapshot_side = some p.side;
      mt5_side = none;
      snapshot_volume = some volume;
      mt5_volume = none;
      snapshot_entry_price = entry_price;
      mt5_entry_price = none;
    })

  -- `_create_volume_mismatch_discrepancy` and `_create_side_mismatch_discrepancy`, by the type
  unfoldable pub create_mismatch_discrepancy :
      DiscrepancyType → String → ValidPosition → Mt5Position F → Outcome (Discrepancy F)
  create_mismatch_discrepancy kind account_id p m = do
    volume ← decimal p.volume
    entry_price ← read_field p.entry_price
    returned (record {
      discrepancy_type = kind;
      account_id = account_id;
      symbol = m.symbol;
      snapshot_side = some p.side;
      mt5_side = some m.side;
      snapshot_volume = some volume;
      mt5_volume = some m.volume;
      snapshot_entry_price = entry_price;
      mt5_entry_price = some m.entry_price;
    })

  -- A position dict before the others, by what its validation finds.
  abbrev pub separated_as :
      String
      → LocalPosition
      → Option ValidPosition
      → Outcome (List ValidPosition × List (Discrepancy F))
      → Outcome (List ValidPosition × List (Discrepancy F))
  separated_as account_id p (some valid) others =
      others >>= λ rest. returned (valid ∷ rest.0, rest.1)
  separated_as account_id p none others =
      invalid_discrepancy account_id p >>= λ d. others >>= λ rest. returned (rest.0, d ∷ rest.1)

  -- The loop that separates the valid positions from the discrepancies of the others.
  unfoldable pub separate :
      String → List LocalPosition → Outcome (List ValidPosition × List (Discrepancy F))
  separate account_id [] = returned ([], [])
  separate account_id (p ∷ ps) =
      separated_as account_id p (validate_position p) (separate account_id ps)

  -- A snapshot position against the first position of MT5 with its symbol, if there is one.
  unfoldable pub compare_with :
      String
      → ValidPosition
      → F
      → Option (Mt5Position F)
      → Outcome (List (ValidPosition × Mt5Position F) × List (Discrepancy F))
  compare_with account_id p volume none =
      create_orphan_discrepancy account_id p >>= λ d. returned ([], d ∷ [])
  compare_with account_id p volume (some m) =
      if not (str_eq m.side p.side)
      then (create_mismatch_discrepancy side_mismatch account_id p m >>= λ d. returned ([], d ∷ []))
      else if n.le (n.abs (n.sub m.volume volume)) volume_tolerance
      then returned ((p, m) ∷ [], [])
      else (create_mismatch_discrepancy volume_mismatch account_id p m >>= λ d.
          returned ([], d ∷ []))

  -- The loop over the valid positions, and the unknown positions that remain.
  unfoldable pub match_each :
      String
      → List ValidPosition
      → List (Mt5Position F)
      → Outcome (List (ValidPosition × Mt5Position F) × List (Discrepancy F))
  match_each account_id [] ms = returned ([], map (create_unknown_discrepancy account_id) ms)
  match_each account_id (p ∷ ps) ms = do
    volume ← decimal p.volume
    first ← compare_with account_id p volume (found_in (take_symbol p.symbol ms))
    rest ← match_each account_id ps (left_of ms (take_symbol p.symbol ms))
    returned (first.0 ++ rest.0, first.1 ++ rest.1)

  -- `_match_positions`
  unfoldable pub match_positions :
      String
      → List LocalPosition
      → List (Mt5Position F)
      → Outcome (List (ValidPosition × Mt5Position F) × List (Discrepancy F))
  match_positions account_id ps ms = do
    separated ← separate account_id ps
    matched ← match_each account_id separated.0 ms
    returned (matched.0, separated.1 ++ matched.1)
