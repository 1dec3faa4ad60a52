-- ===== src/State/Discrepancy.antt =====
-- state/position_reconciler.py: the positions of a snapshot and of MT5, and the discrepancies between
-- them. A position of the snapshot is a dict of texts. The texts of details are left out.
use td_sandboxed.Base.{
  ℕ, ◌+◌, Bool, true, false, String, str_eq, Option, none, some, List, [], ◌∷◌, if◌then◌else◌,
}

pub data DiscrepancyType : Type 0 where
  orphan_position unknown_position volume_mismatch side_mismatch : DiscrepancyType

-- A position dict: a field is none if its key is missing.
pub record LocalPosition : Type 0 where
  pub symbol : Option String
  pub side : Option String
  pub volume : Option String
  pub entry_price : Option String
  pub entry_time : Option String
  pub ticket : Option String

-- A position dict with the required fields.
pub record ValidPosition : Type 0 where
  pub symbol : String
  pub side : String
  pub volume : String
  pub entry_price : Option String

-- `MT5Position`, less the fields that the reconciler does not read. The ticket is its text.
pub record Mt5Position (F : Type 0) : Type 0 where
  pub symbol : String
  pub side : String
  pub volume : F
  pub entry_price : F
  pub entry_time : String
  pub ticket : String

pub record Discrepancy (F : Type 0) : Type 0 where
  pub discrepancy_type : DiscrepancyType
  pub account_id : String
  pub symbol : String
  pub snapshot_side : Option String
  pub mt5_side : Option String
  pub snapshot_volume : Option F
  pub mt5_volume : Option F
  pub snapshot_entry_price : Option F
  pub mt5_entry_price : Option F

abbrev pub is_type : DiscrepancyType → DiscrepancyType → Bool
is_type orphan_position orphan_position = true
is_type unknown_position unknown_position = true
is_type volume_mismatch volume_mismatch = true
is_type side_mismatch side_mismatch = true
is_type _ _ = false

abbrev pub text_or : String → Option String → String
text_or text none = text
text_or _ (some text) = text

-- `_validate_position_dict`, with the fields that it found
unfoldable pub validate_position : LocalPosition → Option ValidPosition
validate_position p = elim p.symbol [
  | none ↦ none
  | some symbol ↦ elim p.side [
    | none ↦ none
    | some side ↦ elim p.volume [
      | none ↦ none
      | some volume ↦
          some
            (record { symbol = symbol; side = side; volume = volume; entry_price = p.entry_price })
    ]
  ]
]

module _ {F : Type 0} where
  -- The sum of 1 over the discrepancies of a type.
  abbrev pub count_type : DiscrepancyType → List (Discrepancy F) → ℕ
  count_type kind [] = 0
  count_type kind (d ∷ ds) =
      if is_type kind d.discrepancy_type then 1 + count_type kind ds else count_type kind ds

  -- The first position of MT5 with the symbol, and the others.
  abbrev pub take_symbol :
      String → List (Mt5Position F) → Option (Mt5Position F × List (Mt5Position F))
  take_symbol symbol [] = none
  take_symbol symbol (m ∷ ms) =
      let rest = take_symbol symbol ms in
      if str_eq m.symbol symbol
      then some (m, ms)
      else elim rest [ none ↦ none | some (found, others) ↦ some (found, m ∷ others) ]

  abbrev pub found_in : Option (Mt5Position F × List (Mt5Position F)) → Option (Mt5Position F)
  found_in none = none
  found_in (some (m, others)) = some m

  abbrev pub left_of :
      List (Mt5Position F) → Option (Mt5Position F × List (Mt5Position F)) → List (Mt5Position F)
  left_of ms none = ms
  left_of ms (some (m, others)) = others

  abbrev pub create_unknown_discrepancy : String → Mt5Position F → Discrepancy F
  create_unknown_discrepancy account_id m = record {
    discrepancy_type = unknown_position;
    account_id = account_id;
    symbol = m.symbol;
    snapshot_side = none;
    mt5_side = some m.side;
    snapshot_volume = none;
    mt5_volume = some m.volume;
    snapshot_entry_price = none;
    mt5_entry_price = some m.entry_price;
  }
