-- ===== src/Rules/Overrides.antt =====
-- rules/override_merger.py: merge_rule_overrides and its two helpers.
-- The text of an error message is kept as its kind and the names that it cites.
mod Steps
pub mod Typing
pub mod Tightening
pub mod Shape
use td_sandboxed.Base.{
  String, str_eq, ◌≡◌, refl, Bool, true, false, not, Option, none, some, List, [], ◌∷◌, ◌++◌,
  if◌then◌else◌,
}
use td_sandboxed.Base.Dict.{Dict, lookup, insert}
use td_sandboxed.Base.Number.{Number}

pub data OverrideError : Type 0 where
  missing_type : OverrideError
  repeated_type : String → OverrideError
  unknown_type : String → OverrideError
  not_a_mapping : String → OverrideError
  changes_type : String → OverrideError
  unknown_field : (rule_type field : String) → OverrideError
  not_numeric : (rule_type field : String) → OverrideError
  contains_nan : (rule_type field : String) → OverrideError
  loosens : (rule_type field : String) → OverrideError

-- What a merge returns; an error stops it.
pub data Merged {ℓ} (A : Type ℓ) : Type ℓ where
  failed : OverrideError → Merged A
  settled : A → Merged A

infixl 5 ◌>>=◌
abbrev pub ◌>>=◌ {ℓ κ} : {X : Type ℓ} {Y : Type κ} → Merged X → (X → Merged Y) → Merged Y
failed why >>= next = failed why
settled x >>= next = next x

infixl 5 ◌>>◌
abbrev pub ◌>>◌ {ℓ κ} : {X : Type ℓ} {Y : Type κ} → Merged X → Merged Y → Merged Y
first >> second = first >>= λ _. second

abbrev pub raise_if : Bool → OverrideError → Merged (Unit {0})
raise_if true e = failed e
raise_if false e = settled tt

pub data Direction : Type 0 where
  lower_is_tighter higher_is_tighter : Direction

-- `_TIGHTNESS_GUARDS`, as the direction of a guarded field
abbrev pub guard_of : String → String → Option Direction
guard_of rule_type field =
    if str_eq rule_type "daily_loss_limit"
    then (if str_eq field "threshold_percent" then some lower_is_tighter else none)
    else if str_eq rule_type "max_drawdown"
    then (if str_eq field "threshold_percent" then some lower_is_tighter else none)
    else if str_eq rule_type "max_position_size"
    then (if str_eq field "max_lots" then some lower_is_tighter else none)
    else if str_eq rule_type "consistency"
    then (if str_eq field "block_at" then some lower_is_tighter else none)
    else none

-- A value of a YAML field: a number, a `str` with what `float()` makes of it, or another object,
-- of which `float()` raises.
pub data Field (F : Type 0) : Type 0 where
  number : F → Field F
  text : String → Option F → Field F
  other : Field F

abbrev pub Spec : Type 0 → Type 0
Spec F = Dict (Field F)

-- The fields that an override gives for a rule type.
pub data Fields (F : Type 0) : Type 0 where
  mapping : Dict (Field F) → Fields F
  no_mapping : Fields F

module _ {F : Type 0} where
  -- `float(v)`, with `none` for a TypeError or ValueError
  abbrev pub to_float : Field F → Option F
  to_float (number x) = some x
  to_float (text _ x) = x
  to_float other = none

  -- `spec.get("type")` where it is a `str`
  abbrev pub type_of : Spec F → Option String
  type_of spec = elim (lookup "type" spec) [ some (text name _) ↦ some name | _ ↦ none ]

  abbrev contains_type : String → Dict (Spec F) → Bool
  contains_type t by_type = elim (lookup t by_type) [ none ↦ false | some _ ↦ true ]

  -- The loop that builds `by_type`; the dict keeps the order of `order`.
  unfoldable pub collect : Dict (Spec F) → List (Spec F) → Merged (Dict (Spec F))
  collect by_type [] = settled by_type
  collect by_type (spec ∷ specs) = elim (type_of spec) [
    | none ↦ failed missing_type
    | some t ↦
        let rest = collect (insert t spec by_type) specs in
        if contains_type t by_type then failed (repeated_type t) else rest
  ]

  -- `list(by_type.values())`
  abbrev pub values : Dict (Spec F) → List (Spec F)
  values [] = []
  values ((_, spec) ∷ d) = spec ∷ values d

module _ {F : Type 0} ⦃n : Number F⦄ where
  abbrev pub is_nan : F → Bool
  is_nan x = not (n.le x x)

  abbrev pub loosened : Direction → F → F → Bool
  loosened lower_is_tighter baseline new = n.lt baseline new
  loosened higher_is_tighter baseline new = n.lt new baseline

  abbrev pub compare_numbers : String → String → Direction → F → F → Merged (Unit {0})
  compare_numbers rule_type field direction baseline new =
      if is_nan new
      then failed (contains_nan rule_type field)
      else if is_nan baseline
      then failed (contains_nan rule_type field)
      else raise_if (loosened direction baseline new) (loosens rule_type field)

  abbrev pub compare_fields : String → String → Direction → Option F → Option F → Merged (Unit {0})
  compare_fields rule_type field direction (some baseline) (some new) =
      compare_numbers rule_type field direction baseline new
  compare_fields rule_type field direction _ _ = failed (not_numeric rule_type field)

  abbrev pub enforce_guard :
      String → String → Field F → Field F → Option Direction → Merged (Unit {0})
  enforce_guard rule_type field baseline new none = settled tt
  enforce_guard rule_type field baseline new (some direction) =
      compare_fields rule_type field direction (to_float baseline) (to_float new)

  -- `_enforce_no_loosening`
  unfoldable pub enforce_no_loosening : String → String → Field F → Field F → Merged (Unit {0})
  enforce_no_loosening rule_type field baseline new =
      enforce_guard rule_type field baseline new (guard_of rule_type field)

  -- The body of the inner loop of `_apply_layer`: one field of one rule.
  abbrev pub apply_known :
      Bool → String → String → Field F → Spec F → Option (Field F) → Merged (Spec F)
  apply_known guarded rule_type field new spec none = failed (unknown_field rule_type field)
  apply_known guarded rule_type field new spec (some baseline) =
      (if guarded then enforce_no_loosening rule_type field baseline new else settled tt)
      >> settled (insert field new spec)

  unfoldable pub apply_field : Bool → String → String → Field F → Spec F → Merged (Spec F)
  apply_field guarded rule_type field new spec =
      raise_if (str_eq field "type") (changes_type rule_type)
      >> apply_known guarded rule_type field new spec (lookup field spec)

  -- The inner loop of `_apply_layer`.
  unfoldable pub apply_fields : Bool → String → Dict (Field F) → Spec F → Merged (Spec F)
  unfolding apply_field
  apply_fields guarded rule_type [] spec = settled spec
  apply_fields guarded rule_type ((field, new) ∷ fields) spec =
      apply_field guarded rule_type field new spec >>= λ spec'.
      apply_fields guarded rule_type fields spec'

  -- The body of the outer loop of `_apply_layer`: one rule type.
  abbrev pub apply_mapping :
      Bool → String → Fields F → Dict (Spec F) → Option (Spec F) → Merged (Dict (Spec F))
  apply_mapping guarded rule_type fields by_type none = failed (unknown_type rule_type)
  apply_mapping guarded rule_type no_mapping by_type (some spec) = failed (not_a_mapping rule_type)
  apply_mapping guarded rule_type (mapping fields) by_type (some spec) =
      apply_fields guarded rule_type fields spec >>= λ spec'.
      settled (insert rule_type spec' by_type)

  unfoldable pub apply_override : Bool → String → Fields F → Dict (Spec F) → Merged (Dict (Spec F))
  apply_override guarded rule_type fields by_type =
      apply_mapping guarded rule_type fields by_type (lookup rule_type by_type)

  -- `_apply_layer`
  unfoldable pub apply_layer : Bool → Dict (Fields F) → Dict (Spec F) → Merged (Dict (Spec F))
  unfolding apply_override
  apply_layer guarded [] by_type = settled by_type
  apply_layer guarded ((rule_type, fields) ∷ overrides) by_type =
      apply_override guarded rule_type fields by_type >>= λ by_type'.
      apply_layer guarded overrides by_type'

  -- `merge_rule_overrides`
  unfoldable pub merge_rule_overrides :
      List (Spec F) → Dict (Fields F) → Dict (Fields F) → Merged (List (Spec F))
  merge_rule_overrides product phase account = do
    by_type ← collect [] product
    after_phase ← apply_layer false phase by_type
    merged ← apply_layer true account after_phase
    settled (values merged)
