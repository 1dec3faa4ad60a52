-- ===== src/Samples/Overrides.antt =====
-- A merge that tightens the daily loss limit of an account from 5% to 4%.
use td_sandboxed.Base.{List, ◌≡◌, refl, none, [], ◌∷◌, map}
use td_sandboxed.Base.Int.{ℤ, pos}
use td_sandboxed.Base.Dict.{Dict}
use td_sandboxed.Samples.Fixed.{fixed, fixed-IsOrdered}
use td_sandboxed.Rules.Overrides.{
  Merged, settled, ◌>>=◌, Field, number, text, Spec, Fields, mapping, type_of, collect, apply_layer,
  values, merge_rule_overrides,
}
use td_sandboxed.Rules.Overrides.Tightening.{IsTighter, merge_rule_overrides-IsTighter}
use td_sandboxed.Rules.Overrides.Typing.{field_in}
use td_sandboxed.Rules.Overrides.Shape.{merge_rule_overrides-types}

abbrev limited : ℤ → Spec ℤ
limited percent =
    ("type", text "daily_loss_limit" none) ∷ ("threshold_percent", number percent) ∷ []

abbrev tightened : Dict (Fields ℤ)
tightened = ("daily_loss_limit", mapping (("threshold_percent", number (pos 400)) ∷ [])) ∷ []

merge_rule_overrides-IsTighter_example :
    (phased : List (Spec ℤ)) × (merge_rule_overrides (limited (pos 500) ∷ []) [] []
      ≡ settled phased)
    × IsTighter
        (field_in "daily_loss_limit" "threshold_percent" phased)
        (field_in "daily_loss_limit" "threshold_percent" (limited (pos 400) ∷ []))
unfolding merge_rule_overrides collect apply_layer td_sandboxed.Rules.Overrides.apply_fields
    td_sandboxed.Rules.Overrides.enforce_no_loosening
merge_rule_overrides-IsTighter_example =
    merge_rule_overrides-IsTighter fixed-IsOrdered "daily_loss_limit" "threshold_percent"
      (limited (pos 500) ∷ []) [] tightened (limited (pos 400) ∷ []) refl refl

merge_rule_overrides-types_example :
    map type_of (limited (pos 400) ∷ []) ≡ map type_of (limited (pos 500) ∷ [])
unfolding merge_rule_overrides collect apply_layer td_sandboxed.Rules.Overrides.apply_fields
    td_sandboxed.Rules.Overrides.enforce_no_loosening
merge_rule_overrides-types_example =
    merge_rule_overrides-types (limited (pos 500) ∷ []) [] tightened (limited (pos 400) ∷ []) refl
