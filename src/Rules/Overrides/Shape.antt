-- ===== src/Rules/Overrides/Shape.antt =====
-- A merge keeps the list of rule types of the product: it adds, drops, reorders and retypes no rule.
use td_sandboxed.Base.{
  String, str_eq, eq_iff, ◌≡◌, refl, sym, ap, ◌∙◌, inl, inr, Bool, true, false, Option, none, some,
  List, [], ◌∷◌, ◌++◌, map, append_nil, append_assoc, arith, if◌then◌else◌, Bool-cases,
  Option-cases,
}
use td_sandboxed.Base.Dict.{Dict, lookup, insert, lookup-insert_ne}
use td_sandboxed.Base.Number.{Number}
use td_sandboxed.Rules.Overrides.{
  changes_type, settled, raise_if, Field, Spec, Fields, mapping, no_mapping, type_of, contains_type,
  collect, enforce_no_loosening, apply_field, apply_fields, apply_mapping, apply_override,
  apply_layer, values, merge_rule_overrides,
}
use td_sandboxed.Rules.Overrides.Steps.{>>=-eq-settled}

module _ {F : Type 0} where
  abbrev types : Dict (Spec F) → List (Option String)
  types d = map type_of (values d)

  values-insert_new :
      (t : String) (spec : Spec F) (d : Dict (Spec F))
      → lookup t d ≡ none
      → values (insert t spec d) ≡ values d ++ (spec ∷ [])
  values-insert_new t spec [] h = refl
  values-insert_new t spec ((j, v) ∷ d) h = elim (Bool-cases (str_eq j t)) [
    | inl e ↦ ground (arith, rw e at h)
    | inr e ↦ rw e (ap (λ l. v ∷ l) (values-insert_new t spec d (rw e at h)))
  ]

  types-insert :
      (t : String) (spec spec' : Spec F) (d : Dict (Spec F))
      → lookup t d ≡ some spec
      → type_of spec' ≡ type_of spec
      → map type_of (values (insert t spec' d)) ≡ map type_of (values d)
  types-insert t spec spec' [] h same = ground (arith, h)
  types-insert t spec spec' ((j, v) ∷ d) h same = elim (Bool-cases (str_eq j t)) [
    | inl e ↦ let found : v ≡ spec = cc (rw e at h) in rw e (rw (same, found) refl)
    | inr e ↦ rw e (ap (λ l. type_of v ∷ l) (types-insert t spec spec' d (rw e at h) same))
  ]

  collect-values :
      (d d' : Dict (Spec F)) (specs : List (Spec F))
      → collect d specs ≡ settled d'
      → values d' ≡ values d ++ specs
  unfolding collect
  collect-values d d' [] h = let same : d ≡ d' = cc h in rw (← same) (sym (append_nil (values d)))
  collect-values d d' (spec ∷ specs) h = elim (Option-cases (type_of spec)) [
    | inl untyped ↦ ground (arith, rw (collect, untyped) at h)
    | inr (t, typed) ↦ elim (Option-cases (lookup t d)) [
      | inl new ↦
          rw
            (
              collect-values (insert t spec d) d' specs
                  (rw (collect, typed, contains_type, new) at h),
              values-insert_new t spec d new,
            )
            (append_assoc (values d) (spec ∷ []) specs)
      | inr (_, there) ↦ ground (arith, rw (collect, typed, contains_type, there) at h)
    ]
  ]

module _ {F : Type 0} ⦃n : Number F⦄ where
  apply_field-type :
      (guarded : Bool) (t g : String) (w : Field F) (spec spec' : Spec F)
      → apply_field guarded t g w spec ≡ settled spec'
      → type_of spec' ≡ type_of spec
  unfolding apply_field
  apply_field-type guarded t g w spec spec' done =
      let (_, checked, known) =
        >>=-eq-settled (raise_if (str_eq g "type") (changes_type t)) _ done in
      elim (Bool-cases (str_eq g "type")) [
        | inl e ↦ ground (arith, rw e at checked)
        | inr e ↦ elim (Option-cases (lookup g spec)) [
          | inl missing ↦ ground (arith, rw missing at known)
          | inr (v, there) ↦
              let (_, _, written) =
                >>=-eq-settled (if guarded then enforce_no_loosening t g v w else settled tt) _
                  (rw there at known) in
              let same : insert g w spec ≡ spec' = cc written in
              rw (← same) (
                rw (type_of, lookup-insert_ne g "type" w spec (ground (arith, eq_iff g "type", e)))
                  refl)
        ]
      ]

  pub apply_fields-type :
      (guarded : Bool) (t : String) (fields : Dict (Field F)) (spec spec' : Spec F)
      → apply_fields guarded t fields spec ≡ settled spec'
      → type_of spec' ≡ type_of spec
  unfolding apply_fields
  apply_fields-type guarded t [] spec spec' done =
      let same : spec ≡ spec' = cc done in rw (← same) refl
  apply_fields-type guarded t ((g, w) ∷ fields) spec spec' done =
      let (mid, one, rest) = >>=-eq-settled (apply_field guarded t g w spec) _ done in
      apply_fields-type guarded t fields mid spec' rest
      ∙ apply_field-type guarded t g w spec mid one

  apply_mapping-types :
      (guarded : Bool) (t : String) (fields : Fields F) (by_type by_type' : Dict (Spec F))
      (spec : Spec F)
      → lookup t by_type ≡ some spec
      → apply_mapping guarded t fields by_type (some spec) ≡ settled by_type'
      → types by_type' ≡ types by_type
  apply_mapping-types guarded t no_mapping by_type by_type' spec there done = ground (arith, done)
  apply_mapping-types guarded t (mapping fields) by_type by_type' spec there done =
      let (spec', written, stored) = >>=-eq-settled (apply_fields guarded t fields spec) _ done in
      let same : insert t spec' by_type ≡ by_type' = cc stored in
      rw (← same) (
        types-insert t spec spec' by_type there
          (apply_fields-type guarded t fields spec spec' written))

  apply_layer-types :
      (guarded : Bool) (overrides : Dict (Fields F)) (by_type by_type' : Dict (Spec F))
      → apply_layer guarded overrides by_type ≡ settled by_type'
      → types by_type' ≡ types by_type
  unfolding apply_layer apply_override
  apply_layer-types guarded [] by_type by_type' done =
      let same : by_type ≡ by_type' = cc done in rw (← same) refl
  apply_layer-types guarded ((t, fields) ∷ overrides) by_type by_type' done =
      let (mid, one, rest) = >>=-eq-settled (apply_override guarded t fields by_type) _ done in
      elim (Option-cases (lookup t by_type)) [
        | inl missing ↦ ground (arith, rw missing at one)
        | inr (spec, there) ↦
            apply_layer-types guarded overrides mid by_type' rest
            ∙ apply_mapping-types guarded t fields by_type mid spec there (rw there at one)
      ]

  -- A merge of rule overrides that succeeds returns the rules of the product in their order, each
  -- with the type that it had.
  pub merge_rule_overrides-types :
      (product : List (Spec F)) (phase account : Dict (Fields F)) (merged : List (Spec F))
      → merge_rule_overrides product phase account ≡ settled merged
      → map type_of merged ≡ map type_of product
  unfolding merge_rule_overrides
  merge_rule_overrides-types product phase account merged done =
      let (by_type, collected, layered) = >>=-eq-settled (collect [] product) _ done in
      let (after_phase, phased, rest) =
        >>=-eq-settled (apply_layer false phase by_type) _ layered in
      let (out, tightened, listed) = >>=-eq-settled (apply_layer true account after_phase) _ rest in
      let same : values out ≡ merged = cc listed in
      rw (← same, ← collect-values [] by_type product collected)
        (apply_layer-types true account after_phase out tightened
          ∙ apply_layer-types false phase by_type after_phase phased)
