-- ===== src/Rules/Overrides/Typing.antt =====
-- The dict of rules that a merge works on has each rule under its type.
use td_sandboxed.Base.{
  String, str_eq, eq_iff, ◌≡◌, refl, sym, ap, ◌∙◌, inl, inr, Bool, false, Option, none, some, List,
  [], ◌∷◌, arith, if◌then◌else◌, Bool-cases, Option-cases,
}
use td_sandboxed.Base.Dict.{Dict, lookup, insert}
use td_sandboxed.Base.Number.{Number}
use td_sandboxed.Rules.Overrides.{
  settled, Field, Spec, Fields, mapping, no_mapping, type_of, contains_type, collect, apply_fields,
  apply_mapping, apply_override, apply_layer, values,
}
use td_sandboxed.Rules.Overrides.Steps.{>>=-eq-settled}
use td_sandboxed.Rules.Overrides.Shape.{apply_fields-type}

abbrev is_named : String → Option String → Bool
is_named t none = false
is_named t (some s) = str_eq s t

module _ {F : Type 0} where
  -- Field `f` of the first rule of type `t` in a list, or nothing if there is none.
  abbrev pub field_in : String → String → List (Spec F) → Option (Field F)
  field_in t f [] = none
  field_in t f (spec ∷ specs) =
      if is_named t (type_of spec) then lookup f spec else field_in t f specs

  -- Field `f` of rule type `t`, or nothing if the rule type is missing.
  abbrev pub field_at : String → String → Dict (Spec F) → Option (Field F)
  field_at t f by_type = elim (lookup t by_type) [ none ↦ none | some spec ↦ lookup f spec ]

  -- Each rule stands under its type.
  abbrev pub IsTyped : Dict (Spec F) → Type 0
  IsTyped [] = Unit
  IsTyped ((t, spec) ∷ d) = (type_of spec ≡ some t) × IsTyped d

  insert-IsTyped :
      (t : String) (spec : Spec F) (d : Dict (Spec F))
      → type_of spec ≡ some t
      → IsTyped d
      → IsTyped (insert t spec d)
  insert-IsTyped t spec [] typed h = (typed, tt)
  insert-IsTyped t spec ((j, v) ∷ d) typed h = elim (Bool-cases (str_eq j t)) [
    | inl e ↦ rw e (typed ∙ ap (λ k. some k) (sym ((eq_iff j t).0 e)), h.1)
    | inr e ↦ rw e (h.0, insert-IsTyped t spec d typed h.1)
  ]

  lookup-IsTyped :
      (t : String) (spec : Spec F) (d : Dict (Spec F))
      → IsTyped d
      → lookup t d ≡ some spec
      → type_of spec ≡ some t
  lookup-IsTyped t spec [] h found = cc found
  lookup-IsTyped t spec ((j, v) ∷ d) h found = elim (Bool-cases (str_eq j t)) [
    | inl e ↦
        let same : v ≡ spec = cc (rw e at found) in
        ap (λ x. type_of x) (sym same) ∙ h.0 ∙ ap (λ k. some k) ((eq_iff j t).0 e)
    | inr e ↦ lookup-IsTyped t spec d h.1 (rw e at found)
  ]

  pub collect-IsTyped :
      (d d' : Dict (Spec F)) (specs : List (Spec F))
      → collect d specs ≡ settled d'
      → IsTyped d
      → IsTyped d'
  unfolding collect
  collect-IsTyped d d' [] done h = let same : d ≡ d' = cc done in rw (← same) h
  collect-IsTyped d d' (spec ∷ specs) done h = elim (Option-cases (type_of spec)) [
    | inl untyped ↦ ground (arith, rw (collect, untyped) at done)
    | inr (t, typed) ↦ elim (Option-cases (lookup t d)) [
      | inl new ↦
          collect-IsTyped (insert t spec d) d' specs
            (rw (collect, typed, contains_type, new) at done) (insert-IsTyped t spec d typed h)
      | inr (_, there) ↦ ground (arith, rw (collect, typed, contains_type, there) at done)
    ]
  ]

  -- In such a dict the search by type finds what stands under the type.
  pub field_in-values :
      (t f : String) (d : Dict (Spec F)) → IsTyped d → field_in t f (values d) ≡ field_at t f d
  field_in-values t f [] h = refl
  field_in-values t f ((j, v) ∷ d) h = elim (Bool-cases (str_eq j t)) [
    | inl e ↦ rw (field_at, h.0, e) refl
    | inr e ↦ rw (field_at, h.0, e) (field_in-values t f d h.1)
  ]

module _ {F : Type 0} ⦃n : Number F⦄ where
  apply_mapping-IsTyped :
      (guarded : Bool) (r : String) (fields : Fields F) (d d' : Dict (Spec F)) (spec : Spec F)
      → lookup r d ≡ some spec
      → apply_mapping guarded r fields d (some spec) ≡ settled d'
      → IsTyped d
      → IsTyped d'
  apply_mapping-IsTyped guarded r no_mapping d d' spec there done h = ground (arith, done)
  apply_mapping-IsTyped guarded r (mapping fields) d d' spec there done h =
      let (spec', written, stored) = >>=-eq-settled (apply_fields guarded r fields spec) _ done in
      let same : insert r spec' d ≡ d' = cc stored in
      let typed =
        apply_fields-type guarded r fields spec spec' written ∙ lookup-IsTyped r spec d h there in
      rw (← same) (insert-IsTyped r spec' d typed h)

  pub apply_layer-IsTyped :
      (guarded : Bool) (overrides : Dict (Fields F)) (d d' : Dict (Spec F))
      → apply_layer guarded overrides d ≡ settled d'
      → IsTyped d
      → IsTyped d'
  unfolding apply_layer apply_override
  apply_layer-IsTyped guarded [] d d' done h = let same : d ≡ d' = cc done in rw (← same) h
  apply_layer-IsTyped guarded ((r, fields) ∷ overrides) d d' done h =
      let (mid, one, rest) = >>=-eq-settled (apply_override guarded r fields d) _ done in
      elim (Option-cases (lookup r d)) [
        | inl missing ↦ ground (arith, rw missing at one)
        | inr (spec, there) ↦
            apply_layer-IsTyped guarded overrides mid d' rest
              (apply_mapping-IsTyped guarded r fields d mid spec there (rw there at one) h)
      ]
