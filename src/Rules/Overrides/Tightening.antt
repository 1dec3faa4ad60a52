-- ===== src/Rules/Overrides/Tightening.antt =====
-- The account layer may tighten a guarded threshold and never loosens it.
use td_sandboxed.Base.{
  String, str_eq, eq_iff, ◌≡◌, refl, sym, ◌⊎◌, inl, inr, true, false, Option, some, List, [], ◌∷◌,
  subst, arith, Bool-cases, Option-cases,
}
use td_sandboxed.Base.Dict.{Dict, lookup, insert, lookup-insert_self, lookup-insert_ne}
use td_sandboxed.Base.Number.{Number, IsOrdered, AtMost}
use td_sandboxed.Base.Comparison.{le_of_not_lt}
use td_sandboxed.Rules.Overrides.Steps.{>>=-eq-settled}
use td_sandboxed.Rules.Overrides.Typing.{
  field_in, field_at, collect-IsTyped, apply_layer-IsTyped, field_in-values,
}
use td_sandboxed.Rules.Overrides.{
  raise_if, changes_type, settled, lower_is_tighter, guard_of, Field, Spec, Fields, mapping,
  no_mapping, to_float, enforce_no_loosening, compare_numbers, enforce_guard, apply_known,
  apply_field, apply_fields, apply_mapping, apply_override, apply_layer, collect, values,
  merge_rule_overrides,
}

module _ {F : Type 0} ⦃n : Number F⦄ where
  -- A new value of a field that is the old one, or a number at or below the old number.
  abbrev pub IsTighter : Option (Field F) → Option (Field F) → Type 0
  IsTighter old new =
      (new ≡ old)
      ⊎ ((v : Field F) × (w : Field F) × (a : F) × (b : F) × (old ≡ some v)
          × (new ≡ some w)
          × (to_float v ≡ some a)
          × (to_float w ≡ some b)
          × AtMost b a)

  field_at-lookup :
      (t f : String) (by_type : Dict (Spec F)) (spec : Spec F)
      → lookup t by_type ≡ some spec
      → field_at t f by_type ≡ lookup f spec
  field_at-lookup t f by_type spec h = rw (field_at, h) refl

  field_at-other :
      (t f : String) (d d' : Dict (Spec F))
      → lookup t d' ≡ lookup t d
      → field_at t f d' ≡ field_at t f d
  field_at-other t f d d' h = rw (field_at, h) refl

  module _ (laws : IsOrdered F) where
    IsTighter-trans : (x y z : Option (Field F)) → IsTighter x y → IsTighter y z → IsTighter x z
    IsTighter-trans x y z (inl e) t = rw e at t
    IsTighter-trans x y z (inr s) (inl e) = inr (rw (← e) at s)
    IsTighter-trans x y z (inr (v, w, a, b, ex, ey, ea, eb, le))
          (inr (v', w', a', b', ey', ez, ea', eb', le')) =
        let met : b ≡ a' = ground arith in
        inr ((v, w', a, b', ex, ez, ea, eb', laws.le_trans b' b a (rw met le') le))

    compare-AtMost :
        (t f : String) (a b : F)
        → compare_numbers t f lower_is_tighter a b ≡ settled tt
        → AtMost b a
    compare-AtMost t f a b done = elim (Bool-cases (n.le b b)) [
      | inr e ↦ ground (arith, rw e at done)
      | inl eb ↦ elim (Bool-cases (n.le a a)) [
        | inr e ↦ ground (arith, rw (eb, e) at done)
        | inl ea ↦ elim (Bool-cases (n.lt a b)) [
          | inl e ↦ ground (arith, rw (eb, ea, e) at done)
          | inr e ↦ le_of_not_lt laws b a eb ea e
        ]
      ]
    ]

    enforce_guard-IsTighter :
        (t f : String) (v w : Field F)
        → enforce_guard t f v w (some lower_is_tighter) ≡ settled tt
        → IsTighter (some v) (some w)
    enforce_guard-IsTighter t f v w done = elim (Option-cases (to_float v)) [
      | inl e ↦ ground (arith, rw e at done)
      | inr (a, ea) ↦ elim (Option-cases (to_float w)) [
        | inl e ↦ ground (arith, rw (ea, e) at done)
        | inr (b, eb) ↦
            inr ((v, w, a, b, refl, refl, ea, eb, compare-AtMost t f a b (rw (ea, eb) at done)))
      ]
    ]

    enforce-IsTighter :
        (t f : String) (v w : Field F)
        → guard_of t f ≡ some lower_is_tighter
        → enforce_no_loosening t f v w ≡ settled tt
        → IsTighter (some v) (some w)
    unfolding enforce_no_loosening
    enforce-IsTighter t f v w guarded done = enforce_guard-IsTighter t f v w (rw guarded at done)

    apply_known-IsTighter :
        (t f : String) (w : Field F) (spec spec' : Spec F)
        → guard_of t f ≡ some lower_is_tighter
        → apply_known true t f w spec (lookup f spec) ≡ settled spec'
        → IsTighter (lookup f spec) (lookup f spec')
    apply_known-IsTighter t f w spec spec' guarded done = elim (Option-cases (lookup f spec)) [
      | inl e ↦ ground (arith, rw e at done)
      | inr (v, e) ↦
          let (u, passed, written) =
            >>=-eq-settled (enforce_no_loosening t f v w) _ (rw e at done) in
          let tighter = enforce-IsTighter t f v w guarded passed in
          let same : insert f w spec ≡ spec' = cc written in
          rw (← same, e, lookup-insert_self f w spec) tighter
    ]

    -- A write to another field leaves this one.
    apply_field-IsTighter :
        (t f g : String) (w : Field F) (spec spec' : Spec F)
        → guard_of t f ≡ some lower_is_tighter
        → apply_field true t g w spec ≡ settled spec'
        → IsTighter (lookup f spec) (lookup f spec')
    unfolding apply_field
    apply_field-IsTighter t f g w spec spec' guarded done =
        let (_, _, known) = >>=-eq-settled (raise_if (str_eq g "type") (changes_type t)) _ done in
        elim (Bool-cases (str_eq g f)) [
          | inl e ↦
              let same : g ≡ f = (eq_iff g f).0 e in
              apply_known-IsTighter t f w spec spec' guarded (rw same at known)
          | inr e ↦ elim (Option-cases (lookup g spec)) [
            | inl missing ↦ ground (arith, rw missing at known)
            | inr (v, there) ↦
                let (_, _, written) =
                  >>=-eq-settled (enforce_no_loosening t g v w) _ (rw there at known) in
                let same : insert g w spec ≡ spec' = cc written in
                inl (rw (← same) (lookup-insert_ne g f w spec (ground (arith, eq_iff g f, e))))
          ]
        ]

    apply_fields-IsTighter :
        (t f : String) (fields : Dict (Field F)) (spec spec' : Spec F)
        → guard_of t f ≡ some lower_is_tighter
        → apply_fields true t fields spec ≡ settled spec'
        → IsTighter (lookup f spec) (lookup f spec')
    unfolding apply_fields
    apply_fields-IsTighter t f [] spec spec' guarded done =
        let same : spec ≡ spec' = cc done in inl (rw same)
    apply_fields-IsTighter t f ((g, w) ∷ fields) spec spec' guarded done =
        let (mid, one, rest) = >>=-eq-settled (apply_field true t g w spec) _ done in
        IsTighter-trans _ _ _ (apply_field-IsTighter t f g w spec mid guarded one)
          (apply_fields-IsTighter t f fields mid spec' guarded rest)

    stored-IsTighter :
        (t f : String) (by_type : Dict (Spec F)) (spec spec' : Spec F)
        → lookup t by_type ≡ some spec
        → IsTighter (lookup f spec) (lookup f spec')
        → IsTighter (field_at t f by_type) (field_at t f (insert t spec' by_type))
    stored-IsTighter t f by_type spec spec' there tighter =
        rw
          (
            field_at-lookup t f by_type spec there,
            field_at-lookup t f (insert t spec' by_type) spec' (lookup-insert_self t spec' by_type),
          )
          tighter

    apply_mapping-IsTighter :
        (t f r : String) (fields : Fields F) (by_type by_type' : Dict (Spec F)) (spec : Spec F)
        → guard_of t f ≡ some lower_is_tighter
        → lookup r by_type ≡ some spec
        → apply_mapping true r fields by_type (some spec) ≡ settled by_type'
        → IsTighter (field_at t f by_type) (field_at t f by_type')
    apply_mapping-IsTighter t f r no_mapping by_type by_type' spec guarded there done =
        ground (arith, done)
    apply_mapping-IsTighter t f r (mapping fields) by_type by_type' spec guarded there done =
        let (spec', written, stored) = >>=-eq-settled (apply_fields true r fields spec) _ done in
        let same : insert r spec' by_type ≡ by_type' = cc stored in
        elim (Bool-cases (str_eq r t)) [
          | inl e ↦
              let here : r ≡ t = (eq_iff r t).0 e in
              let tighter =
                apply_fields-IsTighter t f fields spec spec' guarded (rw here at written) in
              subst (λ d. IsTighter (field_at t f by_type) (field_at t f d)) same
                (subst
                  (λ k. IsTighter (field_at t f by_type) (field_at t f (insert k spec' by_type)))
                  (sym here) (stored-IsTighter t f by_type spec spec' (rw here at there) tighter))
          | inr e ↦ inl (
              rw (← same) (
                field_at-other t f by_type (insert r spec' by_type)
                  (lookup-insert_ne r t spec' by_type (ground (arith, eq_iff r t, e)))))
        ]

    apply_override-IsTighter :
        (t f r : String) (fields : Fields F) (by_type by_type' : Dict (Spec F))
        → guard_of t f ≡ some lower_is_tighter
        → apply_override true r fields by_type ≡ settled by_type'
        → IsTighter (field_at t f by_type) (field_at t f by_type')
    unfolding apply_override
    apply_override-IsTighter t f r fields by_type by_type' guarded done =
        elim (Option-cases (lookup r by_type)) [
          | inl missing ↦ ground (arith, rw missing at done)
          | inr (spec, there) ↦
              apply_mapping-IsTighter t f r fields by_type by_type' spec guarded there
                (rw there at done)
        ]

    -- The account layer leaves a guarded field as it was, or writes a number at or below it.
    pub apply_layer-IsTighter :
        (t f : String) (overrides : Dict (Fields F)) (by_type by_type' : Dict (Spec F))
        → guard_of t f ≡ some lower_is_tighter
        → apply_layer true overrides by_type ≡ settled by_type'
        → IsTighter (field_at t f by_type) (field_at t f by_type')
    unfolding apply_layer
    apply_layer-IsTighter t f [] by_type by_type' guarded done =
        let same : by_type ≡ by_type' = cc done in inl (rw same)
    apply_layer-IsTighter t f ((r, fields) ∷ overrides) by_type by_type' guarded done =
        let (mid, one, rest) = >>=-eq-settled (apply_override true r fields by_type) _ done in
        IsTighter-trans _ _ _ (apply_override-IsTighter t f r fields by_type mid guarded one)
          (apply_layer-IsTighter t f overrides mid by_type' guarded rest)

    -- Under the laws of comparison, if a merge of rule overrides succeeds, the merge of the
    -- product and the phase without the account succeeds too, and a field that the registry guards
    -- with the direction lower_is_tighter has, in the rule of its type, either the value of that
    -- merge or a number at or below it.
    pub merge_rule_overrides-IsTighter :
        (t f : String) (product : List (Spec F)) (phase account : Dict (Fields F))
        (merged : List (Spec F))
        → guard_of t f ≡ some lower_is_tighter
        → merge_rule_overrides product phase account ≡ settled merged
        → (phased : List (Spec F)) × (merge_rule_overrides product phase [] ≡ settled phased)
          × IsTighter (field_in t f phased) (field_in t f merged)
    unfolding merge_rule_overrides apply_layer
    merge_rule_overrides-IsTighter t f product phase account merged guarded done =
        let (by_type, collected, layered) = >>=-eq-settled (collect [] product) _ done in
        let (phased, softened, rest) = >>=-eq-settled (apply_layer false phase by_type) _ layered in
        let (final, tightened, listed) = >>=-eq-settled (apply_layer true account phased) _ rest in
        let same : values final ≡ merged = cc listed in
        let first =
          apply_layer-IsTyped false phase by_type phased softened
            (collect-IsTyped [] by_type product collected tt) in
        let second = apply_layer-IsTyped true account phased final tightened first in
        (
          values phased,
          rw (collected, softened) refl,
          rw (← same, field_in-values t f phased first, field_in-values t f final second)
              (apply_layer-IsTighter t f account phased final guarded tightened),
        )
