-- ===== src/Rules/Consistency/Verdict.antt =====
-- What ConsistencyRule checks of its settings, and what it answers.
use td_sandboxed.Base.{
  ◌≡◌, refl, ◌⊎◌, inl, inr, false, Option, none, some, List, [], ◌∷◌, Outcome, returned, raised,
  arith, All, All-map, returned-injective, >>=-eq-returned, Bool-cases, String, ◌&&◌,
}
use td_sandboxed.Base.Sort.{sorted-All}
use td_sandboxed.Base.Number.{Number, IsOrdered, IsNumber, AtMost, Below}
use td_sandboxed.Base.Comparison.{lt_of_not_le, not_le_of_lt}
use td_sandboxed.Rules.Model.{Value, RuleResult, Context, to_float}
use td_sandboxed.Rules.Ladder.{ascending, IsHighest, descending-IsHighest}
use td_sandboxed.Rules.Grading.{Scale, IsGraded}
use td_sandboxed.Rules.Consistency.{
  ConsistencyRule, keep_below, check_below, ladder_of, init, sum_positive, history_of,
  compute_ratio_percent, not_applicable, warning_metadata, graded, judge, validate,
}

module _ {F : Type 0} ⦃n : Number F⦄ where
  -- The ratio is compared with the levels as it is.
  abbrev pub scale : ConsistencyRule F → Scale F
  scale rule = record {
    limit = rule.block_at;
    levels = rule.warn_at;
    usage = λ ratio. ratio;
    Reports = λ usage level r. r.metadata ≡ warning_metadata rule usage level;
  }

  keep_below-All : (block : F) (ws : List F) → All (λ w. Below w block) (keep_below block ws)
  keep_below-All block [] = tt
  keep_below-All block (w ∷ ws) = elim (Bool-cases (n.lt w block)) [
    | inl below ↦ rw below (below, keep_below-All block ws)
    | inr above ↦ rw above (keep_below-All block ws)
  ]

  check_below-All :
      (block : F) (ws kept : List F)
      → check_below block ws ≡ returned kept
      → All (λ w. n.le block w ≡ false) kept
  check_below-All block [] kept e = ground arith
  check_below-All block (w ∷ ws) kept e = go (check_below block ws) refl (check_below-All block ws)
    where
      go :
          (o : Outcome (List F))
          → check_below block ws ≡ o
          → ((k : List F) → check_below block ws ≡ returned k → All (λ v. n.le block v ≡ false) k)
          → All (λ v. n.le block v ≡ false) kept
      go raised stop below = cc
      go (returned rest) go_on below = ground (arith, below rest)

  ladder_of-All :
      (laws : IsOrdered F) (block : F) (warn_at : Option (List F)) (kept : List F)
      → ladder_of block warn_at ≡ returned kept
      → All (λ w. n.le block w ≡ false) kept
  ladder_of-All laws block (some levels) kept e = check_below-All block (ascending levels) kept e
  ladder_of-All laws block none kept e =
      let ladder : List F = n.literal 40 ∷ n.literal 45 ∷ n.literal 48 ∷ [] in
      let below =
        sorted-All (λ x y. n.lt x y) (λ w. Below w block) _ (keep_below-All block ladder) in
      rw (← returned-injective _ _ e)
        (unfold ascending in All-map (λ w lower. not_le_of_lt laws w block lower) _ below)

  -- Under the laws of comparison, a consistency rule that __init__ accepts has its limit above 0
  -- and at most 100, and no warning level at or above it.
  pub init-InRange :
      (laws : IsOrdered F) (warn_at : Option (List F)) (block : F) {rule : ConsistencyRule F}
      → init warn_at block ≡ returned rule
      → Below (n.literal 0) rule.block_at
        × AtMost rule.block_at (n.literal 100)
        × All (λ w. n.le rule.block_at w ≡ false) rule.warn_at
  unfolding init
  init-InRange laws warn_at block {rule} e =
      elim (Bool-cases (n.lt (n.literal 0) block && n.le block (n.literal 100))) [
        | inr out ↦ absurd (ground arith)
        | inl range ↦
            let (warn, found, made) = >>=-eq-returned (ladder_of block warn_at) _ (rw range at e) in
            let same = returned-injective _ _ made in
            rw (← same) (ground arith, ground arith, ladder_of-All laws block warn_at warn found)
      ]

  no_profit :
      (history : List (String × Value F)) (sum : F)
      → All
          (λ e.
            to_float e.1 ≡ raised
            ⊎ ((v : F) × (to_float e.1 ≡ returned v) × (n.lt (n.literal 0) v ≡ false)))
          history
      → sum_positive sum history ≡ sum
  unfolding sum_positive
  no_profit [] sum h = refl
  no_profit ((day, value) ∷ history) sum (inl bad, h) = rw bad (no_profit history sum h)
  no_profit ((day, value) ∷ history) sum (inr (v, e, small), h) =
      rw (e, small) (no_profit history sum h)

  -- Under the laws of comparison, where no earlier day has a positive profit, entries that are no
  -- number included, the consistency rule allows every trade, however large today's profit.
  pub first_profit_allows :
      (laws : IsOrdered F) (rule : ConsistencyRule F) (context : Context F)
      → All
          (λ e.
            to_float e.1 ≡ raised
            ⊎ ((v : F) × (to_float e.1 ≡ returned v) × (n.lt (n.literal 0) v ≡ false)))
          (history_of context)
      → validate rule context ≡ returned (not_applicable rule)
  unfolding validate
  first_profit_allows laws rule context h =
      ground (arith, no_profit (history_of context) (n.literal 0) h, laws.literal_le 0 0)

  module _ (laws : IsOrdered F) (rule : ConsistencyRule F) (limit : IsNumber rule.block_at)
      (levels : All IsNumber rule.warn_at) where
    graded-IsGraded :
        (x : F) (found : Option F)
        → Below (n.literal 0) x
        → Below x rule.block_at
        → IsHighest x rule.warn_at found
        → IsGraded (scale rule) x (graded rule x found)
    graded-IsGraded x none positive under h = inr (positive, under, h)
    graded-IsGraded x (some level) positive under h = (positive, under, (level, h, refl))

    judge-IsGraded : (x : F) → IsNumber x → IsGraded (scale rule) x (judge rule x)
    unfolding judge
    judge-IsGraded x number = elim (Bool-cases (n.le x (n.literal 0))) [
      | inl small ↦ rw small (inl small)
      | inr large ↦
          let positive = lt_of_not_le laws _ _ (laws.literal_le 0 0 (omega arith)) number large in
          elim (Bool-cases (n.le rule.block_at x)) [
            | inl over ↦ rw (large, over) (positive, over)
            | inr under ↦
                rw (large, under)
                  (graded-IsGraded x _ positive (lt_of_not_le laws _ _ number limit under)
                    (descending-IsHighest laws x rule.warn_at levels))
          ]
    ]

    -- Under the laws of comparison and for a numeric limit and levels, if today's share of the
    -- profits is a number the consistency rule returns. It blocks a positive share at or above
    -- block_at, warns of a smaller one with the highest level that it reaches, and allows
    -- otherwise.
    pub consistency_validate-IsGraded :
        (context : Context F) (x : F)
        → compute_ratio_percent context ≡ returned x
        → IsNumber x
        → (r : RuleResult F) × (validate rule context ≡ returned r) × IsGraded (scale rule) x r
    unfolding validate
    consistency_validate-IsGraded context x read number =
        rw read (judge rule x, refl, judge-IsGraded x number)
