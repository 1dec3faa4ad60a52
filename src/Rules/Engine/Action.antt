-- ===== src/Rules/Engine/Action.antt =====
-- The engine's action is the most severe answer of its rules, in whatever order they stand.
use td_sandboxed.Base.{
  ◌≡◌, ◌≢◌, refl, sym, ◌∙◌, ◌↔◌, inl, inr, Bool, true, false, List, [], ◌∷◌, Outcome, returned,
  raised, arith, Outcome-cases, returned-injective, All, String,
}
use td_sandboxed.Base.Sort.{insert, sort_onto, sorted}
use td_sandboxed.Rules.Model.{RuleAction, RuleResult, is_allowed}
use td_sandboxed.Rules.Engine.{
  Rule, Findings, no_findings, note_action, note, note_error, evaluate, final_action, validate,
  init, more_urgent,
}

abbrev pub worse : RuleAction → RuleAction → RuleAction
worse RuleAction.block b = RuleAction.block
worse RuleAction.warn RuleAction.block = RuleAction.block
worse RuleAction.warn _ = RuleAction.warn
worse RuleAction.allow b = b

worse_assoc : (a b c : RuleAction) → worse (worse a b) c ≡ worse a (worse b c)
worse_assoc a b c = ground arith

worse_swap : (a b c : RuleAction) → worse a (worse b c) ≡ worse b (worse a c)
worse_swap a b c = ground arith

worse_regroup : (a b c : RuleAction) → worse (worse a b) c ≡ worse b (worse a c)
worse_regroup a b c = ground arith

worse-allow : (a : RuleAction) → worse a RuleAction.allow ≡ a
worse-allow a = ground arith

module _ {F : Type 0} where
  -- A raising rule blocks in strict mode, and is passed over otherwise.
  abbrev pub answer : Bool → Outcome (RuleResult F) → RuleAction
  answer strict (returned result) = result.action
  answer true raised = RuleAction.block
  answer false raised = RuleAction.allow

module _ {C F : Type 0} where
  -- The rule raises nothing, and does not block.
  abbrev pub Passes : C → Rule C F → Type 0
  Passes context rule =
      (result : RuleResult F) × (rule.validate context ≡ returned result)
      × (result.action ≢ RuleAction.block)

  -- The most severe answer of a list of rules.
  abbrev pub worst : Bool → C → List (Rule C F) → RuleAction
  worst strict context [] = RuleAction.allow
  worst strict context (rule ∷ rules) =
      worse (answer strict (rule.validate context)) (worst strict context rules)

  action_of : Findings C F → RuleAction
  action_of s = final_action s.blocked_by s.warnings

  action_of-note_action :
      (rule : Rule C F) (result : RuleResult F) (a : RuleAction) (s : Findings C F)
      → action_of (note_action rule result a s) ≡ worse (action_of s) a
  unfolding action_of
  action_of-note_action rule result a s = ground arith

  action_of-note :
      (rule : Rule C F) (result : RuleResult F) (s : Findings C F)
      → action_of (note rule result s) ≡ worse (action_of s) result.action
  unfolding action_of
  action_of-note rule result s = action_of-note_action rule result result.action _

  action_of-note_error :
      (rule : Rule C F) (s : Findings C F) → action_of (note_error rule s) ≡ RuleAction.block
  unfolding action_of
  action_of-note_error rule s = refl

  evaluate-action :
      (strict go_on : Bool) (context : C) (rules : List (Rule C F)) (s : Findings C F)
      → action_of (evaluate strict go_on context rules s)
        ≡ worse (action_of s) (worst strict context rules)
  unfolding evaluate
  evaluate-action strict go_on context [] s = sym (worse-allow (action_of s))
  evaluate-action strict go_on context (rule ∷ rules) s =
      elim (Outcome-cases (rule.validate context)) [
        | inl e ↦ rw e (
            ground (
              arith,
              evaluate-action strict go_on context rules s,
              worse_assoc (action_of s) RuleAction.allow (worst strict context rules),
              action_of-note_error rule s,
            ))
        | inr (result, e) ↦ rw e (
            ground (
              arith,
              evaluate-action strict go_on context rules (note rule result s),
              worse_assoc (action_of s) result.action (worst strict context rules),
              action_of-note rule result s,
            ))
      ]

  worst-insert :
      (strict : Bool) (context : C) (x : Rule C F) (ys : List (Rule C F))
      → worst strict context (insert more_urgent x ys)
        ≡ worse (answer strict (x.validate context)) (worst strict context ys)
  unfolding insert
  worst-insert strict context x [] = refl
  worst-insert strict context x (y ∷ ys) = ground (
    arith,
    worst-insert strict context x ys,
    worse_swap (answer strict (y.validate context)) (answer strict (x.validate context))
        (worst strict context ys),
  )

  worst-sort_onto :
      (strict : Bool) (context : C) (acc xs : List (Rule C F))
      → worst strict context (sort_onto more_urgent acc xs)
        ≡ worse (worst strict context acc) (worst strict context xs)
  unfolding sort_onto
  worst-sort_onto strict context acc [] = sym (worse-allow (worst strict context acc))
  worst-sort_onto strict context acc (x ∷ xs) =
      worst-sort_onto strict context (insert more_urgent x acc) xs
      ∙ rw (worst-insert strict context x acc) (
          worse_regroup (answer strict (x.validate context)) (worst strict context acc)
            (worst strict context xs))

  -- The action of the engine is the most severe answer of the rules that it was given, in any
  -- order, where a rule that raises counts as a block in strict mode and as an ALLOW otherwise;
  -- neither the sorting nor the early stop at a block changes it.
  pub validate-action :
      (account_id : String) (rules : List (Rule C F)) (strict go_on : Bool) (context : C)
      → (validate (init account_id rules strict) context go_on).action ≡ worst strict context rules
  unfolding validate init sorted action_of
  validate-action account_id rules strict go_on context =
      evaluate-action strict go_on context (sorted more_urgent rules) no_findings
      ∙ worst-sort_onto strict context [] rules

  answer-Passes :
      (context : C) (rule : Rule C F)
      → (answer true (rule.validate context) ≢ RuleAction.block) ↔ Passes context rule
  answer-Passes context rule = elim (Outcome-cases (rule.validate context)) [
    | inl e ↦ (λ h. absurd (h (rw e)), λ (result, e', ok). absurd (cc (e, e')))
    | inr (result, e) ↦ (
      λ h. (result, e, λ b. h (rw e b)),
      λ (result', e', ok) b. ok (rw (← returned-injective _ _ (sym e ∙ e')) (rw e at b)),
    )
  ]

  worst-Passes :
      (context : C) (rules : List (Rule C F))
      → (is_allowed (worst true context rules) ≡ true) ↔ All (Passes context) rules
  worst-Passes context [] = (λ _. tt, λ _. refl)
  worst-Passes context (rule ∷ rules) =
      let (down, up) = worst-Passes context rules in
      let (pass, ok) = answer-Passes context rule in
      (
        λ h. (pass (λ e. absurd (ground arith)), down (ground arith)),
        λ (p, ps). let first = ok p in let rest = up ps in ground arith,
      )

  -- For every list of rules and every context, an engine in strict mode allows the trade exactly
  -- if every rule returned an answer that is no block: a rule that raises or blocks stops the
  -- trade, whatever the priorities and whether the evaluation stops early.
  pub validate-is_allowed :
      (account_id : String) (rules : List (Rule C F)) (go_on : Bool) (context : C)
      → (is_allowed (validate (init account_id rules true) context go_on).action ≡ true)
        ↔ All (Passes context) rules
  validate-is_allowed account_id rules go_on context =
      rw (validate-action account_id rules true go_on context) (worst-Passes context rules)
