-- ===== src/Rules/Engine/Order.antt =====
-- The order in which the engine asks its rules, and where it stops.
use td_sandboxed.Base.{
  ◌≡◌, refl, sym, subst, ap, ◌∙◌, ◌⊎◌, inl, inr, Bool, true, false, none, some, List, [], ◌∷◌, ◌++◌,
  map, returned, raised, arith, Bool-cases, Outcome-cases, returned-injective, All, String,
}
use mathlib.Core.List.{Perm, append-nil, append_assoc, map-append}
use td_sandboxed.Base.Int.{◌≤ℤ◌}
use td_sandboxed.Base.Sort.{IsSortedBy, sorted-perm, sorted-IsSortedBy}
use td_sandboxed.Rules.Model.{RuleAction, RuleResult, is_blocked}
use td_sandboxed.Rules.Engine.{
  Rule, RuleEngine, Findings, no_findings, note_action, note, note_error, evaluate, validate, init,
  more_urgent, priority_of,
}
use td_sandboxed.Rules.Engine.Action.{Passes}

module _ {C F : Type 0} where
  -- An engine holds the rules that it was given, each as often as it was given, in order of
  -- priority.
  pub init-IsSortedBy :
      (account_id : String) (rules : List (Rule C F)) (strict : Bool)
      → let engine = init account_id rules strict in
        Perm engine.rules rules × IsSortedBy (λ a b. priority_of a ≤ℤ priority_of b) engine.rules
  unfolding init
  init-IsSortedBy account_id rules strict = (
    sorted-perm more_urgent rules,
    sorted-IsSortedBy more_urgent (λ a b. priority_of a ≤ℤ priority_of b) (λ _. Unit)
        (λ x y _ _ e. ground arith) (λ x y _ _ e. ground arith) (λ x y z p q. omega arith) rules
        (All_trivial rules),
  )
    where
      All_trivial : (xs : List (Rule C F)) → All (λ _. Unit) xs
      All_trivial [] = tt
      All_trivial (x ∷ xs) = (tt, All_trivial xs)

  abbrev asked : Findings C F → List (Rule C F)
  asked s = map (λ e. e.0) s.all_results

  -- How a run over `rules` with the results `before` has ended: all passed and were asked, or the
  -- run stopped at the first that does not pass, and asked none behind it.
  abbrev pub IsStopped : C → List (Rule C F) → List (Rule C F) → Findings C F → Type 0
  IsStopped context earlier rules s =
      (s.blocked_by ≡ none) × All (Passes context) rules × (asked s ≡ earlier ++ rules)
      ⊎ ((before : List (Rule C F)) × (culprit : Rule C F) × (after : List (Rule C F)) × (rules
            ≡ before ++ (culprit ∷ after))
          × All (Passes context) before
          × (¬ Passes context culprit)
          × (s.blocked_by ≡ some culprit)
          × (asked s ≡ earlier ++ (before ++ (culprit ∷ []))))

  asked-note_action :
      (rule : Rule C F) (result : RuleResult F) (a : RuleAction) (s : Findings C F)
      → asked (note_action rule result a s) ≡ asked s
  asked-note_action rule result a s = ground arith

  asked-note :
      (rule : Rule C F) (result : RuleResult F) (s : Findings C F)
      → asked (note rule result s) ≡ asked s ++ (rule ∷ [])
  asked-note rule result s =
      asked-note_action rule result result.action _ ∙ map-append (λ e. e.0) s.all_results _

  passed_blocked_by :
      (rule : Rule C F) (result : RuleResult F) (s : Findings C F)
      → is_blocked result.action ≡ false
      → s.blocked_by ≡ none
      → (note rule result s).blocked_by ≡ none
  passed_blocked_by rule result s pass open_ = ground arith

  IsStopped-here :
      (context : C) (rule : Rule C F) (rules : List (Rule C F)) (s out : Findings C F)
      → ¬ Passes context rule
      → out.blocked_by ≡ some rule
      → asked out ≡ asked s ++ (rule ∷ [])
      → IsStopped context (asked s) (rule ∷ rules) out
  IsStopped-here context rule rules s out fails by asks =
      inr ([], rule, rules, refl, tt, fails, by, asks)

  IsStopped-later :
      (context : C) (rule : Rule C F) (earlier rules : List (Rule C F)) (out : Findings C F)
      → Passes context rule
      → IsStopped context (earlier ++ (rule ∷ [])) rules out
      → IsStopped context earlier (rule ∷ rules) out
  IsStopped-later context rule earlier rules out pass (inl (open_, all, asks)) =
      inl (open_, (pass, all), asks ∙ append_assoc earlier (rule ∷ []) rules)
  IsStopped-later context rule earlier rules out pass
        (inr (before, culprit, after, split, all, fails, by, asks)) =
      inr (
        rule ∷ before,
        culprit,
        after,
        ap (λ l. rule ∷ l) split,
        (pass, all),
        fails,
        by,
        asks ∙ append_assoc earlier (rule ∷ []) (before ++ (culprit ∷ [])),
      )

  blocks_fails :
      (context : C) (rule : Rule C F) (result : RuleResult F)
      → rule.validate context ≡ returned result
      → is_blocked result.action ≡ true
      → ¬ Passes context rule
  blocks_fails context rule result e stop (other, e', ok) =
      ok (rw (← returned-injective _ _ (sym e ∙ e')) (ground arith))

  block_blocked_by :
      (rule : Rule C F) (result : RuleResult F) (s : Findings C F)
      → is_blocked result.action ≡ true
      → (note rule result s).blocked_by ≡ some rule
  block_blocked_by rule result s stop = ground arith

  evaluate_raised :
      (context : C) (rule : Rule C F) (rules : List (Rule C F)) (s : Findings C F)
      → rule.validate context ≡ raised
      → note_error rule s ≡ evaluate true false context (rule ∷ rules) s
  unfolding evaluate
  evaluate_raised context rule rules s e = rw (e, evaluate)

  evaluate_blocked :
      (context : C) (rule : Rule C F) (rules : List (Rule C F)) (s : Findings C F)
      (result : RuleResult F)
      → rule.validate context ≡ returned result
      → is_blocked result.action ≡ true
      → note rule result s ≡ evaluate true false context (rule ∷ rules) s
  unfolding evaluate
  evaluate_blocked context rule rules s result e stop = rw (e, evaluate) (rw stop)

  evaluate_passed :
      (context : C) (rule : Rule C F) (rules : List (Rule C F)) (s : Findings C F)
      (result : RuleResult F)
      → rule.validate context ≡ returned result
      → is_blocked result.action ≡ false
      → evaluate true false context rules (note rule result s)
        ≡ evaluate true false context (rule ∷ rules) s
  unfolding evaluate
  evaluate_passed context rule rules s result e pass = rw (e, evaluate) (rw pass)

  evaluate-IsStopped :
      (context : C) (rules : List (Rule C F)) (s : Findings C F)
      → s.blocked_by ≡ none
      → IsStopped context (asked s) rules (evaluate true false context rules s)
  unfolding evaluate
  evaluate-IsStopped context [] s open_ = inl (open_, tt, sym (append-nil (asked s)))
  evaluate-IsStopped context (rule ∷ rules) s open_ =
      let Stopped = IsStopped context (asked s) (rule ∷ rules) in
      elim (Outcome-cases (rule.validate context)) [
        | inl e ↦ subst Stopped (evaluate_raised context rule rules s e) (
            IsStopped-here context rule rules s (note_error rule s) (λ (result, e', _). cc (e, e'))
              refl (map-append (λ e. e.0) s.all_results _))
        | inr (result, e) ↦ elim (Bool-cases (is_blocked result.action)) [
          | inl stop ↦ subst Stopped (evaluate_blocked context rule rules s result e stop) (
              IsStopped-here context rule rules s (note rule result s)
                (blocks_fails context rule result e stop) (block_blocked_by rule result s stop)
                (asked-note rule result s))
          | inr pass ↦ subst Stopped (evaluate_passed context rule rules s result e pass) (
              IsStopped-later context rule (asked s) rules
                (evaluate true false context rules (note rule result s))
                (result, e, λ b. absurd (ground arith))
                (subst
                  (λ l.
                    IsStopped context l rules
                      (evaluate true false context rules (note rule result s)))
                  (asked-note rule result s)
                  (evaluate-IsStopped context rules (note rule result s)
                    (passed_blocked_by rule result s pass open_))))
        ]
      ]

  -- In strict mode without continue_after_block, either every rule passed and was asked in order
  -- and nothing blocked, or the rule named as the blocker is the first that blocks or raises, and
  -- exactly the rules up to it were asked.
  pub validate-IsStopped :
      (engine : RuleEngine C F) (context : C)
      → engine.strict_mode ≡ true
      → IsStopped context [] engine.rules (validate engine context false).findings
  unfolding validate
  validate-IsStopped engine context strict =
      rw strict (evaluate-IsStopped context engine.rules no_findings refl)
