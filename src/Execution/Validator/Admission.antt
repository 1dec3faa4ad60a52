-- ===== src/Execution/Validator/Admission.antt =====
-- Which orders the validator admits, what reaches the broker behind it, and which rules it disarms.
use td_sandboxed.Base.{
  ℕ, ◌+◌, ◌≤◌, ◌≡◌, ◌≢◌, ◌↔◌, ◌∙◌, refl, ap, sym, inl, inr, Bool, true, false, not, String, List,
  ◌∷◌, All, returned, leb→le, ltb→lt, lt→ltb, ◌<◌, if◌then◌else◌, arith, Bool-cases, length,
}
use td_sandboxed.Base.Number.{Number, IsOrdered}
use td_sandboxed.Rules.Model.{RuleAction, Message, RuleResult, Context, is_allowed, is_blocked}
use td_sandboxed.Rules.Engine.{Rule, RuleEngineResult, Findings, init, validate}
use td_sandboxed.Rules.Engine.Action.{Passes, validate-is_allowed}
use td_sandboxed.Rules.Consistency
use td_sandboxed.Execution.Validator.{
  AccountState, blocked, admitted, mapped, validate_in, validate_order, build_validation_context,
}
use td_sandboxed.Execution.Reservation.{up, reserved_lots}
use td_sandboxed.Execution.Gate.{Adapter, Order, Answers, World, snapshot, send_order_and_wait}
use td_sandboxed.Execution.Gate.Decision.{IsGuarded, is_fitting, send_order_and_wait-sent}

cons-ne : (v : ℕ) (vs : List ℕ) → vs ≢ v ∷ vs
cons-ne v vs h = absurd (omega (arith, ap (length {0}) h))

longer-true : (b : Bool) (v : ℕ) (vs : List ℕ) → (if b then v ∷ vs else vs) ≡ v ∷ vs → b ≡ true
longer-true true v vs h = refl
longer-true false v vs h = absurd (cons-ne v vs h)

-- The total is within the cap, and below it where a sum in it rounds up.
abbrev pub IsFitting : (rounds_up : Bool) → (total m : ℕ) → Type 0
IsFitting true total m = total < m
IsFitting false total m = total ≤ m

is_fitting-IsFitting :
    (rounds_up : Bool) (total m : ℕ)
    → (is_fitting rounds_up total m ≡ true) ↔ IsFitting rounds_up total m
is_fitting-IsFitting true total m = (λ h. ltb→lt total m h, λ h. lt→ltb total m h)
is_fitting-IsFitting false total m = (λ h. leb→le total m h, λ h. ground (arith, h))

-- An order that the rules block does not reach the broker.
stopped_lem :
    (adapter : Adapter) (order : Order) (answers : Answers) (w : World)
    → answers.is_blocked ≡ true
    → (send_order_and_wait adapter order answers w).1.sent ≡ w.sent
unfolding send_order_and_wait
stopped_lem adapter order answers w h = simp h refl

module _ {C F : Type 0} where
  branch-allowed :
      (action : RuleAction) (f : Findings C F) (messages : List (Message F))
      → (if is_blocked action then blocked f else admitted messages).allowed ≡ is_allowed action
  branch-allowed RuleAction.allow f messages = refl
  branch-allowed RuleAction.warn f messages = refl
  branch-allowed RuleAction.block f messages = refl

  -- The validator maps the action of the engine.
  mapped-allowed : (r : RuleEngineResult C F) → (mapped r).allowed ≡ is_allowed r.action
  mapped-allowed r = branch-allowed r.action r.findings _

module _ {F : Type 0} ⦃n : Number F⦄ where
  -- With a strict engine the validator admits an order exactly if the audit did not raise and every
  -- rule returned an answer that is no block for the context built from the order and the account.
  pub validate_order-allowed :
      (account_id : String) (rules : List (Rule (Context F) F)) (audited : Bool) (volume : F)
      (state : AccountState F)
      → ((validate_order (init account_id rules true) audited volume state).allowed ≡ true)
        ↔ ((audited ≡ true) × All (Passes (build_validation_context volume state)) rules)
  unfolding validate_order validate_in
  validate_order-allowed account_id rules true volume state =
      let context = build_validation_context volume state in
      let same = mapped-allowed (validate (init account_id rules true) context false) in
      let engine = validate-is_allowed account_id rules false context in
      (λ h. (refl, engine.0 (sym same ∙ h)), λ h. same ∙ engine.1 h.1)
  validate_order-allowed account_id rules false volume state = (λ h. cc h, λ h. cc h.0)

  judge_zero :
      (rule : Consistency.ConsistencyRule F)
      → n.le (n.literal 0) (n.literal 0) ≡ true
      → Consistency.judge rule (n.literal 0) ≡ Consistency.not_applicable rule
  unfolding Consistency.judge
  judge_zero rule h = rw h

  -- Under the laws of comparison, whatever the order and the account, in the context that the
  -- validator builds the consistency rule allows.
  pub consistency-disarmed :
      (laws : IsOrdered F) (rule : Consistency.ConsistencyRule F) (volume : F)
      (state : AccountState F)
      → (r : RuleResult F) × (Consistency.validate rule (build_validation_context volume state)
          ≡ returned r)
        × (r.action ≡ RuleAction.allow)
  unfolding build_validation_context Consistency.validate Consistency.compute_ratio_percent
  consistency-disarmed laws rule volume state =
      let zero_ = laws.literal_le 0 0 (omega arith) in
      rw zero_ (Consistency.not_applicable rule, ap (λ r. returned r) (judge_zero rule zero_), refl)

  -- Behind a strict engine and a gate at work with the cap `m`, with Redis answering, an order
  -- reaches the broker exactly if the audit did not raise, every rule returned an answer that is
  -- no block, and the reserved lots, its own and the open lots that were read are within the cap,
  -- or below it where the sum of the first two rounds up as doubles.
  pub send_order_and_wait-admitted :
      (account_id : String) (rules : List (Rule (Context F) F)) (audited : Bool) (volume : F)
      (state : AccountState F) (adapter : Adapter) (order : Order) (answers : Answers) (w : World)
      (m : ℕ)
      → answers.is_blocked
        ≡ not (validate_order (init account_id rules true) audited volume state).allowed
      → answers.reserving ≡ up
      → IsGuarded adapter (snapshot adapter answers.has_risk_state w.position) m
      → ((send_order_and_wait adapter order answers w).1.sent ≡ order.volume ∷ w.sent) ↔ (
          (audited ≡ true)
          × All (Passes (build_validation_context volume state)) rules
          × IsFitting
              (adapter.scripts.rounds_up (reserved_lots w.key) order.volume)
              (reserved_lots w.key
                + order.volume
                + snapshot adapter answers.has_risk_state w.position)
              m)
  send_order_and_wait-admitted account_id rules audited volume state adapter order answers w m asked
        answered_ guarded =
      let verdict = validate_order-allowed account_id rules audited volume state in
      let rounds_up = adapter.scripts.rounds_up (reserved_lots w.key) order.volume in
      let total =
        reserved_lots w.key + order.volume + snapshot adapter answers.has_risk_state w.position in
      elim (Bool-cases (validate_order (init account_id rules true) audited volume state).allowed) [
        | inr refused ↦
            let kept = stopped_lem adapter order answers w (asked ∙ ap not refused) in
            (
              λ h. absurd (cons-ne order.volume w.sent (sym kept ∙ h)),
              λ h. let passed = verdict.1 (h.0, h.1) in cc (passed, refused),
            )
        | inl passed ↦
            let sent =
              send_order_and_wait-sent adapter order answers w m (asked ∙ ap not passed) answered_
                guarded in
            let rest = verdict.0 passed in
            (
              λ h. (
                rest.0,
                rest.1,
                (is_fitting-IsFitting rounds_up total m).0
                    (longer-true (is_fitting rounds_up total m) order.volume w.sent (sym sent ∙ h)),
              ),
              λ h. sent ∙ rw ((is_fitting-IsFitting rounds_up total m).1 h.2) refl,
            )
      ]
