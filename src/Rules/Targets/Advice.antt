-- ===== src/Rules/Targets/Advice.antt =====
-- The informational rules never stop a trade, and tell of a target exactly when it is met.
use td_sandboxed.Base.{◌≡◌, ◌≢◌, refl, ◌↔◌, inl, inr, Option, some, returned, arith, Bool-cases}
use td_sandboxed.Base.Int.{ℤ, pos, ◌+ℤ◌, ◌≤ℤ◌, leb_ℤ, int_laws}
use td_sandboxed.Base.Number.{Number, AtMost}
use td_sandboxed.Rules.Model.{RuleAction, RuleResult, Context, get_or, as_number}
use td_sandboxed.Rules.Targets.{
  DayCount, DaysResult, days_of, profit_validate, weekly_coerce, weekly_validate, days_validate,
}

module _ {F : Type 0} ⦃n : Number F⦄ where
  -- Where the total result is a number or missing, the profit target rule returns, never blocks,
  -- warns exactly if the target is reached, and reports the result.
  pub profit_validate-warns :
      (threshold : F) (context : Context F) {pnl : F}
      → as_number (get_or context.total_pnl_percent (n.literal 0)) ≡ returned pnl
      → (r : RuleResult F) × (profit_validate threshold context ≡ returned r)
        × (r.action ≡ RuleAction.warn ↔ AtMost threshold pnl)
        × (r.action ≢ RuleAction.block)
        × (r.current_value ≡ some pnl)
  unfolding profit_validate
  profit_validate-warns threshold context {pnl} read =
      rw read (elim (Bool-cases (n.le threshold pnl)) [
        | inl met ↦ rw met (_, refl, (λ _. refl, λ _. refl), (λ e. cc), refl)
        | inr missed ↦ rw missed (_, refl, (λ e. cc, λ e. cc), (λ e. cc), refl)
      ])

  -- The weekly target rule returns for every context, whatever its entry is, never blocks, and
  -- warns exactly if the target is reached.
  pub weekly_validate-warns :
      (threshold : F) (context : Context F)
      → (r : RuleResult F) × (weekly_validate threshold context ≡ returned r)
        × (r.action ≡ RuleAction.warn
            ↔ AtMost threshold (weekly_coerce (get_or context.weekly_pnl_percent (n.literal 0))))
        × (r.action ≢ RuleAction.block)
  unfolding weekly_validate
  weekly_validate-warns threshold context =
      let pnl = weekly_coerce (get_or context.weekly_pnl_percent (n.literal 0)) in
      elim (Bool-cases (n.le threshold pnl)) [
        | inl met ↦ rw met (_, refl, (λ _. refl, λ _. refl), (λ e. cc))
        | inr missed ↦ rw missed (_, refl, (λ e. cc, λ e. cc), (λ e. cc))
      ]

-- Where the count of trading days is a number or missing, the trading-days rule returns, never
-- blocks, warns exactly if the required days are reached, and otherwise reports the positive
-- number of days that are missing.
pub days_validate-warns :
    (required : ℤ) (count : Option DayCount) {days : ℤ}
    → days_of count ≡ returned days
    → (r : DaysResult) × (days_validate required count ≡ returned r)
      × (r.action ≡ RuleAction.warn ↔ required ≤ℤ days)
      × (r.action ≢ RuleAction.block)
      × ((missing : ℤ)
          → r.remaining_days ≡ some missing
          → (pos 1 ≤ℤ missing) × (days +ℤ missing ≡ required))
unfolding days_validate
days_validate-warns required count {days} read = rw read (elim (Bool-cases (leb_ℤ required days)) [
  | inl met ↦ rw met (_, refl, (λ _. ground arith, λ _. refl), (λ e. cc), (λ m e. absurd (cc e)))
  | inr missed ↦ rw missed (
    _,
    refl,
    (λ e. absurd (cc e), λ h. absurd (ground arith)),
    (λ e. cc),
    (λ m e. grind (int_laws, missed)),
  )
])
