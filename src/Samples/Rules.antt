-- ===== src/Samples/Rules.antt =====
-- The rules at concrete accounts. Numbers are hundredths.
use td_sandboxed.Base.{
  ℕ, ◌≡◌, ◌≢◌, ◌≤◌, ◌↔◌, ◌⊎◌, inl, inr, refl, Bool, true, false, Option, none, some, List, [], ◌∷◌,
  ◌++◌, String, All, Outcome, returned, raised, map,
}
use td_sandboxed.Base.Int.{ℤ, pos, negsuc, ◌≤ℤ◌, ◌+ℤ◌}
use td_sandboxed.Samples.Fixed.{fixed, fixed-IsOrdered, fixed-IsMonotone}
use td_sandboxed.Rules.Model.{RuleResult, Context, no_context, float}
use td_sandboxed.Rules.Grading.{IsGraded}
use td_sandboxed.Rules.DailyLoss.{DailyLossLimitRule}
use td_sandboxed.Rules.DailyLoss
use td_sandboxed.Rules.DailyLoss.Verdict as Loss
use td_sandboxed.Rules.MaxDrawdown.{MaxDrawdownRule, Method, compute_drawdown_percent}
use td_sandboxed.Rules.MaxDrawdown
use td_sandboxed.Rules.MaxDrawdown.Verdict as Drawdown
use td_sandboxed.Rules.PositionSize.{MaxPositionSizeRule}
use td_sandboxed.Rules.PositionSize
use td_sandboxed.Rules.PositionSize.Cap.{IsCapped, validate-IsCapped}
use td_sandboxed.Rules.Consistency.{ConsistencyRule}
use td_sandboxed.Rules.Consistency
use td_sandboxed.Rules.Consistency.Verdict as Share

abbrev pub loss_rule : DailyLossLimitRule ℤ
loss_rule = record {
  threshold_percent = pos 500;
  reset_time = "00:00";
  timezone = "UTC";
  warning_at = pos 7000 ∷ pos 8000 ∷ [];
}

abbrev pub at_loss : ℤ → Context ℤ
at_loss pnl = record no_context { daily_pnl_percent = some (float pnl) }

-- A loss of 4.20% under a limit of 5%
loss_validate-IsGraded_example :
    (r : RuleResult ℤ) × (DailyLoss.validate loss_rule (at_loss (negsuc 419)) ≡ returned r)
    × IsGraded (Loss.scale loss_rule) (Loss.loss_of (negsuc 419)) r
loss_validate-IsGraded_example =
    Loss.loss_validate-IsGraded fixed-IsOrdered fixed-IsMonotone loss_rule refl (refl, (refl, tt))
      (at_loss (negsuc 419)) (negsuc 419) refl refl

abbrev drawdown_rule : MaxDrawdownRule ℤ
drawdown_rule = record {
  threshold_percent = pos 1000;
  reference = "initial_balance";
  method = Method.balance_based;
  warning_at = pos 7000 ∷ pos 9000 ∷ [];
}

-- An account that started with 1000 and has `equity`
abbrev at_equity : ℤ → Context ℤ
at_equity equity = record no_context {
  initial_balance = some (float (pos 100000));
  current_equity = some (float equity);
}

drawdown_validate-IsGraded_example :
    (r : RuleResult ℤ) × (MaxDrawdown.validate drawdown_rule (at_equity (pos 92000)) ≡ returned r)
    × IsGraded (Drawdown.scale drawdown_rule) (pos 800) r
unfolding td_sandboxed.Base.Int.◌-ℤ◌
drawdown_validate-IsGraded_example =
    Drawdown.drawdown_validate-IsGraded fixed-IsOrdered drawdown_rule refl (refl, (refl, tt))
      (at_equity (pos 92000)) (pos 800) refl refl

abbrev pub size_rule : MaxPositionSizeRule ℤ
size_rule = record { max_lots = pos 1000; scaling = none; warning_at = pos 8000 ∷ [] }

-- 3 lots asked for, beside a position of 6 lots
abbrev pub at_lots : Context ℤ
at_lots = record no_context {
  requested_lots = some (float (pos 300));
  current_position_lots = some (float (pos 600));
}

validate-IsCapped_example :
    (r : RuleResult ℤ) × (PositionSize.validate size_rule at_lots ≡ returned r)
    × IsCapped size_rule (pos 300) (pos 600) (pos 1000) r.action
unfolding ◌+ℤ◌
validate-IsCapped_example =
    validate-IsCapped fixed-IsOrdered size_rule (refl, tt) at_lots (pos 300) (pos 600) (pos 1000)
      refl refl refl refl refl refl

abbrev share_rule : ConsistencyRule ℤ
share_rule = record { block_at = pos 4000; warn_at = pos 3000 ∷ [] }

-- 30 earned today, and 50 and 40 on the days before
abbrev at_profits : Context ℤ
at_profits = record no_context {
  current_day_pnl = some (float (pos 3000));
  daily_profits_history =
      some (("2026-01-05", float (pos 5000)) ∷ ("2026-01-06", float (pos 4000)) ∷ []);
}

consistency_validate-IsGraded_example :
    (r : RuleResult ℤ) × (Consistency.validate share_rule at_profits ≡ returned r)
    × IsGraded (Share.scale share_rule) (pos 2500) r
unfolding Consistency.compute_ratio_percent Consistency.sum_positive ◌+ℤ◌
consistency_validate-IsGraded_example =
    Share.consistency_validate-IsGraded fixed-IsOrdered share_rule refl (refl, tt) at_profits
      (pos 2500) refl refl

abbrev at_total : Context ℤ
at_total = record no_context { total_pnl_percent = some (float (pos 1050)) }
