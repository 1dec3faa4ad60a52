-- ===== src/Samples/Engine.antt =====
-- The engine over two rules.
use td_sandboxed.Base.{◌≡◌, ◌↔◌, refl, true, false, none, some, List, [], ◌∷◌, All}
use td_sandboxed.Base.Int.{ℤ, pos, negsuc}
use td_sandboxed.Samples.Fixed.{fixed}
use td_sandboxed.Samples.Rules.{loss_rule, at_loss, size_rule}
use td_sandboxed.Rules.Model.{Context, is_allowed}
use td_sandboxed.Rules.DailyLoss
use td_sandboxed.Rules.PositionSize
use td_sandboxed.Rules.Engine.{Rule, RuleEngine, init, validate}
use td_sandboxed.Rules.Engine.Action.{worst, Passes, validate-action, validate-is_allowed}
use td_sandboxed.Rules.Engine.Order.{IsStopped, validate-IsStopped}

abbrev pub size_check : Rule (Context ℤ) ℤ
size_check = record {
  ident = 1;
  rule_type = "max_position_size";
  name = "size";
  priority = none;
  validate = λ context. PositionSize.validate size_rule context;
}

abbrev pub loss_check : Rule (Context ℤ) ℤ
loss_check = record {
  ident = 2;
  rule_type = "daily_loss_limit";
  name = "loss";
  priority = some (pos 1);
  validate = λ context. DailyLoss.validate loss_rule context;
}

abbrev pub both : List (Rule (Context ℤ) ℤ)
both = size_check ∷ loss_check ∷ []

validate-is_allowed_example :
    (is_allowed (validate (init "a1" both true) (at_loss (negsuc 419)) false).action ≡ true)
    ↔ All (Passes (at_loss (negsuc 419))) both
validate-is_allowed_example = validate-is_allowed "a1" both false (at_loss (negsuc 419))

validate-action_example :
    (validate (init "a1" both false) (at_loss (negsuc 599)) true).action
    ≡ worst false (at_loss (negsuc 599)) both
validate-action_example = validate-action "a1" both false true (at_loss (negsuc 599))

abbrev engine : RuleEngine (Context ℤ) ℤ
engine = record { account_id = "a1"; strict_mode = true; rules = loss_check ∷ size_check ∷ [] }

validate-IsStopped_example :
    IsStopped
      (at_loss (negsuc 599))
      []
      engine.rules
      (validate engine (at_loss (negsuc 599)) false).findings
validate-IsStopped_example = validate-IsStopped engine (at_loss (negsuc 599)) refl
