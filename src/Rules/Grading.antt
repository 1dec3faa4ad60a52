-- ===== src/Rules/Grading.antt =====
-- What a threshold rule promises about the quantity that it limits, whichever rule it is: the
-- answer as a function of the quantity, and its monotonicity.
use td_sandboxed.Base.{◌⊎◌, inl, inr, none, some, List, ◌≤◌, arith}
use td_sandboxed.Base.Number.{Number, IsOrdered, AtMost, Below}
use td_sandboxed.Base.Comparison.{le_of_lt, not_le_of_lt}
use td_sandboxed.Rules.Model.{RuleAction, RuleResult, severity}
use td_sandboxed.Rules.Ladder.{IsHighest, not_IsHighest-none}

-- A limit, its warning levels, the usage that the levels are compared with, and what a warning
-- reports of the usage and the level.
pub record Scale (F : Type 0) : Type 1 where
  pub limit : F
  pub levels : List F
  pub usage : F → F
  pub Reports : F → F → RuleResult F → Type 0

module _ {F : Type 0} ⦃n : Number F⦄ where
  abbrev pub IsGradedAs : Scale F → F → RuleResult F → RuleAction → Type 0
  IsGradedAs s x r RuleAction.block = Below (n.literal 0) x × AtMost s.limit x
  IsGradedAs s x r RuleAction.warn =
      Below (n.literal 0) x
      × Below x s.limit
      × ((level : F) × IsHighest (s.usage x) s.levels (some level) × s.Reports (s.usage x) level r)
  IsGradedAs s x r RuleAction.allow =
      AtMost x (n.literal 0)
      ⊎ Below (n.literal 0) x × Below x s.limit × IsHighest (s.usage x) s.levels none

  -- The result `r` blocks exactly with a positive quantity at or above the limit, warns below the
  -- limit with the highest level that the usage reaches, and allows if there is none.
  abbrev pub IsGraded : Scale F → F → RuleResult F → Type 0
  IsGraded s x r = IsGradedAs s x r r.action

  -- The usage grows with the quantity below the limit.
  abbrev pub IsIncreasing : Scale F → Type 0
  IsIncreasing s =
      (x y : F)
      → AtMost (n.literal 0) x
      → AtMost x y
      → Below y s.limit
      → AtMost (s.usage x) (s.usage y)

  module _ (laws : IsOrdered F) (s : Scale F) (increasing : IsIncreasing s) where
    not_small_above_positive :
        (x y : F) → AtMost x y → Below (n.literal 0) x → ¬ AtMost y (n.literal 0)
    not_small_above_positive x y up positive small =
        let back = not_le_of_lt laws _ _ positive in let there = laws.le_trans x y _ up small in cc

    not-Below_above_limit : (x y : F) → AtMost x y → AtMost s.limit x → ¬ Below y s.limit
    not-Below_above_limit x y up over under =
        let back = not_le_of_lt laws _ _ under in
        let there = laws.le_trans s.limit x y over up in cc

    not_allow_above_warn :
        (x y : F) (r t : RuleResult F)
        → AtMost x y
        → IsGradedAs s x r RuleAction.warn
        → ¬ IsGradedAs s y t RuleAction.allow
    not_allow_above_warn x y r t up v (inl small) = not_small_above_positive x y up v.0 small
    not_allow_above_warn x y r t up (positive, under, (level, highest, report)) (inr w) =
        not_IsHighest-none laws (s.usage x) (s.usage y) level s.levels
          (increasing x y (le_of_lt laws _ _ positive) up w.1) highest.0 highest.1 w.2

    not_allow_above_block :
        (x y : F) (r t : RuleResult F)
        → AtMost x y
        → IsGradedAs s x r RuleAction.block
        → ¬ IsGradedAs s y t RuleAction.allow
    not_allow_above_block x y r t up v (inl small) = not_small_above_positive x y up v.0 small
    not_allow_above_block x y r t up v (inr w) = not-Below_above_limit x y up v.1 w.1

    -- A larger quantity is never answered more mildly.
    pub IsGraded_mono :
        (x y : F) (r t : RuleResult F) (a b : RuleAction)
        → AtMost x y
        → IsGradedAs s x r a
        → IsGradedAs s y t b
        → severity a ≤ severity b
    IsGraded_mono x y r t RuleAction.allow b up v w = omega arith
    IsGraded_mono x y r t RuleAction.warn RuleAction.warn up v w = omega arith
    IsGraded_mono x y r t RuleAction.warn RuleAction.block up v w = omega arith
    IsGraded_mono x y r t RuleAction.warn RuleAction.allow up v w =
        absurd (not_allow_above_warn x y r t up v w)
    IsGraded_mono x y r t RuleAction.block RuleAction.block up v w = omega arith
    IsGraded_mono x y r t RuleAction.block RuleAction.warn up v w =
        absurd (not-Below_above_limit x y up v.1 w.1)
    IsGraded_mono x y r t RuleAction.block RuleAction.allow up v w =
        absurd (not_allow_above_block x y r t up v w)
