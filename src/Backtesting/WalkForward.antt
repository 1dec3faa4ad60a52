-- ===== src/Backtesting/WalkForward.antt =====
-- backtesting/walk_forward.py: FoldSpec and WalkForwardFolds.generate. A time is the number of
-- microseconds since some start, and the windows are not negative. The `while` loop has fuel; `none`
-- of the loop means that it ran out.
pub mod Folds
use td_sandboxed.Base.{
  ℕ, suc, zero, ◌+◌, ◌-◌, ◌≡◌, Bool, true, false, not, Option, none, some, List, [], ◌∷◌, ◌||◌, ltb,
  leb, Outcome, returned, raised, ◌>>=◌, if◌then◌else◌,
}

pub record FoldSpec : Type 0 where
  pub train_start : ℕ
  pub train_end : ℕ
  pub test_start : ℕ
  pub test_end : ℕ

pub data Mode : Type 0 where
  anchored rolling unknown : Mode

pub record Windows : Type 0 where
  pub total_start : ℕ
  pub total_end : ℕ
  pub train_window : ℕ
  pub test_window : ℕ
  pub step : ℕ

-- `FoldSpec.__post_init__`
abbrev pub post_init : FoldSpec → Outcome FoldSpec
post_init f =
    if ltb f.test_start f.train_end || leb f.test_end f.test_start then raised else returned f

abbrev pub fold_at : Windows → (train_start train_end : ℕ) → FoldSpec
fold_at w train_start train_end = record {
  train_start = train_start;
  train_end = train_end;
  test_start = train_end;
  test_end = train_end + w.test_window;
}

abbrev pub next_start : Mode → ℕ → ℕ → ℕ
next_start rolling step train_start = train_start + step
next_start _ step train_start = train_start

abbrev pub prepend : FoldSpec → Option (Outcome (List FoldSpec)) → Option (Outcome (List FoldSpec))
prepend f none = none
prepend f (some raised) = some raised
prepend f (some (returned fs)) = some (returned (f ∷ fs))

abbrev pub unless_raised :
    Outcome FoldSpec → Option (Outcome (List FoldSpec)) → Option (Outcome (List FoldSpec))
unless_raised raised rest = some raised
unless_raised (returned f) rest = prepend f rest

-- The loop, from the bounds of its next training window; its folds in order
pub collect :
    (fuel : ℕ) → Windows → Mode → (train_start train_end : ℕ) → Option (Outcome (List FoldSpec))
collect zero w mode train_start train_end = none
collect (suc fuel) w mode train_start train_end =
    let rest = collect fuel w mode (next_start mode w.step train_start) (train_end + w.step) in
    if leb (train_end + w.test_window) w.total_end
    then unless_raised (post_init (fold_at w train_start train_end)) rest
    else some (returned [])

abbrev pub nonempty : Outcome (List FoldSpec) → Outcome (List FoldSpec)
nonempty raised = raised
nonempty (returned []) = raised
nonempty (returned (f ∷ fs)) = returned (f ∷ fs)

abbrev pub in_mode : Mode → Option (Outcome (List FoldSpec)) → Option (Outcome (List FoldSpec))
in_mode unknown rest = some raised
in_mode _ rest = rest

abbrev pub checked : Option (Outcome (List FoldSpec)) → Option (Outcome (List FoldSpec))
checked none = none
checked (some folds) = some (nonempty folds)

-- `generate`
unfoldable pub generate : (fuel : ℕ) → Windows → Mode → Option (Outcome (List FoldSpec))
unfolding collect
generate fuel w mode = in_mode mode (
    if ltb w.total_end (w.total_start + w.train_window + w.test_window)
    then some raised
    else if leb w.step 0
    then some raised
    else checked (collect fuel w mode w.total_start (w.total_start + w.train_window)))
