-- ===== src/Samples/Backtesting.antt =====
-- Folds over a range of ten days.
use td_sandboxed.Base.{◌+◌, ◌≡◌, ◌⊎◌, ◌≤◌, ◌<◌, refl, some, List, ◌∷◌, returned, raised, arith}
use td_sandboxed.Backtesting.WalkForward.{FoldSpec, rolling, Windows, generate}
use td_sandboxed.Backtesting.WalkForward.Folds.{IsLaidOut, generate-IsLaidOut}

abbrev days : Windows
days = record { total_start = 0; total_end = 10; train_window = 4; test_window = 2; step = 1 }

generate-IsLaidOut_example :
    (days.total_end < days.total_start + days.train_window + days.test_window)
      × (generate 12 days rolling ≡ some raised)
    ⊎ (days.total_start + days.train_window + days.test_window ≤ days.total_end)
      × ((f : FoldSpec) × (fs : List FoldSpec) × (generate 12 days rolling
            ≡ some (returned (f ∷ fs)))
          × IsLaidOut days 4 (f ∷ fs))
generate-IsLaidOut_example = generate-IsLaidOut days rolling (omega arith) (omega arith) refl
