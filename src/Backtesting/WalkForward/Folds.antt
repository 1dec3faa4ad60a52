-- ===== src/Backtesting/WalkForward/Folds.antt =====
-- The loop ends, and the folds are well formed, in bounds and, for a step of at least the test
-- window, disjoint.
use td_sandboxed.Base.{
  ℕ, suc, zero, ◌+◌, ◌-◌, ◌≤◌, ◌<◌, ◌≡◌, ◌⊎◌, ◌↔◌, refl, inl, inr, Bool, true, false, Option, some,
  List, [], ◌∷◌, ltb, leb, leb→le, Outcome, returned, raised, arith, Bool-cases,
}
use td_sandboxed.Backtesting.WalkForward.{
  FoldSpec, Mode, anchored, rolling, unknown, Windows, post_init, fold_at, next_start, collect,
  in_mode, checked, generate,
}

-- Folds that follow one another from a training window that ends at `from`, each tested in the
-- window after its training, within the total range, and the next after a step.
unfoldable pub IsLaidOut : Windows → ℕ → List FoldSpec → Type 0
IsLaidOut w from [] = w.total_end < from + w.test_window
IsLaidOut w from (f ∷ fs) =
    (f.train_end ≡ from)
    × (f.test_start ≡ from)
    × (f.test_end ≡ from + w.test_window)
    × (f.test_end ≤ w.total_end)
    × (f.train_start ≤ f.train_end)
    × IsLaidOut w (from + w.step) fs

abbrev pub is_known : Mode → Bool
is_known unknown = false
is_known _ = true

module _ (w : Windows) (mode : Mode) (tests_something : 0 < w.test_window)
    (moves : 0 < w.step) where
  starts_before :
      (m : Mode) (train_start train_end : ℕ)
      → train_start ≤ train_end
      → next_start m w.step train_start ≤ train_end + w.step
  starts_before anchored train_start train_end h = omega arith
  starts_before rolling train_start train_end h = omega arith
  starts_before unknown train_start train_end h = omega arith

  post_init-fold :
      (train_start train_end : ℕ)
      → post_init (fold_at w train_start train_end) ≡ returned (fold_at w train_start train_end)
  post_init-fold train_start train_end = ground arith

  -- With more fuel than the range has left, the loop ends with folds laid out to the end.
  collect-IsLaidOut :
      (fuel train_start train_end : ℕ)
      → w.total_end + 1 - train_end < fuel
      → train_start ≤ train_end
      → (fs : List FoldSpec) × (collect fuel w mode train_start train_end ≡ some (returned fs))
        × IsLaidOut w train_end fs
  unfolding collect IsLaidOut
  collect-IsLaidOut zero train_start train_end enough before = absurd (omega arith)
  collect-IsLaidOut (suc fuel) train_start train_end enough before =
      elim (Bool-cases (leb (train_end + w.test_window) w.total_end)) [
        | inr past ↦ rw past ([], refl, ground arith)
        | inl fits ↦
            let fit = leb→le (train_end + w.test_window) w.total_end fits in
            let (fs, found, laid) =
              collect-IsLaidOut fuel (next_start mode w.step train_start) (train_end + w.step)
                (omega arith) (starts_before mode train_start train_end before) in
            rw (fits, found, post_init-fold train_start train_end)
              (fold_at w train_start train_end ∷ fs, refl, (refl, refl, refl, fit, before, laid))
      ]

  in_mode_known :
      (m : Mode)
      → is_known m ≡ true
      → (rest : Option (Outcome (List FoldSpec))) → in_mode m rest ≡ rest
  in_mode_known anchored h rest = refl
  in_mode_known rolling h rest = refl
  in_mode_known unknown h rest = cc h

  nonempty_lem :
      (from : ℕ) (fs : List FoldSpec)
      → from + w.test_window ≤ w.total_end
      → IsLaidOut w from fs
      → (f : FoldSpec) × (rest : List FoldSpec) × (checked (some (returned fs))
          ≡ some (returned (f ∷ rest)))
        × IsLaidOut w from (f ∷ rest)
  unfolding IsLaidOut
  nonempty_lem from [] fits laid = absurd (omega (arith, laid))
  nonempty_lem from (f ∷ fs) fits laid = (f, fs, refl, laid)

  -- For windows and a step that are positive, in a known mode, generate ends with fuel for the
  -- whole range and raises exactly if the range is shorter than the two windows. Otherwise its
  -- folds are not empty, start at the end of the first training window, follow one another by the
  -- step, test the window right after their training, and stay in the range until no further one
  -- fits.
  pub generate-IsLaidOut :
      is_known mode ≡ true
      → (w.total_end < w.total_start + w.train_window + w.test_window)
          × (generate (w.total_end + 2) w mode ≡ some raised)
        ⊎ (w.total_start + w.train_window + w.test_window ≤ w.total_end)
          × ((f : FoldSpec) × (fs : List FoldSpec) × (generate (w.total_end + 2) w mode
                ≡ some (returned (f ∷ fs)))
              × IsLaidOut w (w.total_start + w.train_window) (f ∷ fs))
  unfolding generate
  generate-IsLaidOut known =
      let first = w.total_start + w.train_window in
      rw (in_mode_known mode known) (elim (Bool-cases (ltb w.total_end (first + w.test_window))) [
        | inl short ↦ rw short (inl (ground arith, refl))
        | inr long ↦
            let fits : first + w.test_window ≤ w.total_end = ground arith in
            let step_known : leb w.step 0 ≡ false = ground arith in
            let (fs, found, laid) =
              collect-IsLaidOut (w.total_end + 2) w.total_start first (omega arith) (omega arith) in
            let (f, rest, whole, out) = nonempty_lem first fs fits laid in
            rw (long, step_known, found) (inr (fits, (f, rest, whole, out)))
      ])

-- Of consecutive folds, each is tested before the next one's test starts.
unfoldable pub AreDisjoint : List FoldSpec → Type 0
AreDisjoint [] = Unit
AreDisjoint (f ∷ []) = Unit
AreDisjoint (f ∷ g ∷ fs) = (f.test_end ≤ g.test_start) × AreDisjoint (g ∷ fs)

module _ (w : Windows) where
  laid_disjoint :
      (from : ℕ) (fs : List FoldSpec)
      → w.test_window ≤ w.step
      → IsLaidOut w from fs
      → AreDisjoint fs
  unfolding IsLaidOut AreDisjoint
  laid_disjoint from [] h laid = tt
  laid_disjoint from (f ∷ []) h laid = tt
  laid_disjoint from (f ∷ g ∷ fs) h (_, _, ends, _, _, rest) =
      (omega (arith, ends, rest.1), laid_disjoint (from + w.step) (g ∷ fs) h rest)

  -- Two or more folds that are laid out have disjoint test windows exactly if the step is at least
  -- the test window.
  pub AreDisjoint-step :
      (from : ℕ) (f g : FoldSpec) (fs : List FoldSpec)
      → IsLaidOut w from (f ∷ g ∷ fs)
      → AreDisjoint (f ∷ g ∷ fs) ↔ (w.test_window ≤ w.step)
  unfolding IsLaidOut AreDisjoint
  AreDisjoint-step from f g fs laid =
      (λ h. ground (arith, laid, h.0), λ h. laid_disjoint from (f ∷ g ∷ fs) h laid)
