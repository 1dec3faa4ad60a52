-- ===== src/Regime/Hysteresis/Confirmation.antt =====
-- The state machine of the filter: when a regime is confirmed, and that nothing less confirms it.
use td_sandboxed.Base.{
  ℕ, zero, suc, ◌≤◌, ◌<◌, ◌≡◌, ◌≢◌, ◌⊎◌, refl, sym, subst, inl, inr, false, Option, none, some,
  List, [], ◌∷◌, leb, arith, tests, Bool-cases,
}
use td_sandboxed.Regime.Model.{RegimeState, is_same, eq_of_same, same_self}
use td_sandboxed.Regime.Hysteresis.{Filter, initial, counted_bars, advance}

-- A candidate differs from the current state and has at least one bar, fewer than confirm it.
abbrev pub IsPending : ℕ → RegimeState → Option RegimeState → ℕ → Type 0
IsPending confirmation_bars current none bars = bars ≡ 0
IsPending confirmation_bars current (some candidate) bars =
    (is_same candidate current ≡ false) × (1 ≤ bars) × (bars < confirmation_bars)

abbrev pub IsSettled : ℕ → Filter → Type 0
IsSettled confirmation_bars f = IsPending confirmation_bars f.current f.pending f.bars

counted_positive :
    (raw : RegimeState) (pending : Option RegimeState) (bars : ℕ)
    → 1 ≤ counted_bars raw pending bars
counted_positive raw none bars = omega arith
counted_positive raw (some candidate) bars = ground arith

pub advance-IsSettled :
    (confirmation_bars : ℕ) (raw : RegimeState) (f : Filter)
    → IsSettled confirmation_bars (advance confirmation_bars raw f)
unfolding advance
advance-IsSettled confirmation_bars raw f = elim (Bool-cases (is_same raw f.current)) [
  | inl e ↦ rw e refl
  | inr e ↦ elim (Bool-cases (leb confirmation_bars (counted_bars raw f.pending f.bars))) [
    | inl reached ↦ rw (e, reached) refl
    | inr short ↦ rw (e, short) ((e, counted_positive raw f.pending f.bars, ground (arith, short)))
  ]
]

-- The filter after the bars of a list, the last one first.
unfoldable pub after_bars : ℕ → List RegimeState → Filter
after_bars confirmation_bars [] = initial
after_bars confirmation_bars (raw ∷ bars) =
    advance confirmation_bars raw (after_bars confirmation_bars bars)

after_bars-IsSettled :
    (confirmation_bars : ℕ) (bars : List RegimeState)
    → IsSettled confirmation_bars (after_bars confirmation_bars bars)
unfolding after_bars
after_bars-IsSettled confirmation_bars [] = refl
after_bars-IsSettled confirmation_bars (raw ∷ bars) =
    advance-IsSettled confirmation_bars raw (after_bars confirmation_bars bars)

-- The first `k` bars of the list are there, and are all `raw`.
unfoldable pub IsRun : RegimeState → ℕ → List RegimeState → Type 0
IsRun raw zero bars = Unit
IsRun raw (suc k) [] = ⊥
IsRun raw (suc k) (bar ∷ bars) = (bar ≡ raw) × IsRun raw k bars

IsRun-le :
    (raw : RegimeState) (j k : ℕ) (bars : List RegimeState)
    → j ≤ k
    → IsRun raw k bars
    → IsRun raw j bars
unfolding IsRun
IsRun-le raw zero k bars h run = tt
IsRun-le raw (suc j) zero bars h run = absurd (omega (arith, h))
IsRun-le raw (suc j) (suc k) [] h run = run
IsRun-le raw (suc j) (suc k) (bar ∷ bars) h run = (run.0, IsRun-le raw j k bars (omega arith) run.1)

-- The candidate's bars are the last ones.
abbrev IsCandidate : Option RegimeState → ℕ → List RegimeState → Type 0
IsCandidate none k bars = Unit
IsCandidate (some candidate) k bars = IsRun candidate k bars

abbrev IsTracked : Filter → List RegimeState → Type 0
IsTracked f bars = IsCandidate f.pending f.bars bars

counted-IsRun :
    (raw : RegimeState) (pending : Option RegimeState) (k : ℕ) (bars : List RegimeState)
    → IsCandidate pending k bars
    → IsRun raw (counted_bars raw pending k) (raw ∷ bars)
unfolding IsRun
counted-IsRun raw none k bars h = (refl, tt)
counted-IsRun raw (some candidate) k bars h = elim (Bool-cases (is_same raw candidate)) [
  | inl e ↦
      let same = eq_of_same raw candidate e in
      rw e ((refl, subst (λ r. IsRun r k bars) (sym same) h))
  | inr e ↦ rw e ((refl, tt))
]

advance-IsTracked :
    (confirmation_bars : ℕ) (raw : RegimeState) (f : Filter) (bars : List RegimeState)
    → IsTracked f bars
    → IsTracked (advance confirmation_bars raw f) (raw ∷ bars)
unfolding advance
advance-IsTracked confirmation_bars raw f bars h = elim (Bool-cases (is_same raw f.current)) [
  | inl e ↦ rw e tt
  | inr e ↦ elim (Bool-cases (leb confirmation_bars (counted_bars raw f.pending f.bars))) [
    | inl reached ↦ rw (e, reached) tt
    | inr short ↦ rw (e, short) (counted-IsRun raw f.pending f.bars bars h)
  ]
]

after_bars-IsTracked :
    (confirmation_bars : ℕ) (bars : List RegimeState)
    → IsTracked (after_bars confirmation_bars bars) bars
unfolding after_bars
after_bars-IsTracked confirmation_bars [] = tt
after_bars-IsTracked confirmation_bars (raw ∷ bars) =
    advance-IsTracked confirmation_bars raw (after_bars confirmation_bars bars) bars
      (after_bars-IsTracked confirmation_bars bars)

advance-change :
    (confirmation_bars : ℕ) (raw : RegimeState) (f : Filter) (bars : List RegimeState)
    → IsTracked f bars
    → (advance confirmation_bars raw f).current ≢ f.current
    → IsRun raw confirmation_bars (raw ∷ bars)
unfolding advance
advance-change confirmation_bars raw f bars h changed = elim (Bool-cases (is_same raw f.current)) [
  | inl e ↦ absurd (changed (rw e refl))
  | inr e ↦ elim (Bool-cases (leb confirmation_bars (counted_bars raw f.pending f.bars))) [
    | inl reached ↦
        IsRun-le raw confirmation_bars (counted_bars raw f.pending f.bars) (raw ∷ bars)
          (omega (tests, reached)) (counted-IsRun raw f.pending f.bars bars h)
    | inr short ↦ absurd (changed (rw (e, short) refl))
  ]
]

-- If a bar changes the confirmed regime of a filter that started as __init__ sets it, then the
-- last confirmation_bars bars, this one included, have all been of one raw state.
pub after_bars-change :
    (confirmation_bars : ℕ) (raw : RegimeState) (bars : List RegimeState)
    → (after_bars confirmation_bars (raw ∷ bars)).current
      ≢ (after_bars confirmation_bars bars).current
    → IsRun raw confirmation_bars (raw ∷ bars)
unfolding after_bars
after_bars-change confirmation_bars raw bars changed =
    advance-change confirmation_bars raw (after_bars confirmation_bars bars) bars
      (after_bars-IsTracked confirmation_bars bars) changed

-- The filter is at `raw`, or has counted `k` bars of it.
abbrev IsLeading : Filter → RegimeState → ℕ → Type 0
IsLeading f raw k = (f.current ≡ raw) ⊎ ((f.pending ≡ some raw) × (k ≤ f.bars))

advance-IsLeading :
    (confirmation_bars : ℕ) (raw : RegimeState) (f : Filter) (k : ℕ)
    → k ≤ counted_bars raw f.pending f.bars
    → IsLeading (advance confirmation_bars raw f) raw k
unfolding advance
advance-IsLeading confirmation_bars raw f k h = elim (Bool-cases (is_same raw f.current)) [
  | inl e ↦ inl (rw e (sym (eq_of_same raw f.current e)))
  | inr e ↦ elim (Bool-cases (leb confirmation_bars (counted_bars raw f.pending f.bars))) [
    | inl reached ↦ inl (rw (e, reached) refl)
    | inr short ↦ inr (rw (e, short) ((refl, h)))
  ]
]

IsLeading-next :
    (confirmation_bars : ℕ) (raw : RegimeState) (f : Filter) (k : ℕ)
    → IsLeading f raw k
    → IsLeading (advance confirmation_bars raw f) raw (suc k)
unfolding advance
IsLeading-next confirmation_bars raw f k (inl at_raw) = inl (rw (at_raw, same_self raw) refl)
IsLeading-next confirmation_bars raw f k (inr (there, count)) =
    advance-IsLeading confirmation_bars raw f (suc k)
      (rw (there, same_self raw) (omega (arith, count)))

run-IsLeading :
    (confirmation_bars : ℕ) (raw : RegimeState) (k : ℕ) (bars : List RegimeState)
    → IsRun raw (suc k) bars
    → IsLeading (after_bars confirmation_bars bars) raw (suc k)
unfolding after_bars IsRun
run-IsLeading confirmation_bars raw k [] run = absurd run
run-IsLeading confirmation_bars raw zero (bar ∷ bars) run = rw run.0 (
    advance-IsLeading confirmation_bars raw (after_bars confirmation_bars bars) 1 (
      counted_positive raw (after_bars confirmation_bars bars).pending
        (after_bars confirmation_bars bars).bars))
run-IsLeading confirmation_bars raw (suc k) (bar ∷ bars) run = rw run.0 (
    IsLeading-next confirmation_bars raw (after_bars confirmation_bars bars) (suc k)
      (run-IsLeading confirmation_bars raw k bars run.1))

-- A positive number of confirmation_bars bars in a row of one raw state confirms that state,
-- whatever bars came before.
pub after_bars-confirms :
    (confirmation_bars : ℕ) (raw : RegimeState) (bars : List RegimeState)
    → 1 ≤ confirmation_bars
    → IsRun raw confirmation_bars bars
    → (after_bars confirmation_bars bars).current ≡ raw
after_bars-confirms zero raw bars positive run = absurd (omega (arith, positive))
after_bars-confirms (suc k) raw bars positive run = elim (run-IsLeading (suc k) raw k bars run) [
  | inl confirmed ↦ confirmed
  | inr (there, count) ↦
      let settled = rw there at (after_bars-IsSettled (suc k) bars) in
      absurd (omega (arith, settled.2, count))
]
