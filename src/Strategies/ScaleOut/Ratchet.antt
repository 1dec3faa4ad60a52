-- ===== src/Strategies/ScaleOut/Ratchet.antt =====
-- The stop of an open trade only tightens, is the one requested, and a trade is reduced once at most.
use td_sandboxed.Base.{
  ◌≡◌, ◌∙◌, subst, refl, inl, inr, Bool, true, false, not, Option, none, some, List, [], ◌∷◌, ◌&&◌,
  ◌||◌, All, arith, Bool-cases, Option-cases,
}
use td_sandboxed.Base.Number.{Number, IsOrdered, IsNumber}
use td_sandboxed.Base.Comparison.{le_of_lt, lt_of_not_le}
use td_sandboxed.Strategies.ScaleOut.{
  Side, buy, sell, Config, Trade, Trend, up, down, flat, Trail, Bar, scale_out, be_target,
  move_to_breakeven, has_breakeven, activate_trail, tightens, follow, update_trailing_sl,
  trail_step, reaches, evaluate_scale_out, unrealized_r,
}
use td_sandboxed.Strategies.ScaleOut.Soundness.{
  IsNoLooser, IsSound, Tightens, IsNoLooser-self, stays,
}

module _ {F : Type 0} ⦃n : Number F⦄ where
  -- A line that the bar brings is a number.
  abbrev pub IsPriced : Option (Trail F) → Type 0
  IsPriced none = Unit
  IsPriced (some line) = elim line.value [ none ↦ Unit | some x ↦ IsNumber x ]

  -- The bars of a trade, the first one first.
  unfoldable pub evaluate_bars : Config F → List (Bar F) → Trade F → Trade F
  evaluate_bars cfg [] t = t
  evaluate_bars cfg (bar ∷ bars) t = evaluate_bars cfg bars (evaluate_scale_out cfg bar t)

  module _ (laws : IsOrdered F) (cfg : Config F) where
    IsNoLooser-trans :
        (side : Side) (x y z : F) → IsNoLooser side x y → IsNoLooser side y z → IsNoLooser side x z
    IsNoLooser-trans buy x y z p q = laws.le_trans x y z p q
    IsNoLooser-trans sell x y z p q = laws.le_trans z y x q p

    no_looser-IsNumber : (side : Side) (x y : F) → IsNoLooser side x y → IsNumber y
    no_looser-IsNumber buy x y p = (laws.le_numbers x y p).1
    no_looser-IsNumber sell x y p = (laws.le_numbers y x p).0

    then-Tightens :
        (t t' t'' : Trade F) → Tightens cfg t t' → Tightens cfg t' t'' → Tightens cfg t t''
    then-Tightens t t' t'' (_, same, one) (sound, same', two) = (
      sound,
      same' ∙ same,
      IsNoLooser-trans t.setup.side t.current_sl t'.current_sl t''.current_sl one
          (subst (λ s. IsNoLooser s.side t'.current_sl t''.current_sl) same two),
    )

    scale_out-Tightens : (r : F) (t : Trade F) → IsSound cfg t → Tightens cfg t (scale_out cfg r t)
    unfolding scale_out
    scale_out-Tightens r t sound =
        elim (Bool-cases
          (cfg.scale_out_enabled && not t.scaled_out && n.le cfg.scale_out_r_trigger r)) [
            | inr e ↦ rw e (stays cfg t sound)
            | inl e ↦ rw e (
              record {
                synced = sound.synced;
                numeric = sound.numeric;
                target = sound.target;
                waits = sound.waits;
                mode = λ _. ground (arith, e);
                reduced = ground (arith, e, sound.reduced);
              },
              refl,
              IsNoLooser-self t.setup.side t.current_sl sound.numeric,
            )
          ]

    move_to_breakeven-Tightens :
        (issued : Bool) (r : F) (t : Trade F)
        → IsSound cfg t
        → Tightens cfg t (move_to_breakeven cfg issued r t)
    unfolding move_to_breakeven
    move_to_breakeven-Tightens issued r t sound =
        elim (Bool-cases
          (t.scaled_out && not t.breakeven_moved && reaches cfg.breakeven_at_r r && issued)) [
            | inr e ↦ rw e (stays cfg t sound)
            | inl e ↦
                let planned : has_breakeven cfg ≡ true = ground (arith, e) in
                let out : t.scaled_out ≡ true = ground (arith, e) in
                let unmoved : t.breakeven_moved ≡ false = ground (arith, e) in
                let (first, quiet) = sound.waits (sound.mode out) planned unmoved in
                rw e (
                  record {
                    synced = refl;
                    numeric =
                        no_looser-IsNumber t.setup.side t.setup.initial_sl (be_target t.setup)
                          sound.target;
                    target = sound.target;
                    waits = λ _ _ moved. ground (arith, moved);
                    mode = sound.mode;
                    reduced = sound.reduced;
                  },
                  refl,
                  rw first sound.target,
                )
          ]

    activate_trail-Tightens : (t : Trade F) → IsSound cfg t → Tightens cfg t (activate_trail cfg t)
    unfolding activate_trail
    activate_trail-Tightens t sound =
        elim (Bool-cases (
          not t.trail_active
          && cfg.trailing_enabled
          && (t.breakeven_moved
              || not cfg.scale_out_enabled
              || t.scaled_out && not (has_breakeven cfg)))) [
                | inr e ↦ rw e (stays cfg t sound)
                | inl e ↦ rw e (
                  record {
                    synced = sound.synced;
                    numeric = sound.numeric;
                    target = sound.target;
                    waits = λ on planned unmoved. ground (arith, e, on, planned, unmoved);
                    mode = sound.mode;
                    reduced = sound.reduced;
                  },
                  refl,
                  IsNoLooser-self t.setup.side t.current_sl sound.numeric,
                )
              ]

    tightens-IsNoLooser :
        (side : Side) (trend : Trend) (line sl : F)
        → IsNumber line
        → IsNumber sl
        → tightens side trend line sl ≡ true
        → IsNoLooser side sl line
    tightens-IsNoLooser buy up line sl p q h =
        le_of_lt laws sl line (lt_of_not_le laws sl line q p (ground (arith, h)))
    tightens-IsNoLooser buy down line sl p q h = ground (arith, h)
    tightens-IsNoLooser buy flat line sl p q h = ground (arith, h)
    tightens-IsNoLooser sell up line sl p q h = ground (arith, h)
    tightens-IsNoLooser sell down line sl p q h =
        le_of_lt laws line sl (lt_of_not_le laws line sl p q (ground (arith, h)))
    tightens-IsNoLooser sell flat line sl p q h = ground (arith, h)

    follow-Tightens :
        (issued : Bool) (trend : Trend) (line : F) (t : Trade F)
        → IsNumber line
        → t.trail_active ≡ true
        → IsSound cfg t
        → Tightens cfg t (follow cfg issued trend (some line) t)
    follow-Tightens issued trend line t number active sound =
        elim (Bool-cases (tightens t.setup.side trend line t.current_sl && issued)) [
          | inr e ↦ rw e (stays cfg t sound)
          | inl e ↦ rw e (
            record {
              synced = refl;
              numeric = number;
              target = sound.target;
              waits =
                  λ on planned unmoved. ground (arith, active, (sound.waits on planned unmoved).1);
              mode = sound.mode;
              reduced = sound.reduced;
            },
            refl,
            tightens-IsNoLooser t.setup.side trend line t.current_sl number sound.numeric
                (ground (arith, e)),
          )
        ]

    update-Tightens :
        (issued : Bool) (trail : Option (Trail F)) (t : Trade F)
        → IsPriced trail
        → t.trail_active ≡ true
        → IsSound cfg t
        → Tightens cfg t (update_trailing_sl cfg issued trail t)
    unfolding update_trailing_sl
    update-Tightens issued none t priced active sound = stays cfg t sound
    update-Tightens issued (some line) t priced active sound = elim (Bool-cases line.initialized) [
      | inr e ↦ rw e (stays cfg t sound)
      | inl e ↦ elim (Option-cases line.value) [
        | inl empty ↦ rw (e, empty) (stays cfg t sound)
        | inr (x, there) ↦
            rw (e, there) (follow-Tightens issued line.trend x t (rw there at priced) active sound)
      ]
    ]

    trail_step-Tightens :
        (bar : Bar F) (t : Trade F)
        → IsPriced bar.trail
        → IsSound cfg t
        → Tightens cfg t (trail_step cfg bar t)
    trail_step-Tightens bar t priced sound = elim (Bool-cases t.trail_active) [
      | inr e ↦ simp e (stays cfg t sound)
      | inl e ↦ simp e (update-Tightens bar.issues_trail bar.trail t priced e sound)
    ]

    -- One bar keeps a trade sound, and its stop is no looser after the bar than before.
    pub evaluate_scale_out-Tightens :
        (bar : Bar F) (t : Trade F)
        → IsPriced bar.trail
        → IsSound cfg t
        → Tightens cfg t (evaluate_scale_out cfg bar t)
    unfolding evaluate_scale_out
    evaluate_scale_out-Tightens bar t priced sound =
        let r = unrealized_r t.setup bar.close in
        let t1 = scale_out cfg r t in
        let t2 = move_to_breakeven cfg bar.issues_breakeven r t1 in
        let t3 = activate_trail cfg t2 in
        let one = scale_out-Tightens r t sound in
        let two = move_to_breakeven-Tightens bar.issues_breakeven r t1 one.0 in
        let three = activate_trail-Tightens t2 two.0 in
        let four = trail_step-Tightens bar t3 priced three.0 in
        elim (Bool-cases (n.le t.setup.risk_per_unit (n.literal 0))) [
          | inl e ↦ rw e (stays cfg t sound)
          | inr e ↦ rw e (
              then-Tightens t t3 (trail_step cfg bar t3)
                (then-Tightens t t2 t3 (then-Tightens t t1 t2 one two) three) four)
        ]

    -- Under the laws of comparison, over all the bars of a sound trade whose trail lines are
    -- numbers, the trade stays sound: the tracked stop, rounded by make_price, is the trigger
    -- price that was requested last, and one partial close at most was asked for. The tracked stop
    -- at the end is no looser than at the start, whichever requests find a stop order.
    pub evaluate_bars-Tightens :
        (bars : List (Bar F)) (t : Trade F)
        → All (λ bar. IsPriced bar.trail) bars
        → IsSound cfg t
        → Tightens cfg t (evaluate_bars cfg bars t)
    unfolding evaluate_bars
    evaluate_bars-Tightens [] t priced sound = stays cfg t sound
    evaluate_bars-Tightens (bar ∷ bars) t priced sound =
        let once = evaluate_scale_out-Tightens bar t priced.0 sound in
        let next = evaluate_scale_out cfg bar t in
        then-Tightens t next (evaluate_bars cfg bars next) once
          (evaluate_bars-Tightens bars next priced.1 once.0)
