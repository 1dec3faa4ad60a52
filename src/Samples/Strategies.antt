-- ===== src/Samples/Strategies.antt =====
-- A long trade that scales out, moves to breakeven and trails.
use td_sandboxed.Base.{◌≡◌, refl, true, false, none, some, List, [], ◌∷◌, arith, ◌/◌, ◌*◌}
use td_sandboxed.Base.Int.{ℤ, pos, negsuc, ◌+ℤ◌, ◌-ℤ◌}
use td_sandboxed.Base.Number.{AtMost, Below}
use td_sandboxed.Samples.Fixed.{fixed, fixed-IsOrdered}
use td_sandboxed.Strategies.ScaleOut.{buy, Config, Trade, up, Trail, Bar, init_scale_state}
use td_sandboxed.Strategies.ScaleOut.Soundness.{IsSound, Tightens}
use td_sandboxed.Strategies.ScaleOut.Ratchet.{evaluate_bars, evaluate_bars-Tightens}
use td_sandboxed.Strategies.ScaleOut.Entry.{IsGrowing, init_scale_state-IsSound}

product_positive :
    (x y : ℤ)
    → Below (fixed.literal 0) x
    → Below (fixed.literal 0) y
    → AtMost (fixed.literal 0) (fixed.mul x y)
product_positive (pos a) (pos b) p q = ground arith
product_positive (negsuc a) y p q = ground (arith, p)
product_positive (pos a) (negsuc b) p q = ground (arith, q)

fixed-IsGrowing : IsGrowing ℤ
unfolding ◌+ℤ◌ ◌-ℤ◌
fixed-IsGrowing = record {
  add_above = λ x y p q. ground (arith, q);
  sub_below = λ x y p q. ground (arith, q);
  mul_positive = product_positive;
}

-- Prices in steps of five cents.
abbrev to_tick : ℤ → ℤ
to_tick (pos n) = pos (n / 5 * 5)
to_tick (negsuc n) = negsuc n

abbrev config : Config ℤ
config = record {
  scale_out_enabled = true;
  trailing_enabled = true;
  scale_out_r_trigger = pos 150;
  scale_out_close_fraction = pos 50;
  breakeven_at_r = some (pos 100);
  breakeven_offset_pips = some (pos 200);
  make_price = to_tick;
}

abbrev entered : Trade ℤ
entered = record {
  setup = record {
    entry_price = pos 264000;
    initial_sl = pos 263000;
    initial_qty = pos 100;
    side = buy;
    risk_per_unit = pos 1000;
    be_price = some (pos 264020);
  };
  current_sl = pos 263000;
  scaled_out = false;
  breakeven_moved = false;
  trail_active = false;
  requested_sl = pos 263000;
  closes = [];
}

entered-IsSound : IsSound config entered
entered-IsSound = record {
  synced = refl;
  numeric = refl;
  target = refl;
  waits = λ _ _ _. (refl, refl);
  mode = λ _. refl;
  reduced = refl;
}

init_scale_state-IsSound_example :
    (t : Trade ℤ) × (init_scale_state config none buy
        (pos 264000)
        (pos 263000)
        (pos 100)
        (some (pos 10))
      ≡ some t)
    × (t.current_sl ≡ pos 263000)
    × IsSound config t
init_scale_state-IsSound_example =
    init_scale_state-IsSound fixed-IsOrdered fixed-IsGrowing config none buy (pos 264000)
      (pos 263000) (pos 100) (some (pos 10)) refl refl refl refl

abbrev line_at : ℤ → Trail ℤ
line_at x = record { initialized = true; value = some x; trend = up }

abbrev bar_at : ℤ → ℤ → Bar ℤ
bar_at close line = record {
  close = close;
  trail = some (line_at line);
  issues_breakeven = true;
  issues_trail = true;
}

abbrev rally : List (Bar ℤ)
rally = bar_at (pos 265600) (pos 263503) ∷ bar_at (pos 266500) (pos 264800) ∷ []

evaluate_bars-Tightens_example : Tightens config entered (evaluate_bars config rally entered)
evaluate_bars-Tightens_example =
    evaluate_bars-Tightens fixed-IsOrdered config rally entered (refl, (refl, tt)) entered-IsSound
