-- ===== src/Strategies/ScaleOut/Soundness.antt =====
-- What holds of a trade between two bars, and what a step of it keeps.
use td_sandboxed.Base.{◌≡◌, refl, true, false, length, if◌then◌else◌}
use td_sandboxed.Base.Number.{Number, IsNumber, AtMost}
use td_sandboxed.Strategies.ScaleOut.{Side, buy, sell, Config, Trade, be_target, has_breakeven}

module _ {F : Type 0} ⦃n : Number F⦄ where
  -- `new` is no further from the market than `old`, for a position on this side.
  abbrev pub IsNoLooser : Side → F → F → Type 0
  IsNoLooser buy old new = AtMost old new
  IsNoLooser sell old new = AtMost new old

  -- A trade whose tracked stop, rounded, is the one requested last, whose breakeven target does not loosen the first
  -- stop, that waits at its first stop until a planned breakeven move, and that has been reduced
  -- once if it has scaled out, and never otherwise.
  pub record IsSound (cfg : Config F) (t : Trade F) : Type 0 where
    pub synced : t.requested_sl ≡ cfg.make_price t.current_sl
    pub numeric : IsNumber t.current_sl
    pub target : IsNoLooser t.setup.side t.setup.initial_sl (be_target t.setup)
    pub waits :
        cfg.scale_out_enabled ≡ true
        → has_breakeven cfg ≡ true
        → t.breakeven_moved ≡ false
        → (t.current_sl ≡ t.setup.initial_sl) × (t.trail_active ≡ false)
    pub mode : t.scaled_out ≡ true → cfg.scale_out_enabled ≡ true
    pub reduced : length t.closes ≡ (if t.scaled_out then 1 else 0)

  -- A step keeps a trade sound, and its stop is no looser after it.
  abbrev pub Tightens : Config F → Trade F → Trade F → Type 0
  Tightens cfg t t' =
      IsSound cfg t' × (t'.setup ≡ t.setup) × IsNoLooser t.setup.side t.current_sl t'.current_sl

  pub IsNoLooser-self : (side : Side) (x : F) → IsNumber x → IsNoLooser side x x
  IsNoLooser-self buy x h = h
  IsNoLooser-self sell x h = h

  pub stays : (cfg : Config F) (t : Trade F) → IsSound cfg t → Tightens cfg t t
  stays cfg t sound = (sound, refl, IsNoLooser-self t.setup.side t.current_sl sound.numeric)
