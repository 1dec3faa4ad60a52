-- ===== src/Strategies/ScaleOut.antt =====
-- strategies/bracket_scale_out.py: class BracketScaleOutMixin, from the entry of a trade to its
-- evaluation at each bar. Prices are finite decimals. `_modify_sl` of base_strategy.py rounds a price
-- and issues a request; whether it finds a stop order is an argument. What it requests, and what
-- `_close_partial` asks for, is kept beside the mixin's state.
pub mod Soundness
pub mod Ratchet
pub mod Entry
use td_sandboxed.Base.{
  ◌≡◌, Bool, true, false, not, Option, none, some, List, [], ◌∷◌, ◌&&◌, ◌||◌, if◌then◌else◌,
}
use td_sandboxed.Base.Number.{Number}

pub data Side : Type 0 where
  buy sell : Side

-- The fields of the strategy's config that the mixin reads, and `make_price` of the instrument, which
-- rounds a price to its precision.
pub record Config (F : Type 0) : Type 0 where
  pub scale_out_enabled : Bool
  pub trailing_enabled : Bool
  pub scale_out_r_trigger : F
  pub scale_out_close_fraction : F
  pub breakeven_at_r : Option F
  pub breakeven_offset_pips : Option F
  pub make_price : F → F

-- `_ScaleOutSetup`
pub record Setup (F : Type 0) : Type 0 where
  pub entry_price : F
  pub initial_sl : F
  pub initial_qty : F
  pub side : Side
  pub risk_per_unit : F
  pub be_price : Option F

-- `_ScaleOutTradeState`; also the trigger price that the last request for the stop had, and the
-- fractions that partial closes were asked for, the last one first.
pub record Trade (F : Type 0) : Type 0 where
  pub setup : Setup F
  pub current_sl : F
  pub scaled_out : Bool
  pub breakeven_moved : Bool
  pub trail_active : Bool
  pub requested_sl : F
  pub closes : List F

pub data Trend : Type 0 where
  up down flat : Trend

-- What `_update_trailing_sl` reads of the Supertrend line.
pub record Trail (F : Type 0) : Type 0 where
  pub initialized : Bool
  pub value : Option F
  pub trend : Trend

-- What one bar brings: the close, the line, and whether a stop order is found for each change.
pub record Bar (F : Type 0) : Type 0 where
  pub close : F
  pub trail : Option (Trail F)
  pub issues_breakeven : Bool
  pub issues_trail : Bool

module _ {F : Type 0} ⦃n : Number F⦄ where
  abbrev pub offset_from : Side → F → F → F
  offset_from buy entry offset = n.add entry offset
  offset_from sell entry offset = n.sub entry offset

  abbrev pub guarded_offset : Side → F → F → F → Option F
  guarded_offset side entry offset cushion =
      if n.le cushion offset then none else some (offset_from side entry offset)

  abbrev pub priced_offset : Config F → Side → F → F → F → F → Option F → Option F
  priced_offset cfg side entry risk pips at_r none = none
  priced_offset cfg side entry risk pips at_r (some pip_size) =
      guarded_offset side entry (n.mul pips pip_size) (n.mul at_r risk)

  abbrev pub triggered_offset : Config F → Side → F → F → F → Option F → Option F → Option F
  triggered_offset cfg side entry risk pips pip_size none = none
  triggered_offset cfg side entry risk pips pip_size (some at_r) =
      if cfg.scale_out_enabled then priced_offset cfg side entry risk pips at_r pip_size else none

  abbrev pub wanted_offset : Config F → Side → F → F → Option F → Option F → Option F
  wanted_offset cfg side entry risk pip_size none = none
  wanted_offset cfg side entry risk pip_size (some pips) =
      if n.le pips (n.literal 0)
      then none
      else triggered_offset cfg side entry risk pips pip_size cfg.breakeven_at_r

  -- `_compute_be_price`
  unfoldable pub compute_be_price : Config F → Side → F → F → Option F → Option F
  compute_be_price cfg side entry risk pip_size =
      wanted_offset cfg side entry risk pip_size cfg.breakeven_offset_pips

  -- `_init_scale_state`: the new `_scale_state`, where the old one is `state`
  unfoldable pub init_scale_state :
      Config F → Option (Trade F) → Side → (entry sl qty : F) → Option F → Option (Trade F)
  unfolding compute_be_price
  init_scale_state cfg state side entry sl qty pip_size =
      let risk = n.abs (n.sub entry sl) in
      let setup : Setup F = record {
        entry_price = entry;
        initial_sl = sl;
        initial_qty = qty;
        side = side;
        risk_per_unit = risk;
        be_price = compute_be_price cfg side entry risk pip_size;
      } in
      let trade : Trade F = record {
        setup = setup;
        current_sl = sl;
        scaled_out = false;
        breakeven_moved = false;
        trail_active = false;
        requested_sl = cfg.make_price sl;
        closes = [];
      } in
      if cfg.scale_out_enabled || cfg.trailing_enabled then some trade else state

  abbrev pub unrealized_r : Setup F → F → F
  unrealized_r setup price = elim setup.side [
    | buy ↦ n.div (n.sub price setup.entry_price) setup.risk_per_unit
    | sell ↦ n.div (n.sub setup.entry_price price) setup.risk_per_unit
  ]

  -- Step 1 of `evaluate_scale_out`: the partial close
  unfoldable pub scale_out : Config F → F → Trade F → Trade F
  scale_out cfg r t =
      if cfg.scale_out_enabled && not t.scaled_out && n.le cfg.scale_out_r_trigger r
      then record t { scaled_out = true; closes = cfg.scale_out_close_fraction ∷ t.closes }
      else t

  -- The target of the breakeven move
  abbrev pub be_target : Setup F → F
  be_target setup = elim setup.be_price [ none ↦ setup.entry_price | some price ↦ price ]

  abbrev pub reaches : Option F → F → Bool
  reaches none r = false
  reaches (some at_r) r = n.le at_r r

  -- Step 2: the stop moves to breakeven
  unfoldable pub move_to_breakeven : Config F → (issued : Bool) → F → Trade F → Trade F
  move_to_breakeven cfg issued r t =
      if t.scaled_out && not t.breakeven_moved && reaches cfg.breakeven_at_r r && issued
      then record t {
        breakeven_moved = true;
        current_sl = be_target t.setup;
        requested_sl = cfg.make_price (be_target t.setup);
      }
      else t

  abbrev pub has_breakeven : Config F → Bool
  has_breakeven cfg = elim cfg.breakeven_at_r [ none ↦ false | some _ ↦ true ]

  -- Step 3: the trail starts
  unfoldable pub activate_trail : Config F → Trade F → Trade F
  activate_trail cfg t =
      if not t.trail_active
        && cfg.trailing_enabled
        && (t.breakeven_moved
            || not cfg.scale_out_enabled
            || t.scaled_out && not (has_breakeven cfg))
      then record t { trail_active = true }
      else t

  -- Whether the line is on the side of the position and tightens the stop.
  abbrev pub tightens : Side → Trend → F → F → Bool
  tightens buy up line sl = not (n.le line sl)
  tightens sell down line sl = not (n.le sl line)
  tightens _ _ line sl = false

  abbrev pub follow : Config F → (issued : Bool) → Trend → Option F → Trade F → Trade F
  follow cfg issued trend none t = t
  follow cfg issued trend (some line) t =
      if tightens t.setup.side trend line t.current_sl && issued
      then record t { current_sl = line; requested_sl = cfg.make_price line }
      else t

  -- `_update_trailing_sl`
  unfoldable pub update_trailing_sl :
      Config F → (issued : Bool) → Option (Trail F) → Trade F → Trade F
  update_trailing_sl cfg issued none t = t
  update_trailing_sl cfg issued (some line) t =
      if line.initialized then follow cfg issued line.trend line.value t else t

  abbrev pub trail_step : Config F → Bar F → Trade F → Trade F
  trail_step cfg bar t =
      if t.trail_active then update_trailing_sl cfg bar.issues_trail bar.trail t else t

  -- `evaluate_scale_out` for a trade that is set up
  unfoldable pub evaluate_scale_out : Config F → Bar F → Trade F → Trade F
  evaluate_scale_out cfg bar t =
      let r = unrealized_r t.setup bar.close in
      if n.le t.setup.risk_per_unit (n.literal 0)
      then t
      else trail_step cfg bar
          (activate_trail cfg (move_to_breakeven cfg bar.issues_breakeven r (scale_out cfg r t)))
