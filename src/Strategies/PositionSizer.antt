-- ===== src/Strategies/PositionSizer.antt =====
-- strategies/position_sizer.py: PositionSizer, whose sizes are fixed or a share of the balance.
-- Amounts are finite decimals; `quantize` is `Decimal.quantize(Decimal("0.01"), ROUND_DOWN)`.
pub mod Limits
use td_sandboxed.Base.{
  ◌≡◌, Bool, Option, none, some, ◌||◌, Outcome, returned, raised, ◌>>=◌, if◌then◌else◌,
}
use td_sandboxed.Base.Number.{Number, divide}

-- `PositionSizerConfig`
pub record Config (F : Type 0) : Type 0 where
  pub risk_percent : F
  pub max_lot_size : F
  pub min_lot_size : F
  pub fixed_lot_size : Option F

-- The keyword arguments of `calculate_lot_size`, the same for both sizers.
pub record Request (F : Type 0) : Type 0 where
  pub account_balance : F
  pub entry_price : F
  pub stop_price : F
  pub contract_size : F
  pub quote_to_account_rate : F

module _ {F : Type 0} ⦃n : Number F⦄ where
  -- Python's `max(x, y)` and `min(x, y)`, which keep `x` on a tie.
  abbrev pub max_of : F → F → F
  max_of x y = if n.lt x y then y else x

  abbrev pub min_of : F → F → F
  min_of x y = if n.lt y x then y else x

  abbrev pub risk_amount : F → F → F
  risk_amount balance percent = n.mul balance (n.div percent (n.literal 100))

  abbrev pub stop_distance : Request F → F
  stop_distance r = n.abs (n.sub r.entry_price r.stop_price)

  abbrev pub loss_per_lot : Request F → F
  loss_per_lot r = n.mul (n.mul (stop_distance r) r.contract_size) r.quote_to_account_rate

  abbrev pub refuses : Request F → Bool
  refuses r =
      n.le (stop_distance r) (n.literal 0)
      || n.le r.contract_size (n.literal 0)
      || n.le r.quote_to_account_rate (n.literal 0)

  module _ (quantize : F → F) (cfg : Config F) where
    -- `_apply_constraints`
    unfoldable pub apply_constraints : F → F
    apply_constraints lot = quantize (min_of (max_of lot cfg.min_lot_size) cfg.max_lot_size)

    -- The fixed size, if one is configured, and else what is computed
    abbrev pub fixed_or : Option F → Outcome F → Outcome F
    fixed_or (some lot) computed = returned (apply_constraints lot)
    fixed_or none computed = computed

    -- `calculate_size`
    unfoldable pub calculate_size : (balance stop_loss_pips pip_value : F) → Outcome F
    unfolding apply_constraints
    calculate_size balance stop_loss_pips pip_value = fixed_or cfg.fixed_lot_size (
        if n.le stop_loss_pips (n.literal 0) || n.le pip_value (n.literal 0)
        then returned cfg.min_lot_size
        else divide (risk_amount balance cfg.risk_percent) (n.mul stop_loss_pips pip_value)
          >>= λ lot. returned (apply_constraints lot))

    -- `get_fixed_size`
    unfoldable pub get_fixed_size : F
    unfolding apply_constraints
    get_fixed_size = elim cfg.fixed_lot_size [
      | some lot ↦ apply_constraints lot
      | none ↦ cfg.min_lot_size
    ]

    abbrev pub size_of : Option F → Option F → F → Outcome F
    size_of (some balance) (some stop_loss_pips) pip_value =
        calculate_size balance stop_loss_pips pip_value
    size_of _ _ pip_value = returned cfg.min_lot_size

    -- `get_lot_size`, which does not read the price
    unfoldable pub get_lot_size : (balance stop_loss_pips : Option F) → (pip_value : F) → Outcome F
    unfolding get_fixed_size calculate_size
    get_lot_size balance stop_loss_pips pip_value = elim cfg.fixed_lot_size [
      | some _ ↦ returned get_fixed_size
      | none ↦ size_of balance stop_loss_pips pip_value
    ]

    -- `calculate_lot_size`
    unfoldable pub calculate_lot_size : Request F → Outcome F
    unfolding apply_constraints
    calculate_lot_size r = fixed_or cfg.fixed_lot_size (
        if refuses r
        then returned cfg.min_lot_size
        else divide (risk_amount r.account_balance cfg.risk_percent) (loss_per_lot r) >>= λ lot.
            returned (apply_constraints lot))
