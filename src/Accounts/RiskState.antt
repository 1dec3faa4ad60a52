-- ===== src/Accounts/RiskState.antt =====
-- accounts/risk_state.py: the dataclass RiskState, and the checks of accounts/risk_manager.py on it.
-- `T` is the type of time stamps, and `now` what the clock answers. Amounts are finite decimals.
pub mod Bookkeeping
use td_sandboxed.Base.{
  ℕ, ◌≡◌, Bool, true, false, String, Option, none, some, List, [], ◌∷◌, ◌&&◌, Outcome, returned,
  raised, ◌>>=◌, if◌then◌else◌,
}
use td_sandboxed.Base.Dict.{Dict, lookup}
use td_sandboxed.Base.Number.{Number}

pub record RiskState (F T : Type 0) : Type 0 where
  pub daily_pnl : F
  pub daily_pnl_percent : F
  pub current_equity : F
  pub peak_equity : F
  pub total_drawdown_percent : F
  pub daily_starting_balance : F
  pub last_updated : T

module _ {F : Type 0} ⦃n : Number F⦄ where
  -- `drawdown_from_peak`, of the equity and its peak
  unfoldable pub drawdown_from_peak : (current peak : F) → F
  drawdown_from_peak current peak =
      if n.le peak (n.literal 0)
      then n.literal 0
      else n.mul (n.div (n.sub peak current) peak) (n.literal 100)

  abbrev pub peak_after : (equity peak : F) → F
  peak_after equity peak = if n.lt peak equity then equity else peak

  -- The first of the thresholds, the highest first, that the usage reaches
  abbrev pub first_reached : List ℕ → F → Option ℕ
  first_reached [] usage = none
  first_reached (threshold ∷ lower) usage =
      if n.le (n.literal threshold) usage then some threshold else first_reached lower usage

module _ {F T : Type 0} ⦃n : Number F⦄ where
  -- `RiskState()`
  abbrev pub fresh : T → RiskState F T
  fresh now = record {
    daily_pnl = n.literal 0;
    daily_pnl_percent = n.literal 0;
    current_equity = n.literal 0;
    peak_equity = n.literal 0;
    total_drawdown_percent = n.literal 0;
    daily_starting_balance = n.literal 0;
    last_updated = now;
  }

  -- `update_equity`
  unfoldable pub update_equity : F → T → RiskState F T → RiskState F T
  update_equity equity now s =
      let peak = peak_after equity s.peak_equity in
      record s {
        current_equity = equity;
        peak_equity = peak;
        total_drawdown_percent = drawdown_from_peak equity peak;
        last_updated = now;
      }

  -- `record_trade`
  unfoldable pub record_trade : F → T → RiskState F T → RiskState F T
  record_trade realized_pnl now s =
      let total = n.add s.daily_pnl realized_pnl in
      record s {
        daily_pnl = total;
        daily_pnl_percent =
            if n.lt (n.literal 0) s.daily_starting_balance
            then n.mul (n.div total s.daily_starting_balance) (n.literal 100)
            else s.daily_pnl_percent;
        last_updated = now;
      }

  -- `reset_daily`
  unfoldable pub reset_daily : F → T → RiskState F T → RiskState F T
  reset_daily starting_balance now s = record s {
    daily_pnl = n.literal 0;
    daily_pnl_percent = n.literal 0;
    daily_starting_balance = starting_balance;
    last_updated = now;
  }

  -- `AccountRiskManager.check_daily_loss_limit`
  unfoldable pub check_daily_loss_limit : F → RiskState F T → Bool × F
  check_daily_loss_limit limit s = (
    n.le limit (n.abs s.daily_pnl_percent) && n.lt s.daily_pnl (n.literal 0),
    s.daily_pnl_percent,
  )

  -- `AccountRiskManager.check_max_drawdown`
  unfoldable pub check_max_drawdown : F → RiskState F T → Bool × F
  check_max_drawdown limit s = (n.le limit s.total_drawdown_percent, s.total_drawdown_percent)

  -- `AccountRiskManager.get_warning_level`
  unfoldable pub get_warning_level : F → RiskState F T → Option ℕ
  get_warning_level limit s =
      if n.le (n.literal 0) s.daily_pnl
      then none
      else if n.le limit (n.literal 0)
      then none
      else first_reached (90 ∷ 80 ∷ 70 ∷ [])
          (n.mul (n.div (n.abs s.daily_pnl_percent) limit) (n.literal 100))

-- `to_dict` and `from_dict`, where `print` and `parse` are `str` and `Decimal`, `isoformat` and
-- `fromisoformat` of time stamps.
pub record Codec (A : Type 0) : Type 0 where
  pub print : A → String
  pub parse : String → Outcome A

module _ {F T : Type 0} (amount : Codec F) (time : Codec T) where
  unfoldable pub to_dict : RiskState F T → Dict String
  to_dict s =
      ("daily_pnl", amount.print s.daily_pnl)
      ∷ ("daily_pnl_percent", amount.print s.daily_pnl_percent)
      ∷ ("current_equity", amount.print s.current_equity)
      ∷ ("peak_equity", amount.print s.peak_equity)
      ∷ ("total_drawdown_percent", amount.print s.total_drawdown_percent)
      ∷ ("daily_starting_balance", amount.print s.daily_starting_balance)
      ∷ ("last_updated", time.print s.last_updated)
      ∷ []

  -- `data.get(key, default)`
  abbrev pub get_or : String → String → Dict String → String
  get_or key fallback d = elim (lookup key d) [ none ↦ fallback | some text ↦ text ]

  unfoldable pub from_dict : T → Dict String → Outcome (RiskState F T)
  from_dict now d = amount.parse (get_or "daily_pnl" "0" d) >>= λ pnl.
      amount.parse (get_or "daily_pnl_percent" "0" d) >>= λ percent.
      amount.parse (get_or "current_equity" "0" d) >>= λ equity.
      amount.parse (get_or "peak_equity" "0" d) >>= λ peak.
      amount.parse (get_or "total_drawdown_percent" "0" d) >>= λ drawdown.
      amount.parse (get_or "daily_starting_balance" "0" d) >>= λ balance.
      time.parse (get_or "last_updated" (time.print now) d) >>= λ updated. returned (record {
        daily_pnl = pnl;
        daily_pnl_percent = percent;
        current_equity = equity;
        peak_equity = peak;
        total_drawdown_percent = drawdown;
        daily_starting_balance = balance;
        last_updated = updated;
      })
