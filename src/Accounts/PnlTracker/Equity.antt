-- ===== src/Accounts/PnlTracker/Equity.antt =====
-- The equity of the tracker, what the risk state makes of its reports, and the fast path of a tick.
use td_sandboxed.Base.{
  ◌≡◌, refl, sym, ap, inl, inr, false, String, str_eq, Option, none, some, List, [], ◌∷◌,
  Bool-cases,
}
use td_sandboxed.Base.Dict.{Dict, lookup, insert}
use td_sandboxed.Base.Number.{Number}
use td_sandboxed.Accounts.RiskState.{RiskState, update_equity, record_trade}
use td_sandboxed.Accounts.PnlTracker.{
  Position, Tracker, Fill, Report, equity_report, trade_report, has_symbol, has_position_for_symbol,
  get_total_unrealized_pnl, recalculate_equity, mark_each, on_tick, filled_position,
  on_trade_executed, closed, on_position_closed,
}

-- What the tracker is told between two resets of the day.
pub data Event (F : Type 0) : Type 0 where
  tick : String → F → F → Event F
  execution : Fill F → Event F
  closing : String → F → Event F

module _ {F : Type 0} ⦃n : Number F⦄ where
  abbrev pub handle : Event F → Tracker F → Tracker F
  handle (tick symbol bid ask) t = on_tick symbol bid ask t
  handle (execution f) t = on_trade_executed f t
  handle (closing id realized_pnl) t = on_position_closed id realized_pnl t

  unfoldable pub handle_all : List (Event F) → Tracker F → Tracker F
  handle_all [] t = t
  handle_all (e ∷ es) t = handle_all es (handle e t)

  -- Positions without the symbol are not marked.
  mark_each-none :
      (symbol : String) (bid ask : F) (d : Dict (Position F))
      → has_symbol symbol d ≡ false
      → mark_each symbol bid ask d ≡ d
  mark_each-none symbol bid ask [] h = refl
  mark_each-none symbol bid ask ((k, p) ∷ d) h = elim (Bool-cases (str_eq p.symbol symbol)) [
    | inl same ↦ cc (rw same at h)
    | inr other ↦ rw other (ap (λ l. (k, p) ∷ l) (mark_each-none symbol bid ask d (rw other at h)))
  ]

  -- The fast path of a tick changes nothing: with it and without it, a tick marks each position in
  -- its symbol and leaves the others.
  pub on_tick-marks :
      (symbol : String) (bid ask : F) (t : Tracker F)
      → (on_tick symbol bid ask t).positions ≡ mark_each symbol bid ask t.positions
  unfolding on_tick has_position_for_symbol recalculate_equity
  on_tick-marks symbol bid ask t = elim (Bool-cases (has_symbol symbol t.positions)) [
    | inl held ↦ simp held refl
    | inr absent ↦ simp absent (sym (mark_each-none symbol bid ask t.positions absent))
  ]

  -- For an order that has a position, the price of a further fill changes nothing in the tracker.
  pub refill-ignores_price :
      (f : Fill F) (price : Option F) (p : Position F) (t : Tracker F)
      → lookup f.order_id t.positions ≡ some p
      → on_trade_executed (record f { fill_price = price }) t ≡ on_trade_executed f t
  unfolding on_trade_executed
  refill-ignores_price f price p t held = rw held

module _ {F T : Type 0} ⦃n : Number F⦄ (now : T) (start : RiskState F T) where
  abbrev pub deliver : Report F → RiskState F T → RiskState F T
  deliver (equity_report equity) s = update_equity equity now s
  deliver (trade_report realized_pnl) s = record_trade realized_pnl now s

  -- The risk state after the reports, the last one first.
  unfoldable pub risk_after : List (Report F) → RiskState F T
  risk_after [] = start
  risk_after (r ∷ rs) = deliver r (risk_after rs)

  -- The equity is the balance with the unrealized results, and the risk state has this equity and
  -- the realized result of the day.
  pub record IsBalanced (t : Tracker F) : Type 0 where
    pub equity : t.current_equity ≡ n.add t.balance (get_total_unrealized_pnl t.positions)
    pub reported : (risk_after t.reports).current_equity ≡ t.current_equity
    pub realized : (risk_after t.reports).daily_pnl ≡ t.daily_realized_pnl

  recalculate_equity-IsBalanced :
      (t : Tracker F)
      → (risk_after t.reports).daily_pnl ≡ t.daily_realized_pnl
      → IsBalanced (recalculate_equity t)
  unfolding recalculate_equity risk_after update_equity
  recalculate_equity-IsBalanced t same = record { equity = refl; reported = refl; realized = same }

  closed-IsBalanced :
      (id : String) (realized_pnl : F) (p : Option (Position F)) (t : Tracker F)
      → IsBalanced t
      → IsBalanced (closed id realized_pnl p t)
  unfolding risk_after record_trade
  closed-IsBalanced id realized_pnl none t h = h
  closed-IsBalanced id realized_pnl (some p) t h =
      recalculate_equity-IsBalanced _ (ap (λ x. n.add x realized_pnl) h.realized)

  handle-IsBalanced : (e : Event F) (t : Tracker F) → IsBalanced t → IsBalanced (handle e t)
  unfolding on_tick on_trade_executed on_position_closed
  handle-IsBalanced (tick symbol bid ask) t h =
      elim (Bool-cases (has_position_for_symbol symbol t)) [
        | inl held ↦ rw held (
            recalculate_equity-IsBalanced
              (record t { positions = mark_each symbol bid ask t.positions }) h.realized)
        | inr absent ↦ rw absent h
      ]
  handle-IsBalanced (execution f) t h = elim (Bool-cases f.is_filled) [
    | inl filled ↦ simp filled (
        recalculate_equity-IsBalanced
          (record t {
            positions =
                insert f.order_id (filled_position f (lookup f.order_id t.positions)) t.positions;
          })
          h.realized)
    | inr other ↦ simp other h
  ]
  handle-IsBalanced (closing id realized_pnl) t h =
      closed-IsBalanced id realized_pnl (lookup id t.positions) t h

  -- From a tracker whose equity is its balance with the unrealized results and is that of the risk
  -- state, and whose realized result of the day is the daily result of the risk state, any ticks,
  -- executions and closings lead to such a tracker, where the risk state takes the reports of the
  -- tracker.
  pub handle_all-IsBalanced :
      (es : List (Event F)) (t : Tracker F) → IsBalanced t → IsBalanced (handle_all es t)
  unfolding handle_all
  handle_all-IsBalanced [] t h = h
  handle_all-IsBalanced (e ∷ es) t h =
      handle_all-IsBalanced es (handle e t) (handle-IsBalanced e t h)
