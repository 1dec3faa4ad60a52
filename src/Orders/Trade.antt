-- ===== src/Orders/Trade.antt =====
-- orders/trade.py: a trade record and its closing. The random `trade_id` is left out.
use td_sandboxed.Base.{
  Bool, true, false, String, str_eq, Option, none, some, List, [], ◌∷◌, if◌then◌else◌,
}
use td_sandboxed.Base.Number.{Number}
use td_sandboxed.Orders.Positions.{OrderSide, buy, sell}

pub record Trade (F : Type 0) : Type 0 where
  pub order_id : String
  pub account_id : String
  pub symbol : String
  pub side : OrderSide
  pub quantity : F
  pub entry_price : F
  pub entry_time : String
  pub exit_price : Option F
  pub exit_time : Option String
  pub pnl_dollars : Option F
  pub pnl_percent : Option F
  pub slippage : Option F

module _ {F : Type 0} ⦃n : Number F⦄ where
  -- `is_closed`
  abbrev pub is_closed : Trade F → Bool
  is_closed t = elim t.exit_price [ none ↦ false | some _ ↦ true ]

  -- The move of the price in favour of the side
  abbrev pub price_diff : OrderSide → (entry exit : F) → F
  price_diff buy entry exit = n.sub exit entry
  price_diff sell entry exit = n.neg (n.sub exit entry)

  abbrev pub percent_of : (diff entry : F) → F
  percent_of diff entry =
      if n.eq entry (n.literal 0) then n.literal 0 else n.mul (n.div diff entry) (n.literal 100)

  -- `calculate_pnl`
  abbrev pub calculate_pnl : OrderSide → (entry quantity exit : F) → F × F
  calculate_pnl side entry quantity exit =
      let diff = price_diff side entry exit in (n.mul diff quantity, percent_of diff entry)

  abbrev pub add_slippage : Option F → Option F → Option F
  add_slippage old none = old
  add_slippage none (some new) = some new
  add_slippage (some old) (some new) = some (n.add old new)

  -- `close`
  unfoldable pub close : (exit_price : F) → (exit_time : String) → Option F → Trade F → Trade F
  close exit_price exit_time slippage t =
      let (dollars, percent) = calculate_pnl t.side t.entry_price t.quantity exit_price in
      record t {
        exit_price = some exit_price;
        exit_time = some exit_time;
        pnl_dollars = some dollars;
        pnl_percent = some percent;
        slippage = add_slippage t.slippage slippage;
      }

  -- `get_trade_by_order_id` and the closing of the trade that it finds; none where it finds none
  unfoldable pub close_by_order_id :
      String → (Trade F → Trade F) → List (Trade F) → Option (List (Trade F))
  close_by_order_id id change [] = none
  close_by_order_id id change (t ∷ ts) =
      let rest = close_by_order_id id change ts in
      if str_eq t.order_id id
      then some (change t ∷ ts)
      else elim rest [ none ↦ none | some ts' ↦ some (t ∷ ts') ]

  abbrev pub closed_total : F → List (Trade F) → F
  closed_total total [] = total
  closed_total total (t ∷ ts) =
      closed_total
        (if is_closed t
          then n.add total (elim t.pnl_dollars [ none ↦ n.literal 0 | some x ↦ x ])
          else total)
        ts
