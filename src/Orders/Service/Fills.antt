-- ===== src/Orders/Service/Fills.antt =====
-- What fills do to positions and trades.
use td_sandboxed.Base.{
  ◌≡◌, ◌∙◌, refl, ap, true, false, String, str_eq, eq_iff, Option, none, some, List, [], ◌∷◌, ◌++◌,
  if◌then◌else◌, All,
}
use td_sandboxed.Base.Number.{Number}
use td_sandboxed.Orders.Positions.{
  Key, Tracker, get_position, has_position, open_position, without, close_position, position_of,
  entry_price_of,
}
use td_sandboxed.Orders.Positions.Book.{same_key_self, get-snoc, without-snoc}
use td_sandboxed.Orders.Trade.{
  Trade, close as close_trade, is_closed, close_by_order_id, closed_total, price_diff,
}
use td_sandboxed.Orders.Service.Model.{InternalOrder, Failure, Service}
use td_sandboxed.Orders.Service.Handlers.{
  handle_entry_fill, handle_close_fill, opened, closed_position, entry_trade, filled_order,
  trades_or, fallback_trade,
}
use td_sandboxed.Orders.Service.Execution.{get_total_pnl}

module _ {F : Type 0} ⦃n : Number F⦄ where
  -- A trade of another order.
  abbrev pub IsOf : String → Trade F → Type 0
  IsOf id t = str_eq t.order_id id ≡ true

  abbrev pub IsOther : String → Trade F → Type 0
  IsOther id t = str_eq t.order_id id ≡ false

  close_by-snoc :
      (id : String) (change : Trade F → Trade F) (ts : List (Trade F)) (t : Trade F)
      → All (IsOther id) ts
      → IsOf id t
      → close_by_order_id id change (ts ++ (t ∷ [])) ≡ some (ts ++ (change t ∷ []))
  unfolding close_by_order_id
  close_by-snoc id change [] t others same = rw same
  close_by-snoc id change (x ∷ xs) t others same =
      rw (others.0, close_by-snoc id change xs t others.1 same)

  total-snoc :
      (total : F) (ts : List (Trade F)) (t : Trade F)
      → closed_total total (ts ++ (t ∷ [])) ≡ closed_total (closed_total total ts) (t ∷ [])
  total-snoc total [] t = refl
  total-snoc total (x ∷ xs) t =
      total-snoc
        (if is_closed x
          then n.add total (elim x.pnl_dollars [ none ↦ n.literal 0 | some y ↦ y ])
          else total)
        xs t

  entry-opens :
      (audit : Option Failure) (o : InternalOrder F) (s : Service F)
      → get_position (o.account_id, o.symbol) s.tracker ≡ none
      → open_position (filled_order o) s.tracker
        ≡ some (
          position_of (filled_order o),
          s.tracker ++ (((o.account_id, o.symbol), position_of (filled_order o)) ∷ []),
        )
  unfolding open_position has_position
  entry-opens audit o s free = rw (free, has_position)

  module _ (o c : InternalOrder F) (s : Service F)
      (free : get_position (o.account_id, o.symbol) s.tracker ≡ none)
      (others : All (IsOther o.order_id) s.trades) where
    abbrev key_of : InternalOrder F → Key
    key_of x = (x.account_id, x.symbol)

    abbrev after_entry : Service F
    after_entry = (handle_entry_fill none o s).0

    abbrev exit_price : F
    exit_price = entry_price_of c.fill_price c.price

    abbrev closed_trade : Trade F
    closed_trade = close_trade exit_price c.filled_at c.slippage (entry_trade o)

    opened_lem :
        handle_entry_fill none o s
        ≡ opened none o s (
            some (
              position_of (filled_order o),
              s.tracker ++ (((o.account_id, o.symbol), position_of (filled_order o)) ∷ []),
            ))
    unfolding handle_entry_fill
    opened_lem = ap (opened none o s) (entry-opens none o s free)

    held_lem :
        get_position (key_of o) (s.tracker ++ ((key_of o, position_of (filled_order o)) ∷ []))
        ≡ some (position_of (filled_order o))
    held_lem =
        get-snoc (key_of o) (key_of o) (position_of (filled_order o)) s.tracker
        ∙ rw (free, same_key_self (key_of o)) refl

    -- The positions and the service after the entry.
    abbrev with_position : Tracker F
    with_position = s.tracker ++ ((key_of o, position_of (filled_order o)) ∷ [])

    abbrev entered_service : Service F
    entered_service = (opened none o s (some (position_of (filled_order o), with_position))).0

    abbrev left_service : Service F
    left_service = record entered_service {
      tracker = s.tracker;
      trades = s.trades ++ (closed_trade ∷ []);
    }

    trades_lem :
        trades_or
          ((s.trades ++ (entry_trade o ∷ []))
            ++ (fallback_trade c exit_price (position_of (filled_order o)) ∷ []))
          (close_by_order_id o.order_id
            (close_trade exit_price c.filled_at c.slippage)
            (s.trades ++ (entry_trade o ∷ [])))
        ≡ s.trades ++ (closed_trade ∷ [])
    trades_lem = ap (trades_or _) (
        close_by-snoc o.order_id (close_trade exit_price c.filled_at c.slippage) s.trades
          (entry_trade o) others ((eq_iff o.order_id o.order_id).1 refl))

    left_lem : key_of c ≡ key_of o → handle_close_fill none c entered_service ≡ (left_service, none)
    unfolding handle_close_fill close_position
    left_lem same =
        ap
          (λ k.
            closed_position none c (record entered_service { tracker = without k with_position })
              (get_position k with_position))
          same
        ∙ ap
            (λ p.
              closed_position none c
                (record entered_service { tracker = without (key_of o) with_position }) p)
            held_lem
        ∙ ap
            (λ d.
              closed_position none c (record entered_service { tracker = d })
                (some (position_of (filled_order o))))
            (without-snoc (key_of o) (position_of (filled_order o)) s.tracker free)
        ∙ ap (λ ts. (record entered_service { tracker = s.tracker; trades = ts }, none)) trades_lem

    closed_lem :
        key_of c ≡ key_of o
        → handle_close_fill none c (handle_entry_fill none o s).0 ≡ (left_service, none)
    closed_lem same = ap (λ r. handle_close_fill none c r.0) opened_lem ∙ left_lem same

    -- Where the account has no position in the symbol and the order no trade, a filled entry
    -- followed by a filled close of the same account and symbol, with no exception of the audit,
    -- raises nothing, gives back the positions, adds one closed trade, and adds to the total
    -- result the move of the price in favour of the side times the volume of the entry.
    pub handle_close_fill-handle_entry_fill :
        key_of c ≡ key_of o
        → ((handle_entry_fill none o s).1 ≡ none)
          × ((handle_close_fill none c (handle_entry_fill none o s).0).1 ≡ none)
          × ((handle_close_fill none c (handle_entry_fill none o s).0).0.tracker ≡ s.tracker)
          × ((handle_close_fill none c (handle_entry_fill none o s).0).0.trades
              ≡ s.trades
                ++ (close_trade
                      (entry_price_of c.fill_price c.price)
                      c.filled_at
                      c.slippage
                      (entry_trade o)
                    ∷ []))
          × (get_total_pnl (handle_close_fill none c (handle_entry_fill none o s).0).0
              ≡ n.add (get_total_pnl s) (
                  n.mul
                    (price_diff o.action
                      (entry_price_of o.fill_price o.price)
                      (entry_price_of c.fill_price c.price))
                    o.volume))
    unfolding get_total_pnl close_trade
    handle_close_fill-handle_entry_fill same = (
      ap (λ r. r.1) opened_lem,
      ap (λ r. r.1) (closed_lem same),
      ap (λ r. r.0.tracker) (closed_lem same),
      ap (λ r. r.0.trades) (closed_lem same),
      ap (λ r. closed_total (n.literal 0) r.0.trades) (closed_lem same)
          ∙ total-snoc (n.literal 0) s.trades closed_trade,
    )
