-- ===== src/Orders/Positions.antt =====
-- orders/position_tracker.py: PositionTracker, a dict of positions by account and symbol. A dict is
-- an association list in insertion order. `F` is the type of prices and lots.
pub mod Book
use td_sandboxed.Base.{
  ℕ, suc, ◌≡◌, String, str_eq, Bool, true, false, not, Option, none, some, List, [], ◌∷◌, ◌++◌, map,
  ◌&&◌, length, if◌then◌else◌,
}
use td_sandboxed.Base.Number.{Number}

pub data OrderSide : Type 0 where
  buy sell : OrderSide

-- What `open_position` reads of an order. `entry_time` is `filled_at`, or the time of the call where
-- the order has none.
pub record FilledOrder (F : Type 0) : Type 0 where
  pub order_id : String
  pub account_id : String
  pub symbol : String
  pub action : OrderSide
  pub volume : F
  pub fill_price : Option F
  pub price : F
  pub entry_time : String

pub record Position (F : Type 0) : Type 0 where
  pub account_id : String
  pub symbol : String
  pub side : OrderSide
  pub quantity : F
  pub entry_price : F
  pub entry_time : String
  pub order_id : String

abbrev pub Key : Type 0
Key = String × String

abbrev pub same_key : Key → Key → Bool
same_key (a, s) (b, t) = str_eq a b && str_eq s t

abbrev pub Tracker : Type 0 → Type 0
Tracker F = List (Key × Position F)

module _ {F : Type 0} where
  -- `get_position`
  unfoldable pub get_position : Key → Tracker F → Option (Position F)
  get_position k [] = none
  get_position k ((j, p) ∷ d) = if same_key j k then some p else get_position k d

  -- `has_position`
  unfoldable pub has_position : Key → Tracker F → Bool
  unfolding get_position
  has_position k d = elim (get_position k d) [ none ↦ false | some _ ↦ true ]

  abbrev pub without : Key → Tracker F → Tracker F
  without k [] = []
  without k ((j, p) ∷ d) = if same_key j k then d else (j, p) ∷ without k d

  -- `close_position`: `self._positions.pop(key, None)`
  unfoldable pub close_position : Key → Tracker F → Option (Position F) × Tracker F
  close_position k d = (get_position k d, without k d)

  abbrev pub of_account : String → Tracker F → List (Position F)
  of_account a [] = []
  of_account a ((_, p) ∷ d) =
      let rest = of_account a d in if str_eq p.account_id a then p ∷ rest else rest

  abbrev pub positions : Tracker F → List (Position F)
  positions [] = []
  positions ((_, p) ∷ d) = p ∷ positions d

  -- `get_all_positions`
  unfoldable pub get_all_positions : Option String → Tracker F → List (Position F)
  get_all_positions none d = positions d
  get_all_positions (some a) d = of_account a d

  abbrev pub count_of : String → Tracker F → ℕ
  count_of a [] = 0
  count_of a ((_, p) ∷ d) =
      let rest = count_of a d in if str_eq p.account_id a then suc rest else rest

  -- `get_position_count`
  unfoldable pub get_position_count : Option String → Tracker F → ℕ
  get_position_count none d = length d
  get_position_count (some a) d = count_of a d

  -- `clear`: how many positions there were, and the empty dict
  unfoldable pub clear : Tracker F → ℕ × Tracker F
  clear d = (length d, [])

module _ {F : Type 0} ⦃n : Number F⦄ where
  -- `fill_price or price`: None and zero are both false.
  abbrev pub entry_price_of : Option F → F → F
  entry_price_of none price = price
  entry_price_of (some x) price = if n.eq x (n.literal 0) then price else x

  abbrev pub position_of : FilledOrder F → Position F
  position_of o = record {
    account_id = o.account_id;
    symbol = o.symbol;
    side = o.action;
    quantity = o.volume;
    entry_price = entry_price_of o.fill_price o.price;
    entry_time = o.entry_time;
    order_id = o.order_id;
  }

  -- `open_position`: the position and the dict after it, or none for the ValueError
  unfoldable pub open_position : FilledOrder F → Tracker F → Option (Position F × Tracker F)
  open_position o d =
      if has_position (o.account_id, o.symbol) d
      then none
      else some (position_of o, d ++ (((o.account_id, o.symbol), position_of o) ∷ []))
