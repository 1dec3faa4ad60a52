-- ===== src/Samples/Orders.antt =====
-- One order and one position.
use td_sandboxed.Base.{◌≡◌, ◌⊎◌, refl, true, none, some, [], ◌∷◌}
use td_sandboxed.Base.Int.{ℤ, pos}
use td_sandboxed.Samples.Fixed.{fixed}
use td_sandboxed.Orders.Positions.{
  buy, FilledOrder, Position, Tracker, get_position, has_position, open_position, close_position,
  position_of,
}
use td_sandboxed.Orders.Positions.Book.{IsBook, open_position-IsBook}

abbrev gold : FilledOrder ℤ
gold = record {
  order_id = "o1";
  account_id = "a1";
  symbol = "XAUUSD";
  action = buy;
  volume = pos 50;
  fill_price = some (pos 264012);
  price = pos 264000;
  entry_time = "2026-01-05";
}

abbrev held : Tracker ℤ
held = (("a1", "XAUUSD"), position_of gold) ∷ []

held-IsBook : IsBook held
unfolding IsBook get_position
held-IsBook = (refl, refl, refl, tt)

open_position-IsBook_example :
    (has_position ("a1", "XAUUSD") held ≡ true) × (open_position gold held ≡ none)
    ⊎ ((p : Position ℤ) × (d' : Tracker ℤ) × (open_position gold held ≡ some (p, d'))
        × IsBook d'
        × (get_position ("a1", "XAUUSD") d' ≡ some p)
        × (close_position ("a1", "XAUUSD") d' ≡ (some p, held)))
open_position-IsBook_example = open_position-IsBook gold held held-IsBook
