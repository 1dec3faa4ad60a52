-- ===== src/Accounts/SignalRouter.antt =====
-- accounts/signal_router.py: SignalRouter, the accounts that receive the data of a symbol. A set of
-- account ids is a list; `upper` is `str.upper`.
pub mod Routing
pub mod Removal
use td_sandboxed.Base.{
  Bool, true, false, ◌||◌, String, str_eq, Option, none, some, List, [], ◌∷◌, if◌then◌else◌,
}
use td_sandboxed.Base.Dict.{Dict, lookup, insert}

-- What the router reads of an account; without a filter the symbols are empty.
pub record Account : Type 0 where
  pub is_active : Bool
  pub symbols : List String

pub record Router : Type 0 where
  pub symbol_map : Dict (List String)
  pub wildcard_accounts : List String

abbrev pub empty : Router
empty = record { symbol_map = []; wildcard_accounts = [] }

-- `x in s`
abbrev pub has : String → List String → Bool
has x [] = false
has x (y ∷ s) = str_eq y x || has x s

-- `s.add(x)`
abbrev pub join : String → List String → List String
join x s = if has x s then s else x ∷ s

-- `s.discard(x)`
abbrev pub discard : String → List String → List String
discard x [] = []
discard x (y ∷ s) = let rest = discard x s in if str_eq y x then rest else y ∷ rest

-- `s | t`
abbrev pub union : List String → List String → List String
union [] t = t
union (x ∷ s) t = join x (union s t)

-- `symbol_map.get(symbol, set())`
abbrev pub accounts_of : Option (List String) → List String
accounts_of none = []
accounts_of (some s) = s

module _ (upper : String → String) where
  -- One round of the loop over the symbols of an account.
  abbrev pub enlist : String → String → Dict (List String) → Dict (List String)
  enlist account_id symbol d =
      insert (upper symbol) (join account_id (accounts_of (lookup (upper symbol) d))) d

  abbrev pub enlist_each : String → List String → Dict (List String) → Dict (List String)
  enlist_each account_id [] d = d
  enlist_each account_id (symbol ∷ symbols) d =
      enlist_each account_id symbols (enlist account_id symbol d)

  abbrev pub add_filtered : String → List String → Router → Router
  add_filtered account_id [] r = record r {
    wildcard_accounts = join account_id r.wildcard_accounts;
  }
  add_filtered account_id (symbol ∷ symbols) r = record r {
    symbol_map = enlist_each account_id (symbol ∷ symbols) r.symbol_map;
  }

  -- `add_account`
  unfoldable pub add_account : String → Account → Router → Router
  add_account account_id account r =
      if account.is_active then add_filtered account_id account.symbols r else r

  abbrev pub build_from : Dict Account → Router → Router
  build_from [] r = r
  build_from ((account_id, account) ∷ accounts) r =
      build_from accounts (add_account account_id account r)

  -- `_build_symbol_mapping` and `rebuild_mapping`, of the accounts of the account manager
  unfoldable pub build_symbol_mapping : Dict Account → Router
  build_symbol_mapping accounts = build_from accounts empty

  -- `route_symbol`, and `route_bar` and `route_tick` of a symbol
  unfoldable pub route_symbol : String → Router → List String
  route_symbol symbol r =
      union (accounts_of (lookup (upper symbol) r.symbol_map)) r.wildcard_accounts

-- `remove_account` on the symbol map, with the clean-up of empty entries
abbrev pub kept_entry : String → List String → Dict (List String) → Dict (List String)
kept_entry symbol [] d = d
kept_entry symbol (x ∷ s) d = (symbol, x ∷ s) ∷ d

abbrev pub remove_from : String → Dict (List String) → Dict (List String)
remove_from account_id [] = []
remove_from account_id ((symbol, s) ∷ d) =
    kept_entry symbol (discard account_id s) (remove_from account_id d)

-- `remove_account`
unfoldable pub remove_account : String → Router → Router
remove_account account_id r = record {
  symbol_map = remove_from account_id r.symbol_map;
  wildcard_accounts = discard account_id r.wildcard_accounts;
}
