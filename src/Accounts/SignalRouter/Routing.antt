-- ===== src/Accounts/SignalRouter/Routing.antt =====
-- Which accounts accounts/signal_router.py routes a symbol to.
use td_sandboxed.Base.{
  Bool, true, false, not, ◌&&◌, ◌||◌, String, str_eq, eq_iff, List, [], ◌∷◌, ◌≡◌, refl, ◌∙◌, inl,
  inr, arith, Bool-cases,
}
use td_sandboxed.Base.Dict.{Dict, lookup, lookup-insert}
use td_sandboxed.Accounts.SignalRouter.{
  Account, Router, empty, has, join, discard, union, accounts_of, enlist, enlist_each, add_filtered,
  add_account, build_from, build_symbol_mapping, route_symbol,
}

has-join : (x y : String) (s : List String) → has y (join x s) ≡ (str_eq x y || has y s)
has-join x y s = ground (arith, eq_iff x y)

pub has-union : (x : String) (s t : List String) → has x (union s t) ≡ (has x s || has x t)
has-union x [] t = refl
has-union x (y ∷ s) t = rw (has-join y x (union s t), has-union x s t) (ground arith)

pub has-discard :
    (x y : String) (s : List String) → has y (discard x s) ≡ (not (str_eq x y) && has y s)
has-discard x y [] = ground arith
has-discard x y (z ∷ s) = ground (arith, has-discard x y s, eq_iff z x, eq_iff z y, eq_iff x y)

module _ (upper : String → String) where
  -- Some symbol of a filter is the given one, in upper case.
  abbrev pub matches : String → List String → Bool
  matches key [] = false
  matches key (symbol ∷ symbols) = str_eq (upper symbol) key || matches key symbols

  -- An account with such a filter wants the symbol: it is active, and has no filter or one that names it.
  abbrev pub passes : String → List String → Bool
  passes key [] = true
  passes key (symbol ∷ symbols) = matches key (symbol ∷ symbols)

  abbrev pub wants : String → Account → Bool
  wants symbol account = account.is_active && passes (upper symbol) account.symbols

  -- The accounts are searched one by one.
  abbrev pub is_receiver : String → String → Dict Account → Bool
  is_receiver symbol account_id [] = false
  is_receiver symbol account_id ((id, account) ∷ accounts) =
      (str_eq id account_id && wants symbol account) || is_receiver symbol account_id accounts

  has-enlist :
      (i j symbol key : String) (d : Dict (List String))
      → has j (accounts_of (lookup key (enlist upper i symbol d)))
        ≡ ((str_eq (upper symbol) key && str_eq i j) || has j (accounts_of (lookup key d)))
  has-enlist i j symbol key d =
      let new = join i (accounts_of (lookup (upper symbol) d)) in
      let found = lookup-insert (upper symbol) key new d in
      elim (Bool-cases (str_eq (upper symbol) key)) [
        | inl same ↦
            let joined = has-join i j (accounts_of (lookup (upper symbol) d)) in
            rw (found, same, joined, (eq_iff (upper symbol) key).0 same) refl
        | inr other ↦ rw (found, other) refl
      ]

  has-enlist_each :
      (i j key : String) (symbols : List String) (d : Dict (List String))
      → has j (accounts_of (lookup key (enlist_each upper i symbols d)))
        ≡ ((matches key symbols && str_eq i j) || has j (accounts_of (lookup key d)))
  has-enlist_each i j key [] d = refl
  has-enlist_each i j key (symbol ∷ symbols) d =
      rw (has-enlist_each i j key symbols (enlist upper i symbol d), has-enlist i j symbol key d)
        (ground arith)

  has-add_filtered :
      (i j symbol : String) (symbols : List String) (r : Router)
      → has j (route_symbol upper symbol (add_filtered upper i symbols r))
        ≡ ((str_eq i j && passes (upper symbol) symbols) || has j (route_symbol upper symbol r))
  unfolding route_symbol
  has-add_filtered i j symbol [] r =
      let specific = accounts_of (lookup (upper symbol) r.symbol_map) in
      rw
        (
          has-union j specific (join i r.wildcard_accounts),
          has-union j specific r.wildcard_accounts,
          has-join i j r.wildcard_accounts,
        )
        (ground arith)
  has-add_filtered i j symbol (first ∷ symbols) r =
      let key = upper symbol in
      let after = enlist_each upper i (first ∷ symbols) r.symbol_map in
      rw
        (
          has-union j (accounts_of (lookup key after)) r.wildcard_accounts,
          has-union j (accounts_of (lookup key r.symbol_map)) r.wildcard_accounts,
          has-enlist_each i j key (first ∷ symbols) r.symbol_map,
        )
        (ground arith)

  has-add_account :
      (i j symbol : String) (account : Account) (r : Router)
      → has j (route_symbol upper symbol (add_account upper i account r))
        ≡ ((str_eq i j && wants symbol account) || has j (route_symbol upper symbol r))
  unfolding add_account
  has-add_account i j symbol account r = elim (Bool-cases account.is_active) [
    | inl active ↦ rw active (has-add_filtered i j symbol account.symbols r)
    | inr inactive ↦ rw inactive (ground arith)
  ]

  has-build_from :
      (j symbol : String) (accounts : Dict Account) (r : Router)
      → has j (route_symbol upper symbol (build_from upper accounts r))
        ≡ (is_receiver symbol j accounts || has j (route_symbol upper symbol r))
  has-build_from j symbol [] r = refl
  has-build_from j symbol ((i, account) ∷ accounts) r =
      rw
        (
          has-build_from j symbol accounts (add_account upper i account r),
          has-add_account i j symbol account r,
        )
        (ground arith)

  -- The routing tables that are built of the accounts route a symbol to an account exactly if the
  -- accounts, searched one by one, have one of this id that is active and has no filter or one
  -- that names the symbol in any case.
  pub build_symbol_mapping-routes :
      (account_id symbol : String) (accounts : Dict Account)
      → has account_id (route_symbol upper symbol (build_symbol_mapping upper accounts))
        ≡ is_receiver symbol account_id accounts
  unfolding build_symbol_mapping route_symbol
  build_symbol_mapping-routes account_id symbol accounts =
      has-build_from account_id symbol accounts empty ∙ ground arith
