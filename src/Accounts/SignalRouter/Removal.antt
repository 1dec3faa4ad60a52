-- ===== src/Accounts/SignalRouter/Removal.antt =====
-- The removal of an account from the routing of accounts/signal_router.py.
use td_sandboxed.Base.{
  true, false, not, ◌&&◌, String, str_eq, eq_iff, none, List, [], ◌∷◌, ◌≡◌, refl, ap, ◌∙◌, inl, inr,
  arith, Bool-cases, subst,
}
use td_sandboxed.Base.Dict.{Dict, lookup, insert, lookup-insert}
use td_sandboxed.Accounts.SignalRouter.{
  Account, Router, empty, has, join, discard, accounts_of, enlist, enlist_each, add_filtered,
  add_account, build_from, build_symbol_mapping, route_symbol, kept_entry, remove_from,
  remove_account,
}
use td_sandboxed.Accounts.SignalRouter.Routing.{
  has-union, has-discard, is_receiver, build_symbol_mapping-routes,
}

-- No key of the dict stands twice.
abbrev IsKeyed : Dict (List String) → Type 0
IsKeyed [] = Unit
IsKeyed ((key, _) ∷ d) = (lookup key d ≡ none) × IsKeyed d

insert-IsKeyed :
    (key : String) (s : List String) (d : Dict (List String)) → IsKeyed d → IsKeyed (insert key s d)
insert-IsKeyed key s [] h = (refl, tt)
insert-IsKeyed key s ((k, t) ∷ d) h = elim (Bool-cases (str_eq k key)) [
  | inl same ↦ rw same h
  | inr other ↦ rw other (
    (ground (arith, lookup-insert key k s d, eq_iff k key, eq_iff key k, other, h.0)),
    insert-IsKeyed key s d h.1,
  )
]

kept-same :
    (key : String) (k : String) (s : List String) (d : Dict (List String))
    → str_eq k key ≡ true
    → accounts_of (lookup key d) ≡ []
    → accounts_of (lookup key (kept_entry k s d)) ≡ s
kept-same key k [] d same nothing = nothing
kept-same key k (x ∷ s) d same nothing = rw same refl

kept-other :
    (key : String) (k : String) (s : List String) (d : Dict (List String))
    → str_eq k key ≡ false
    → lookup key (kept_entry k s d) ≡ lookup key d
kept-other key k [] d other = refl
kept-other key k (x ∷ s) d other = rw other refl

lookup-remove_from :
    (i key : String) (d : Dict (List String))
    → IsKeyed d
    → accounts_of (lookup key (remove_from i d)) ≡ discard i (accounts_of (lookup key d))
lookup-remove_from i key [] h = refl
lookup-remove_from i key ((k, s) ∷ d) h =
    let rest = lookup-remove_from i key d h.1 in
    elim (Bool-cases (str_eq k key)) [
      | inl same ↦
          let gone = subst (λ x. lookup x d ≡ none) ((eq_iff k key).0 same) h.0 in
          let left = kept-same key k (discard i s) (remove_from i d) same (rw gone at rest) in
          left ∙ rw same refl
      | inr other ↦
          ap accounts_of (kept-other key k (discard i s) (remove_from i d) other)
          ∙ rest
          ∙ rw other refl
    ]

module _ (upper : String → String) where
  enlist_each-IsKeyed :
      (i : String) (symbols : List String) (d : Dict (List String))
      → IsKeyed d
      → IsKeyed (enlist_each upper i symbols d)
  enlist_each-IsKeyed i [] d h = h
  enlist_each-IsKeyed i (symbol ∷ symbols) d h =
      let key = upper symbol in
      enlist_each-IsKeyed i symbols (enlist upper i symbol d)
        (insert-IsKeyed key (join i (accounts_of (lookup key d))) d h)

  add_filtered-IsKeyed :
      (i : String) (symbols : List String) (r : Router)
      → IsKeyed r.symbol_map
      → IsKeyed ((add_filtered upper i symbols r).symbol_map)
  add_filtered-IsKeyed i [] r h = h
  add_filtered-IsKeyed i (symbol ∷ symbols) r h =
      enlist_each-IsKeyed i (symbol ∷ symbols) r.symbol_map h

  build_from-IsKeyed :
      (accounts : Dict Account) (r : Router)
      → IsKeyed r.symbol_map
      → IsKeyed ((build_from upper accounts r).symbol_map)
  unfolding add_account
  build_from-IsKeyed [] r h = h
  build_from-IsKeyed ((i, account) ∷ accounts) r h = elim (Bool-cases account.is_active) [
    | inl active ↦ rw active (
        build_from-IsKeyed accounts (add_filtered upper i account.symbols r)
          (add_filtered-IsKeyed i account.symbols r h))
    | inr inactive ↦ rw inactive (build_from-IsKeyed accounts r h)
  ]

  has-remove_account :
      (i j symbol : String) (r : Router)
      → IsKeyed r.symbol_map
      → has j (route_symbol upper symbol (remove_account i r))
        ≡ (not (str_eq i j) && has j (route_symbol upper symbol r))
  unfolding route_symbol remove_account
  has-remove_account i j symbol r h =
      let specific = accounts_of (lookup (upper symbol) r.symbol_map) in
      rw
        (
          lookup-remove_from i (upper symbol) r.symbol_map h,
          has-union j (discard i specific) (discard i r.wildcard_accounts),
          has-union j specific r.wildcard_accounts,
          has-discard i j specific,
          has-discard i j r.wildcard_accounts,
        )
        (ground arith)

  -- After an account is removed from the routing tables that were built of the accounts, no symbol
  -- is routed to it, and every other account receives what the search of the accounts says.
  pub remove_account-routes :
      (removed account_id symbol : String) (accounts : Dict Account)
      → has account_id
          (route_symbol upper symbol (remove_account removed (build_symbol_mapping upper accounts)))
        ≡ (not (str_eq removed account_id) && is_receiver upper symbol account_id accounts)
  unfolding build_symbol_mapping
  remove_account-routes removed account_id symbol accounts =
      has-remove_account removed account_id symbol (build_from upper accounts empty)
        (build_from-IsKeyed accounts empty tt)
      ∙ ap (λ b. not (str_eq removed account_id) && b)
          (build_symbol_mapping-routes upper account_id symbol accounts)
