-- ===== src/Accounts/PnlRegistry.antt =====
-- accounts/pnl_registry.py: PnLTrackerRegistry, the P&L trackers of all accounts. The lock of an
-- account makes its ticks one after another; what Redis knows of a balance is an argument.
use td_sandboxed.Base.{
  ℕ, ◌≡◌, String, str_eq, Option, none, some, [], ◌∷◌, length, if◌then◌else◌, Outcome, returned,
  raised, Bool-cases, inl, inr, refl, ◌≢◌, ◌∙◌, arith, eq_iff,
}
use td_sandboxed.Base.Dict.{Dict, lookup, insert, lookup-insert_ne}
use td_sandboxed.Base.Number.{Number}
use td_sandboxed.Accounts.PnlTracker.{
  Position, Tracker, initial, has_position_for_symbol, get_total_exposure, on_tick, reset_daily,
}

module _ {F : Type 0} ⦃n : Number F⦄ where
  abbrev created : String → F → Dict (Tracker F) → Outcome (Tracker F × Dict (Tracker F))
  created account_id balance trackers =
      returned (initial balance, insert account_id (initial balance) trackers)

  -- A new tracker by the balance that is given, or the one that Redis knows if it is connected.
  abbrev created_with :
      String
      → Option F
      → Option (Option F)
      → Dict (Tracker F)
      → Outcome (Tracker F × Dict (Tracker F))
  created_with account_id (some balance) redis trackers = created account_id balance trackers
  created_with account_id none none trackers = raised
  created_with account_id none (some none) trackers = created account_id (n.literal 0) trackers
  created_with account_id none (some (some balance)) trackers = created account_id balance trackers

  -- `get_or_create`: `redis` is none without a Redis manager.
  unfoldable get_or_create :
      String
      → Option F
      → (redis : Option (Option F)) → Dict (Tracker F)
      → Outcome (Tracker F × Dict (Tracker F))
  get_or_create account_id balance redis trackers = elim (lookup account_id trackers) [
    | some tracker ↦ returned (tracker, trackers)
    | none ↦ created_with account_id balance redis trackers
  ]

  -- `on_tick_all`
  unfoldable on_tick_all : String → (bid ask : F) → Dict (Tracker F) → Dict (Tracker F)
  on_tick_all symbol bid ask [] = []
  on_tick_all symbol bid ask ((account_id, t) ∷ trackers) =
      (account_id, (if has_position_for_symbol symbol t then on_tick symbol bid ask t else t))
      ∷ on_tick_all symbol bid ask trackers

  -- `get_open_positions_count`
  abbrev get_open_positions_count : String → Dict (Tracker F) → ℕ
  get_open_positions_count account_id trackers = elim (lookup account_id trackers) [
    | none ↦ 0
    | some t ↦ length t.positions
  ]

  -- `get_total_exposure`
  abbrev total_exposure_of : String → Dict (Tracker F) → F
  total_exposure_of account_id trackers = elim (lookup account_id trackers) [
    | none ↦ n.literal 0
    | some t ↦ get_total_exposure t
  ]

  abbrev lots_from : F → Dict (Position F) → F
  lots_from total [] = total
  lots_from total ((_, p) ∷ d) = lots_from (n.add total p.volume) d

  -- `get_total_position_lots`
  abbrev get_total_position_lots : String → Dict (Tracker F) → F
  get_total_position_lots account_id trackers = elim (lookup account_id trackers) [
    | none ↦ n.literal 0
    | some t ↦ lots_from (n.literal 0) t.positions
  ]

  abbrev reset_found : String → F → Option (Tracker F) → Dict (Tracker F) → Dict (Tracker F)
  reset_found account_id balance none trackers = trackers
  reset_found account_id balance (some t) trackers =
      insert account_id (reset_daily balance t) trackers

  -- `reset_daily_all`
  unfoldable reset_daily_all : Dict F → Dict (Tracker F) → Dict (Tracker F)
  reset_daily_all [] trackers = trackers
  reset_daily_all ((account_id, balance) ∷ balances) trackers =
      reset_daily_all balances
        (reset_found account_id balance (lookup account_id trackers) trackers)

  abbrev each_ticked : String → (bid ask : F) → Option (Tracker F) → Option (Tracker F)
  each_ticked symbol bid ask none = none
  each_ticked symbol bid ask (some t) = some (on_tick symbol bid ask t)

  skipped-on_tick :
      (symbol : String) (bid ask : F) (t : Tracker F)
      → (if has_position_for_symbol symbol t then on_tick symbol bid ask t else t)
        ≡ on_tick symbol bid ask t
  unfolding on_tick
  skipped-on_tick symbol bid ask t = elim (Bool-cases (has_position_for_symbol symbol t)) [
    | inl present ↦ rw present refl
    | inr absent ↦ rw absent refl
  ]

  -- After a tick is broadcast, each account has the tracker that the tick gives it, whether it was
  -- skipped or not.
  on_tick_all-lookup :
      (symbol account_id : String) (bid ask : F) (trackers : Dict (Tracker F))
      → lookup account_id (on_tick_all symbol bid ask trackers)
        ≡ each_ticked symbol bid ask (lookup account_id trackers)
  unfolding on_tick_all
  on_tick_all-lookup symbol account_id bid ask [] = refl
  on_tick_all-lookup symbol account_id bid ask ((i, t) ∷ trackers) =
      elim (Bool-cases (str_eq i account_id)) [
        | inl same ↦ rw (same, skipped-on_tick symbol bid ask t) refl
        | inr other ↦ rw other (on_tick_all-lookup symbol account_id bid ask trackers)
      ]

  reset_found-other :
      (i j : String) (balance : F) (found : Option (Tracker F)) (trackers : Dict (Tracker F))
      → i ≢ j
      → lookup j (reset_found i balance found trackers) ≡ lookup j trackers
  reset_found-other i j balance none trackers h = refl
  reset_found-other i j balance (some t) trackers h =
      lookup-insert_ne i j (reset_daily balance t) trackers h

  -- A daily reset leaves the accounts alone for which it has no balance.
  reset_daily_all-untouched :
      (account_id : String) (balances : Dict F) (trackers : Dict (Tracker F))
      → lookup account_id balances ≡ none
      → lookup account_id (reset_daily_all balances trackers) ≡ lookup account_id trackers
  unfolding reset_daily_all
  reset_daily_all-untouched account_id [] trackers h = refl
  reset_daily_all-untouched account_id ((i, balance) ∷ balances) trackers h =
      let after = reset_found i balance (lookup i trackers) trackers in
      elim (Bool-cases (str_eq i account_id)) [
        | inl same ↦ ground (arith, (rw same at h))
        | inr other ↦
            reset_daily_all-untouched account_id balances after (rw other at h)
            ∙ reset_found-other i account_id balance (lookup i trackers) trackers
                (λ e. ground (arith, other, e, eq_iff i account_id))
      ]
