-- ===== src/Accounts/Manager/Table.antt =====
-- Which changes of status the operations make, and what a restart of the engine does to them.
use td_sandboxed.Base.{
  ◌≡◌, ◌⊎◌, ap, refl, inl, inr, Bool, true, false, String, str_eq, eq_iff, Option, none, some,
  if◌then◌else◌, ◌||◌, arith, Bool-cases,
}
use td_sandboxed.Base.Dict.{insert, contains, lookup-insert}
use td_sandboxed.Accounts.Manager.{
  AccountState, active, paused, stopped, error, can_transition_to, Manager, Reply,
  get_account_status, start_account, stop_account, pause_account, pause_for_rule_violation,
  resume_account, acknowledge_error, start_from, stop_from, pause_from, resume_from,
  acknowledge_from, change, if_known, accept, refuse, alerted, save_account_status, remove,
}

-- The operations that an operator or a rule asks for.
pub data Operation : Type 0 where
  start stop pause violation resume acknowledge : Operation

abbrev pub operate : Operation → String → Manager → Reply
operate start = start_account
operate stop = stop_account
operate pause = pause_account
operate violation = pause_for_rule_violation
operate resume = resume_account
operate acknowledge = acknowledge_error

abbrev same_state : AccountState → AccountState → Bool
same_state active active = true
same_state paused paused = true
same_state stopped stopped = true
same_state error error = true
same_state _ _ = false

-- A status stays, changes as the table of transitions says, or is the first of its account.
unfoldable pub is_allowed : Option AccountState → Option AccountState → Bool
unfolding can_transition_to
is_allowed none none = true
is_allowed none (some active) = true
is_allowed none (some stopped) = true
is_allowed none (some new) = false
is_allowed (some old) none = false
is_allowed (some old) (some new) = same_state old new || can_transition_to old new

-- A call changes the status of its account as the table allows, and a call that raises none.
abbrev Follows : String → String → Manager → Reply → Type 0
Follows a b m r =
    (is_allowed (get_account_status a m) (get_account_status a r.manager) ≡ true)
    × (get_account_status b r.manager
        ≡ (if str_eq a b then get_account_status a r.manager else get_account_status b m))
    × ((r.is_raised ≡ false) ⊎ (r.manager.statuses ≡ m.statuses))

is_allowed_self : (s : Option AccountState) → is_allowed s s ≡ true
unfolding is_allowed
is_allowed_self none = refl
is_allowed_self (some active) = refl
is_allowed_self (some paused) = refl
is_allowed_self (some stopped) = refl
is_allowed_self (some error) = refl

module _ (a b : String) (m : Manager) where
  -- A manager with the same statuses.
  same-Follows : (r : Reply) → r.manager.statuses ≡ m.statuses → Follows a b m r
  same-Follows r same =
      rw same (is_allowed_self (get_account_status a m), ground (arith, eq_iff a b), inr refl)

  -- A manager whose account got the status.
  set-Follows :
      (status : AccountState) (r : Reply)
      → r.is_raised ≡ false
      → r.manager.statuses ≡ insert a status m.statuses
      → is_allowed (get_account_status a m) (some status) ≡ true
      → Follows a b m r
  set-Follows status r fine written allowed = rw written (
    ground (arith, lookup-insert a a status m.statuses, eq_iff a a, allowed),
    ground (
      arith,
      lookup-insert a b status m.statuses,
      lookup-insert a a status m.statuses,
      eq_iff a a,
    ),
    inl fine,
  )

  allowed_by_table :
      (old new : AccountState)
      → can_transition_to old new ≡ true
      → is_allowed (some old) (some new) ≡ true
  unfolding is_allowed
  allowed_by_table old new h = ground (arith, h)

  change-Follows :
      (current target : AccountState)
      → get_account_status a m ≡ some current
      → Follows a b m (change a current target m)
  change-Follows current target now = elim (Bool-cases (can_transition_to current target)) [
    | inr never ↦ rw never (same-Follows (refuse m) refl)
    | inl fine ↦ rw fine (
        set-Follows target (accept (save_account_status a target m)) refl refl
          (rw now (allowed_by_table current target fine)))
  ]

  known-Follows : (r : Reply) → Follows a b m r → Follows a b m (if_known a m r)
  known-Follows r h = elim (Bool-cases (contains a m.accounts)) [
    | inl there ↦ rw there h
    | inr absent ↦ rw absent (same-Follows (refuse m) refl)
  ]

  write-Follows :
      (status : AccountState) (m' : Manager)
      → m'.statuses ≡ m.statuses
      → is_allowed (get_account_status a m) (some status) ≡ true
      → Follows a b m (accept (save_account_status a status m'))
  write-Follows status m' same allowed =
      set-Follows status (accept (save_account_status a status m')) refl
        (ap (λ d. insert a status d) same) allowed

  start-Follows :
      (s : Option AccountState) → get_account_status a m ≡ s → Follows a b m (start_from a m s)
  unfolding is_allowed
  start-Follows none now = write-Follows active m refl (rw now)
  start-Follows (some current) now = change-Follows current active now

  pause-Follows :
      (s : Option AccountState) → get_account_status a m ≡ s → Follows a b m (pause_from a m s)
  pause-Follows none now = same-Follows (refuse m) refl
  pause-Follows (some current) now = change-Follows current paused now

  stop-Follows :
      (m' : Manager) (s : Option AccountState)
      → m'.statuses ≡ m.statuses
      → get_account_status a m ≡ s
      → Follows a b m (stop_from a m' s)
  unfolding is_allowed
  stop-Follows m' none same now = write-Follows stopped m' same (rw now)
  stop-Follows m' (some active) same now = write-Follows stopped m' same (rw now)
  stop-Follows m' (some paused) same now = write-Follows stopped m' same (rw now)
  stop-Follows m' (some error) same now = write-Follows stopped m' same (rw now)
  stop-Follows m' (some stopped) same now = same-Follows (accept m') same

  resume-Follows :
      (s : Option AccountState) → get_account_status a m ≡ s → Follows a b m (resume_from a m s)
  unfolding is_allowed
  resume-Follows none now = same-Follows (refuse m) refl
  resume-Follows (some paused) now = write-Follows active m refl (rw now)
  resume-Follows (some active) now = same-Follows (refuse m) refl
  resume-Follows (some stopped) now = same-Follows (refuse m) refl
  resume-Follows (some error) now = same-Follows (refuse m) refl

  acknowledge-Follows :
      (s : Option AccountState)
      → get_account_status a m ≡ s
      → Follows a b m (acknowledge_from a m s)
  unfolding is_allowed
  acknowledge-Follows none now = same-Follows (refuse m) refl
  acknowledge-Follows (some error) now = write-Follows stopped m refl (rw now)
  acknowledge-Follows (some active) now = same-Follows (refuse m) refl
  acknowledge-Follows (some stopped) now = same-Follows (refuse m) refl
  acknowledge-Follows (some paused) now = same-Follows (refuse m) refl

  pause_account-Follows : Follows a b m (pause_account a m)
  unfolding pause_account
  pause_account-Follows = known-Follows _ (pause-Follows (get_account_status a m) refl)

  alert-Follows :
      (is_raised : Bool) (m' : Manager)
      → Follows a b m (record { manager = m'; is_raised = is_raised })
      → Follows a b m (alerted a is_raised m')
  alert-Follows true m' (allowed, rest, kept) = (allowed, rest, kept)
  alert-Follows false m' (allowed, rest, kept) = (allowed, rest, inl refl)

  -- Whichever of start, stop, pause, a pause for a rule violation, resume or acknowledge is
  -- called, the status of the account stays, changes as the table of transitions allows, or is its
  -- first; no other account's status changes, and a call that raises changes none.
  pub operate-Follows :
      (op : Operation)
      → (is_allowed (get_account_status a m) (get_account_status a (operate op a m).manager) ≡ true)
        × (get_account_status b (operate op a m).manager ≡ (
            if str_eq a b
            then get_account_status a (operate op a m).manager
            else get_account_status b m))
        × (((operate op a m).is_raised ≡ false) ⊎ ((operate op a m).manager.statuses ≡ m.statuses))
  unfolding start_account stop_account pause_for_rule_violation resume_account acknowledge_error
  operate-Follows start = known-Follows _ (start-Follows (get_account_status a m) refl)
  operate-Follows stop =
      known-Follows _
        (stop-Follows (record m { tasks = remove a m.tasks }) (get_account_status a m) refl refl)
  operate-Follows pause = pause_account-Follows
  operate-Follows violation =
      alert-Follows (pause_account a m).is_raised (pause_account a m).manager pause_account-Follows
  operate-Follows resume = known-Follows _ (resume-Follows (get_account_status a m) refl)
  operate-Follows acknowledge = known-Follows _ (acknowledge-Follows (get_account_status a m) refl)
