-- ===== src/Accounts/Manager/Restart.antt =====
-- What a restart of the engine does to the statuses, and what a resumed account lacks.
use td_sandboxed.Base.{
  ◌≡◌, refl, ap, sym, subst, inl, inr, Bool, true, false, String, str_eq, eq_iff, some, List, [],
  ◌∷◌, ◌++◌, if◌then◌else◌, arith, Bool-cases,
}
use td_sandboxed.Base.Dict.{Dict, lookup, contains, lookup-insert}
use td_sandboxed.Accounts.Manager.{
  active, paused, Manager, get_account_status, resume_account, spawn_account_task, start_each,
  start_all_accounts, member, loop_turn, turn_from, accept, remove, save_account_status,
}

member-snoc :
    (a b : String) (xs : List String)
    → member a (xs ++ (b ∷ [])) ≡ (if member a xs then true else str_eq b a)
member-snoc a b [] = ground arith
member-snoc a b (x ∷ xs) = ground (arith, member-snoc a b xs)

module _ (a b : String) (m : Manager) where
  -- An account that runs and is active stays active.
  spawn-active :
      get_account_status a m ≡ some active
      → get_account_status a (spawn_account_task b m) ≡ some active
  unfolding spawn_account_task
  spawn-active now = elim (Bool-cases (member b m.tasks)) [
    | inl runs ↦ simp runs now
    | inr idle ↦ simp idle (ground (arith, lookup-insert b a active m.statuses, now))
  ]

  spawn-idle :
      str_eq b a ≡ false
      → member a m.tasks ≡ false
      → member a (spawn_account_task b m).tasks ≡ false
  unfolding spawn_account_task
  spawn-idle other idle = elim (Bool-cases (member b m.tasks)) [
    | inl runs ↦ simp runs idle
    | inr waits ↦ simp waits (ground (arith, member-snoc a b m.tasks, idle, other))
  ]

module _ (a : String) where
  spawn_self-active :
      (m : Manager)
      → member a m.tasks ≡ false
      → get_account_status a (spawn_account_task a m) ≡ some active
  unfolding spawn_account_task
  spawn_self-active m idle =
      simp idle (ground (arith, lookup-insert a a active m.statuses, eq_iff a a))

  turn-active :
      (b : String) (is_active : Bool) (m : Manager)
      → get_account_status a m ≡ some active
      → get_account_status a (if is_active then spawn_account_task b m else m) ≡ some active
  turn-active b true m now = spawn-active a b m now
  turn-active b false m now = now

  each-active :
      (d : Dict Bool) (m : Manager)
      → get_account_status a m ≡ some active
      → get_account_status a (start_each d m) ≡ some active
  each-active [] m now = now
  each-active ((b, is_active) ∷ d) m now =
      each-active d (if is_active then spawn_account_task b m else m)
        (turn-active b is_active m now)

  self-active :
      (b : String) (is_active : Bool) (m : Manager)
      → str_eq b a ≡ true
      → some is_active ≡ some true
      → member a m.tasks ≡ false
      → get_account_status a (if is_active then spawn_account_task b m else m) ≡ some active
  self-active b true m same there idle =
      subst (λ x. get_account_status a (spawn_account_task x m) ≡ some active)
        (sym ((eq_iff b a).0 same)) (spawn_self-active m idle)
  self-active b false m same there idle = cc there

  turn-idle :
      (b : String) (is_active : Bool) (m : Manager)
      → str_eq b a ≡ false
      → member a m.tasks ≡ false
      → member a (if is_active then spawn_account_task b m else m).tasks ≡ false
  turn-idle b true m other idle = spawn-idle a b m other idle
  turn-idle b false m other idle = idle

  each-starts :
      (d : Dict Bool) (m : Manager)
      → lookup a d ≡ some true
      → member a m.tasks ≡ false
      → get_account_status a (start_each d m) ≡ some active
  each-starts [] m there idle = cc there
  each-starts ((b, is_active) ∷ d) m there idle = elim (Bool-cases (str_eq b a)) [
    | inr other ↦
        each-starts d (if is_active then spawn_account_task b m else m) (rw other at there)
          (turn-idle b is_active m other idle)
    | inl same ↦
        each-active d (if is_active then spawn_account_task b m else m)
          (self-active b is_active m same (rw same at there) idle)
  ]

  -- After start_all_accounts an account that is configured as active and has no task is active,
  -- whatever status it had, paused for a rule violation included.
  pub start_all_accounts-reactivates :
      (m : Manager)
      → lookup a m.accounts ≡ some true
      → member a m.tasks ≡ false
      → get_account_status a (start_all_accounts m) ≡ some active
  unfolding start_all_accounts
  start_all_accounts-reactivates m there idle = each-starts m.accounts m there idle

  member-remove : (xs : List String) → member a (remove a xs) ≡ false
  member-remove [] = refl
  member-remove (x ∷ xs) = ground (arith, member-remove xs)

  resume_lem :
      (m : Manager)
      → contains a m.accounts ≡ true
      → get_account_status a m ≡ some paused
      → resume_account a m ≡ accept (save_account_status a active m)
  unfolding resume_account
  resume_lem m known now = rw (known, now)

  -- A paused account whose loop has read its status has no task, and resuming it makes it active
  -- without giving it one.
  pub resume_account-idle :
      (m : Manager)
      → contains a m.accounts ≡ true
      → get_account_status a m ≡ some paused
      → (get_account_status a (resume_account a (loop_turn a m)).manager ≡ some active)
        × (member a (resume_account a (loop_turn a m)).manager.tasks ≡ false)
  unfolding resume_account loop_turn
  resume_account-idle m known now =
      let left = record m { tasks = remove a m.tasks } in
      let turned : loop_turn a m ≡ left = ap (turn_from a m) now in
      let resumed : resume_account a left ≡ accept (save_account_status a active left) =
        resume_lem left known now in
      rw (turned, resumed)
        (ground (arith, lookup-insert a a active m.statuses, eq_iff a a), member-remove m.tasks)
