-- ===== src/Accounts/Manager.antt =====
-- accounts/state.py and accounts/account_manager.py: the status of each account, which Redis keeps,
-- and the tasks of the running accounts. Redis answers, and its statuses are those that are written
-- here. What stopping a task or a connection takes, and the assignment of rules, is left out.
pub mod Table
pub mod Restart
use td_sandboxed.Base.{
  ◌≡◌, Bool, true, false, String, str_eq, Option, none, some, List, [], ◌∷◌, ◌++◌, if◌then◌else◌,
}
use td_sandboxed.Base.Dict.{Dict, lookup, insert, contains}

pub data AccountState : Type 0 where
  active paused stopped error : AccountState

-- `can_transition_to`, with the table of `valid_transitions`
unfoldable pub can_transition_to : AccountState → AccountState → Bool
can_transition_to active paused = true
can_transition_to active stopped = true
can_transition_to active error = true
can_transition_to paused active = true
can_transition_to paused stopped = true
can_transition_to paused error = true
can_transition_to stopped active = true
can_transition_to error stopped = true
can_transition_to _ _ = false

-- The fields that the operations below use: `accounts` gives the configured status of each account,
-- true for active; `statuses` and `alerts` are what Redis was sent, the last alert first.
pub record Manager : Type 0 where
  pub accounts : Dict Bool
  pub statuses : Dict AccountState
  pub tasks : List String
  pub alerts : List String

-- What a call leaves, and whether it raised ValueError.
pub record Reply : Type 0 where
  pub manager : Manager
  pub is_raised : Bool

abbrev pub accept : Manager → Reply
accept m = record { manager = m; is_raised = false }

abbrev pub refuse : Manager → Reply
refuse m = record { manager = m; is_raised = true }

-- `get_account_status`
abbrev pub get_account_status : String → Manager → Option AccountState
get_account_status a m = lookup a m.statuses

-- `save_account_status`
abbrev pub save_account_status : String → AccountState → Manager → Manager
save_account_status a status m = record m { statuses = insert a status m.statuses }

-- `_validate_account_exists` and what follows it
abbrev pub if_known : String → Manager → Reply → Reply
if_known a m reply = if contains a m.accounts then reply else refuse m

abbrev pub change : String → AccountState → AccountState → Manager → Reply
change a current target m =
    if can_transition_to current target then accept (save_account_status a target m) else refuse m

abbrev pub start_from : String → Manager → Option AccountState → Reply
start_from a m none = accept (save_account_status a active m)
start_from a m (some current) = change a current active m

-- `start_account`
unfoldable pub start_account : String → Manager → Reply
start_account a m = if_known a m (start_from a m (get_account_status a m))

abbrev pub remove : String → List String → List String
remove a [] = []
remove a (b ∷ bs) = let rest = remove a bs in if str_eq b a then rest else b ∷ rest

abbrev pub stop_from : String → Manager → Option AccountState → Reply
stop_from a m (some stopped) = accept m
stop_from a m _ = accept (save_account_status a stopped m)

-- `stop_account`
unfoldable pub stop_account : String → Manager → Reply
stop_account a m =
    let cancelled = record m { tasks = remove a m.tasks } in
    if_known a m (stop_from a cancelled (get_account_status a m))

abbrev pub pause_from : String → Manager → Option AccountState → Reply
pause_from a m none = refuse m
pause_from a m (some current) = change a current paused m

-- `pause_account`
unfoldable pub pause_account : String → Manager → Reply
pause_account a m = if_known a m (pause_from a m (get_account_status a m))

-- `_publish_alert`
abbrev pub publish_alert : String → Manager → Manager
publish_alert a m = record m { alerts = a ∷ m.alerts }

-- What follows the pause, which raised or not
abbrev pub alerted : String → (is_raised : Bool) → Manager → Reply
alerted a true m = refuse m
alerted a false m = accept (publish_alert a m)

-- `pause_for_rule_violation`: no alert where the pause raises.
unfoldable pub pause_for_rule_violation : String → Manager → Reply
unfolding pause_account
pause_for_rule_violation a m = let r = pause_account a m in alerted a r.is_raised r.manager

abbrev pub resume_from : String → Manager → Option AccountState → Reply
resume_from a m (some paused) = accept (save_account_status a active m)
resume_from a m _ = refuse m

-- `resume_account`
unfoldable pub resume_account : String → Manager → Reply
resume_account a m = if_known a m (resume_from a m (get_account_status a m))

abbrev pub acknowledge_from : String → Manager → Option AccountState → Reply
acknowledge_from a m (some error) = accept (save_account_status a stopped m)
acknowledge_from a m _ = refuse m

-- `acknowledge_error`
unfoldable pub acknowledge_error : String → Manager → Reply
acknowledge_error a m = if_known a m (acknowledge_from a m (get_account_status a m))

-- `set_error`
unfoldable pub set_error : String → Manager → Reply
set_error a m = if_known a m (accept (save_account_status a error m))

abbrev pub member : String → List String → Bool
member a [] = false
member a (b ∷ bs) = if str_eq b a then true else member a bs

-- `_spawn_account_task`
unfoldable pub spawn_account_task : String → Manager → Manager
spawn_account_task a m =
    if member a m.tasks
    then m
    else save_account_status a active (record m { tasks = m.tasks ++ (a ∷ []) })

abbrev pub start_each : Dict Bool → Manager → Manager
start_each [] m = m
start_each ((a, is_active) ∷ rest) m =
    start_each rest (if is_active then spawn_account_task a m else m)

-- `start_all_accounts`
unfoldable pub start_all_accounts : Manager → Manager
unfolding spawn_account_task
start_all_accounts m = start_each m.accounts m

abbrev pub turn_from : String → Manager → Option AccountState → Manager
turn_from a m (some stopped) = record m { tasks = remove a m.tasks }
turn_from a m (some paused) = record m { tasks = remove a m.tasks }
turn_from a m _ = m

-- What the loop of an account does with the status it reads, in `_run_account_loop`: an account that
-- is stopped or paused leaves the loop and the tasks.
unfoldable pub loop_turn : String → Manager → Manager
loop_turn a m = turn_from a m (get_account_status a m)

abbrev pub add_known : String → Bool → Manager → Reply
add_known a is_active m =
    let known = record m { accounts = insert a is_active m.accounts } in
    accept (if is_active then spawn_account_task a known else known)

-- `add_account`, where `config` is the status in the new configuration
unfoldable pub add_account : String → (config : Option Bool) → Manager → Reply
unfolding spawn_account_task
add_account a config m = elim config [
  | none ↦ refuse m
  | some is_active ↦ if contains a m.accounts then refuse m else add_known a is_active m
]
