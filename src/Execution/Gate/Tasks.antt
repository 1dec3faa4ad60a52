-- ===== src/Execution/Gate/Tasks.antt =====
-- Concurrent calls of send_order_and_wait for one account, as steps between the points at which a
-- coroutine awaits: the account state is read, the gate answers, the broker answers, the P&L
-- registry is told, the claim is given back. Any task may take the next step.
pub mod Conservation
pub mod Exposure
pub mod Staleness
use td_sandboxed.Base.{ℕ, ◌+◌, ◌≤◌, ◌≡◌, Bool, true, false, List, [], ◌∷◌, ◌++◌}
use td_sandboxed.Execution.Reservation.{Counter, Connection, ReservationResult, up, elapse}
use td_sandboxed.Execution.Gate.{
  Adapter, Order, Claim, unguarded, refused, claimed, snapshot, try_reserve, release_reservation,
}

-- Where a call stands. `read` has the open lots of its account state; `told` has a claim that is
-- still to be given back; `leaked` could not give its claim back.
pub data Stage : Type 0 where
  fresh : Stage
  read : (seen : ℕ) → Stage
  sent : Claim → Stage
  told : Claim → Stage
  finished : Stage
  leaked : Stage

pub record Task : Type 0 where
  pub order : Order
  pub stage : Stage

pub record Shared : Type 0 where
  pub key : Counter
  pub position : ℕ

abbrev pub stage_after : Claim → Stage
stage_after (refused _) = finished
stage_after claim = sent claim

-- One step of one task, on the state that the tasks of the account share.
pub data Step (adapter : Adapter) : Shared → Task → Shared → Task → Type 0 where
  -- `_build_account_state`, before the await of `validate_order`
  build :
      (s : Shared) (order : Order) (has_risk_state : Bool)
      → Step adapter s
          (record { order = order; stage = fresh })
          s
          (record { order = order; stage = read (snapshot adapter has_risk_state s.position) })
  -- the validator blocks the order
  block :
      (s : Shared) (order : Order) (seen : ℕ)
      → Step adapter s
          (record { order = order; stage = read seen })
          s
          (record { order = order; stage = finished })
  -- the validator passes the order, and the gate answers over the connection
  reserve :
      (s : Shared) (order : Order) (seen : ℕ) (redis : Connection)
      → Step adapter s
          (record { order = order; stage = read seen })
          (record { key = (try_reserve adapter order seen redis s.key).1; position = s.position })
          (record {
            order = order;
            stage = stage_after (try_reserve adapter order seen redis s.key).0;
          })
  -- the broker raises, or its result is no fill, or there is no registry to tell
  fail :
      (s : Shared) (order : Order) (claim : Claim)
      → Step adapter s
          (record { order = order; stage = sent claim })
          s
          (record { order = order; stage = told claim })
  -- the fill of the order becomes open lots, at most its volume more than before
  tell :
      (s : Shared) (order : Order) (claim : Claim) (lots : ℕ)
      → lots ≤ s.position + order.volume
      → Step adapter s
          (record { order = order; stage = sent claim })
          (record { key = s.key; position = lots })
          (record { order = order; stage = told claim })
  -- the claim is given back
  give_back :
      (s : Shared) (order : Order) (claim : Claim)
      → Step adapter s
          (record { order = order; stage = told claim })
          (record { key = release_reservation adapter order claim up s.key; position = s.position })
          (record { order = order; stage = finished })
  -- the release does not reach Redis
  drift :
      (s : Shared) (order : Order) (claim : ReservationResult)
      → Step adapter s
          (record { order = order; stage = told (claimed claim) })
          s
          (record { order = order; stage = leaked })

-- A step of the account: one task of the list steps, open lots are closed elsewhere, or seconds pass,
-- after which Redis may have deleted the key.
pub data AccountStep (adapter : Adapter) : Shared → List Task → Shared → List Task → Type 0 where
  step :
      (before after : List Task) (s s' : Shared) (t t' : Task)
      → Step adapter s t s' t'
      → AccountStep adapter s (before ++ (t ∷ after)) s' (before ++ (t' ∷ after))
  close :
      (s : Shared) (tasks : List Task) (lots : ℕ)
      → lots ≤ s.position
      → AccountStep adapter s tasks (record { key = s.key; position = lots }) tasks
  wait :
      (s : Shared) (tasks : List Task) (seconds : ℕ)
      → AccountStep adapter s tasks
          (record { key = elapse seconds s.key; position = s.position })
          tasks

-- The states that the account reaches.
pub data Run (adapter : Adapter) (s : Shared) (tasks : List Task)
    : Shared → List Task → Type 0 where
  start : Run adapter s tasks s tasks
  then_ :
      (s' s'' : Shared) (tasks' tasks'' : List Task)
      → Run adapter s tasks s' tasks'
      → AccountStep adapter s' tasks' s'' tasks''
      → Run adapter s tasks s'' tasks''
