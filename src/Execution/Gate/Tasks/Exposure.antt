-- ===== src/Execution/Gate/Tasks/Exposure.antt =====
-- What the reservation gate makes of the cap on open lots and lots in flight together: it holds
-- where each gate reads open lots that are not out of date, and a stale reading breaks it.
use td_sandboxed.Base.{
  ℕ, ◌+◌, ◌≤◌, ◌≡◌, inl, inr, arith, List, [], ◌∷◌, ◌++◌, All, ltb→lt, Bool, true, false, tests,
  Bool-cases,
}
use td_sandboxed.Execution.Reservation.{Counter, Scripts, up, elapse, reserved_lots}
use td_sandboxed.Execution.Gate.{Adapter, Order, Claim}
use td_sandboxed.Execution.Gate.Decision.{IsGuarded, is_fitting, decision, try_reserve-decision}
use td_sandboxed.Execution.Gate.Tasks.{
  sent, Task, Shared, stage_after, Step, build, block, reserve as reserves, fail, tell, give_back,
  drift, AccountStep, step, close, wait, Run, start, then_,
}
use td_sandboxed.Execution.Gate.Tasks.Conservation.{
  counted, total, total-split, AccountStep-counted,
}

-- The lots of a task that the broker has and that are not yet open lots.
abbrev pub in_flight : Task → ℕ
in_flight task = elim task.stage [ sent _ ↦ task.order.volume | _ ↦ 0 ]

-- A gate that Redis answers, on open lots that are not fewer than the account has.
abbrev pub IsCareful :
    {adapter : Adapter} {s s' : Shared} {t t' : Task} → Step adapter s t s' t' → Type 0
IsCareful (reserves s _ seen redis) = (redis ≡ up) × (s.position ≤ seen)
IsCareful _ = Unit

abbrev pub IsCarefulStep :
    {adapter : Adapter} {s s' : Shared} {ts ts' : List Task}
    → AccountStep adapter s ts s' ts'
    → Type 0
IsCarefulStep (step _ _ _ _ _ _ moved) = IsCareful moved
IsCarefulStep (wait s _ seconds) = reserved_lots (elapse seconds s.key) ≡ reserved_lots s.key
IsCarefulStep _ = Unit

abbrev pub IsCarefulRun :
    {adapter : Adapter} {s : Shared} {ts : List Task} {s' : Shared} {ts' : List Task}
    → Run adapter s ts s' ts'
    → Type 0
IsCarefulRun start = Unit
IsCarefulRun (then_ _ _ _ _ run moved) = IsCarefulRun run × IsCarefulStep moved

-- Each order in flight has its lots in the counter.
abbrev pub IsBacked : Task → Type 0
IsBacked task = in_flight task ≤ counted task

-- The state in which the cap `m` holds.
abbrev pub IsWithin : ℕ → Shared → List Task → Type 0
IsWithin m s ts =
    All IsBacked ts
    × (total counted ts ≤ reserved_lots s.key)
    × (s.position + total in_flight ts ≤ m)

All-replace :
    (before after : List Task) (t t' : Task)
    → (IsBacked t → IsBacked t')
    → All IsBacked (before ++ (t ∷ after))
    → All IsBacked (before ++ (t' ∷ after))
All-replace [] after t t' f h = (f h.0, h.1)
All-replace (x ∷ before) after t t' f h = (h.0, All-replace before after t t' f h.1)

All-at : (before after : List Task) (t : Task) → All IsBacked (before ++ (t ∷ after)) → IsBacked t
All-at [] after t h = h.0
All-at (x ∷ before) after t h = All-at before after t h.1

backed-total : (ts : List Task) → All IsBacked ts → total in_flight ts ≤ total counted ts
unfolding total
backed-total [] h = omega arith
backed-total (x ∷ xs) h = omega (arith, backed-total xs h.1, h.0)

rest-backed :
    (before after : List Task) (t : Task)
    → All IsBacked (before ++ (t ∷ after))
    → total in_flight before + total in_flight after ≤ total counted before + total counted after
unfolding total
rest-backed [] after t h = omega (arith, backed-total after h.1)
rest-backed (x ∷ before) after t h = omega (arith, rest-backed before after t h.1, h.0)

abbrev decided : Order → Claim → Task
decided order claim = record { order = order; stage = stage_after claim }

is_fitting-le : (rounds_up : Bool) (total m : ℕ) → is_fitting rounds_up total m ≡ true → total ≤ m
is_fitting-le true total m h = omega (tests, ltb→lt total m h)
is_fitting-le false total m h = omega (tests, h)

-- A claim that the gate makes holds the order's lots, and keeps the open lots, the order and the
-- others in flight within the cap.
decision-IsWithin :
    (scripts : Scripts) (order : Order) (seen m : ℕ) (key : Counter) (position rest : ℕ)
    → position ≤ seen
    → rest ≤ reserved_lots key
    → position + rest ≤ m
    → IsBacked (decided order (decision scripts order seen m key).0)
      × (position + (in_flight (decided order (decision scripts order seen m key).0) + rest) ≤ m)
decision-IsWithin scripts order seen m key position rest known covered within =
    elim (Bool-cases (
      is_fitting (scripts.rounds_up (reserved_lots key) order.volume)
        (reserved_lots key + order.volume + seen) m)) [
          | inl e ↦ rw e (
              (
                omega arith,
                omega (
                  arith,
                  is_fitting-le (scripts.rounds_up (reserved_lots key) order.volume)
                      (reserved_lots key + order.volume + seen) m e,
                ),
              ))
          | inr e ↦ rw e ((omega arith, omega arith))
        ]

module _ (adapter : Adapter) (m : ℕ) (guarded : (seen : ℕ) → IsGuarded adapter seen m) where
  -- A careful step of one task, beside others with `rest` lots in flight.
  step-IsWithin :
      (s s' : Shared) (t t' : Task) (moved : Step adapter s t s' t') (rest : ℕ)
      → IsCareful moved
      → IsBacked t
      → in_flight t + rest ≤ reserved_lots s.key
      → s.position + (in_flight t + rest) ≤ m
      → IsBacked t' × (s'.position + (in_flight t' + rest) ≤ m)
  step-IsWithin s s' t t' (build _ order _) rest care backed covered within =
      (omega arith, omega arith)
  step-IsWithin s s' t t' (block _ order _) rest care backed covered within =
      (omega arith, omega arith)
  step-IsWithin s s' t t' (reserves _ order seen redis) rest care backed covered within =
      rw (care.0, try_reserve-decision adapter order seen m s.key (guarded seen))
        (decision-IsWithin adapter.scripts order seen m s.key s.position rest care.1 (omega arith)
          (omega arith))
  step-IsWithin s s' t t' (fail _ order claim) rest care backed covered within =
      (omega arith, omega arith)
  step-IsWithin s s' t t' (tell _ order claim lots most) rest care backed covered within =
      (omega arith, omega arith)
  step-IsWithin s s' t t' (give_back _ order claim) rest care backed covered within =
      (omega arith, omega arith)
  step-IsWithin s s' t t' (drift _ order claim) rest care backed covered within =
      (omega arith, omega arith)

  AccountStep-IsWithin :
      (s s' : Shared) (ts ts' : List Task) (moved : AccountStep adapter s ts s' ts')
      → IsCarefulStep moved
      → IsWithin m s ts
      → IsWithin m s' ts'
  AccountStep-IsWithin s s' ts ts' (step before after _ _ t t' moved) care
        (backed, covered, within) =
      let rest = total in_flight before + total in_flight after in
      let own : IsBacked t = All-at before after t backed in
      let bound =
        step-IsWithin s s' t t' moved rest care own
          (omega (
            arith,
            covered,
            own,
            rest-backed before after t backed,
            total-split counted before after t,
          ))
          (omega (arith, within, total-split in_flight before after t)) in
      (
        All-replace before after t t' (λ _. bound.0) backed,
        AccountStep-counted adapter s s' _ _ (step before after _ _ t t' moved) tt covered,
        omega (arith, bound.1, total-split in_flight before after t'),
      )
  AccountStep-IsWithin s s' ts ts' (close _ _ lots fewer) care (backed, covered, within) =
      (backed, covered, omega arith)
  AccountStep-IsWithin s s' ts ts' (wait _ _ seconds) care (backed, covered, within) =
      (backed, omega (arith, care, covered), within)

  -- For any interleaving of concurrent calls of send_order_and_wait for an account, from a state
  -- within the cap, if the gate has the same cap for every reading, Redis answers each gate, the
  -- key does not expire while time passes and no gate reads fewer open lots than the account has,
  -- then the open lots and the lots in flight stay together within the cap.
  pub run-IsWithin :
      (s : Shared) (ts : List Task) (s' : Shared) (ts' : List Task) (run : Run adapter s ts s' ts')
      → IsCarefulRun run
      → IsWithin m s ts
      → IsWithin m s' ts'
  run-IsWithin s ts s' ts' start care h = h
  run-IsWithin s ts s' ts' (then_ mid _ tasks _ run moved) care h =
      AccountStep-IsWithin mid s' tasks ts' moved care.1 (run-IsWithin s ts mid tasks run care.0 h)
