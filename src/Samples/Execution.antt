-- ===== src/Samples/Execution.antt =====
-- The reservation gate with a cap of 10 lots.
use td_sandboxed.Base.{◌==◌, ◌&&◌, ℕ, ◌≤◌, ◌≡◌, refl, true, false, none, some, List, [], ◌∷◌, arith}
use td_sandboxed.Execution.Reservation.{Counter, Scripts, stored, up, reserved_lots}
use td_sandboxed.Execution.Gate.{
  Adapter, Order, claimed, Answers, World, replies, send_order_and_wait, try_reserve,
}
use td_sandboxed.Execution.Gate.Call.{send_order_and_wait-restores}
use td_sandboxed.Execution.Gate.Decision.{IsGuarded}
use td_sandboxed.Execution.Gate.Tasks.{
  fresh, sent, told, finished, Task, Shared, build, reserve, step, Run, start, then_,
}
use td_sandboxed.Execution.Gate.Tasks.Conservation.{total, counted, run-counted}
use td_sandboxed.Execution.Gate.Tasks.Exposure.{IsWithin, run-IsWithin}
use td_sandboxed.Execution.Gate.Tasks.Staleness.{
  claim_on, order_of, shared_at, task_at, stale_reading-overexposes,
}

-- A quarter of an hour to live; 0.10 and 0.20 lots round up.
abbrev pub scripts : Scripts
scripts = record {
  ttl_seconds = 900;
  rounds_up = λ a b. (a == 10) && (b == 20);
  from_zero = λ v. refl;
}

abbrev adapter : Adapter
adapter = record {
  has_reservation = true;
  started = true;
  scripts = scripts;
  provider = some (λ _. some 1000);
  has_registry = true;
}

abbrev two_lots : Order
two_lots = record { volume = 200 }

abbrev filling : Answers
filling = record {
  has_risk_state = true;
  is_blocked = false;
  reserving = up;
  sending = replies true;
  tracked = some 500;
  releasing = up;
}

-- Three open lots, and four lots in flight
abbrev busy : World
busy = record { key = stored scripts 400; position = 300; sent = [] }

send_order_and_wait-restores_example :
    reserved_lots ((send_order_and_wait adapter two_lots filling busy).1.key) ≡ 400
send_order_and_wait-restores_example =
    send_order_and_wait-restores adapter two_lots filling busy (λ e. cc e) refl

guarded : (seen : ℕ) → IsGuarded adapter seen 1000
guarded seen = (refl, refl, (λ _. some 1000, refl, refl))

abbrev waiting : List Task
waiting = task_at 200 fresh ∷ []

abbrev idle : Shared
idle = shared_at none 300

-- One order reads the account and passes the gate.
abbrev passing :
    Run adapter idle waiting
      (shared_at (try_reserve adapter (order_of 200) 300 up none).1 300)
      (task_at 200 (sent (claimed (claim_on 200 0))) ∷ [])
unfolding try_reserve td_sandboxed.Execution.Reservation.reserve
    td_sandboxed.Execution.Reservation.atomic_reserve
passing =
    then_ _ _ _ _ (then_ _ _ _ _ start (step [] [] _ _ _ _ (build idle (order_of 200) true)))
      (step [] [] _ _ _ _ (reserve idle (order_of 200) 300 up))

covered : total counted waiting ≤ 0
unfolding total
covered = omega arith

within : IsWithin 1000 idle waiting
unfolding total
within = ((omega arith, tt), covered, omega arith)

run-counted_example :
    total counted (task_at 200 (sent (claimed (claim_on 200 0))) ∷ [])
    ≤ reserved_lots (try_reserve adapter (order_of 200) 300 up none).1
unfolding passing
run-counted_example = run-counted adapter idle waiting _ _ passing ((tt, tt), tt) covered

run-IsWithin_example :
    IsWithin 1000
      (shared_at (try_reserve adapter (order_of 200) 300 up none).1 300)
      (task_at 200 (sent (claimed (claim_on 200 0))) ∷ [])
unfolding passing
run-IsWithin_example =
    run-IsWithin adapter 1000 guarded idle waiting _ _ passing ((tt, tt), (refl, omega arith))
      within

stale_reading-overexposes_example :
    (key : Counter) × Run adapter
      (shared_at none 0)
      (task_at 600 fresh ∷ task_at 600 fresh ∷ [])
      (shared_at key 1200)
      (task_at 600 finished ∷ task_at 600 (told (claimed (claim_on 600 0))) ∷ [])
stale_reading-overexposes_example =
    stale_reading-overexposes adapter 1000 600 (guarded 0) (omega arith) refl
