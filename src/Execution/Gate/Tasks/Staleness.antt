-- ===== src/Execution/Gate/Tasks/Staleness.antt =====
-- The gate on a stale reading: between `_build_account_state` and `_try_reserve` the call awaits
-- the validator, and another call may fill and give its claim back in between.
use td_sandboxed.Base.{ℕ, ◌+◌, ◌≤◌, ◌≡◌, refl, ◌∙◌, subst, true, none, arith, List, [], ◌∷◌}
use td_sandboxed.Execution.Reservation.{
  Counter, stored, ReservationResult, up, release, atomic_release,
}
use td_sandboxed.Execution.Gate.{Adapter, Order, claimed, release_reservation}
use td_sandboxed.Execution.Gate.Decision.{IsGuarded, decision, try_reserve-decision}
use td_sandboxed.Execution.Gate.Tasks.{
  Stage, fresh, read, sent, told, finished, Task, Shared, stage_after, Step, build,
  reserve as reserves, tell, give_back, step, Run, start, then_,
}

abbrev pub order_of : ℕ → Order
order_of v = record { volume = v }

abbrev pub task_at : ℕ → Stage → Task
task_at v stage = record { order = order_of v; stage = stage }

abbrev pub claim_on : ℕ → ℕ → ReservationResult
claim_on v before = record {
  accepted = true;
  new_reserved = before + v;
  previous_reserved = before;
}

abbrev pub shared_at : Counter → ℕ → Shared
shared_at key position = record { key = key; position = position }

module _ {adapter : Adapter} {s : Shared} {ts : List Task} {s' s'' : Shared} {t t' : Task} where
  by_first :
      (other : Task)
      → Run adapter s ts s' (t ∷ other ∷ [])
      → Step adapter s' t s'' t'
      → Run adapter s ts s'' (t' ∷ other ∷ [])
  by_first other run moved = then_ _ _ _ _ run (step [] (other ∷ []) _ _ _ _ moved)

  by_second :
      (other : Task)
      → Run adapter s ts s' (other ∷ t ∷ [])
      → Step adapter s' t s'' t'
      → Run adapter s ts s'' (other ∷ t' ∷ [])
  by_second other run moved = then_ _ _ _ _ run (step (other ∷ []) [] _ _ _ _ moved)

module _ (adapter : Adapter) (m v : ℕ) (guarded : IsGuarded adapter 0 m) (fits : v ≤ m) where
  claims :
      (position : ℕ)
      → Step adapter
          (shared_at none position)
          (task_at v (read 0))
          (shared_at (stored adapter.scripts (0 + v)) position)
          (task_at v (sent (claimed (claim_on v 0))))
  claims position =
      let fit : decision adapter.scripts (order_of v) 0 m none
          ≡ (claimed (claim_on v 0), stored adapter.scripts (0 + v)) =
        rw (adapter.scripts.from_zero v) (ground (arith, fits)) in
      subst
        (λ c.
          Step adapter (shared_at none position) (task_at v (read 0)) (shared_at c.1 position)
            (task_at v (stage_after c.0)))
        (try_reserve-decision adapter (order_of v) 0 m none guarded ∙ fit)
        (reserves (shared_at none position) (order_of v) 0 up)

  releases :
      release_reservation adapter
        (order_of v)
        (claimed (claim_on v 0))
        up
        (stored adapter.scripts (0 + v))
      ≡ none
  unfolding release_reservation release atomic_release
  releases = rw (guarded.0, guarded.1) (ground arith)

  gives_back :
      (position : ℕ)
      → Step adapter
          (shared_at (stored adapter.scripts (0 + v)) position)
          (task_at v (told (claimed (claim_on v 0))))
          (shared_at none position)
          (task_at v finished)
  gives_back position =
      subst
        (λ c.
          Step adapter (shared_at (stored adapter.scripts (0 + v)) position)
            (task_at v (told (claimed (claim_on v 0)))) (shared_at c position) (task_at v finished))
        releases
        (give_back (shared_at (stored adapter.scripts (0 + v)) position) (order_of v)
          (claimed (claim_on v 0)))

  module _ (registry : adapter.has_registry ≡ true) where
    reads :
        (key : Counter)
        → Step adapter (shared_at key 0) (task_at v fresh) (shared_at key 0) (task_at v (read 0))
    reads key =
        subst
          (λ seen.
            Step adapter (shared_at key 0) (task_at v fresh) (shared_at key 0)
              (task_at v (read seen)))
          (rw registry refl) (build (shared_at key 0) (order_of v) true)

    -- With the gate at work and the registry present, for a cap and any volume within it, two
    -- orders of that volume that both read an account without open lots before either fills both
    -- pass the gate, and the account comes to hold twice the volume.
    pub stale_reading-overexposes :
        (key : Counter) × Run adapter
          (shared_at none 0)
          (task_at v fresh ∷ task_at v fresh ∷ [])
          (shared_at key (v + v))
          (task_at v finished ∷ task_at v (told (claimed (claim_on v 0))) ∷ [])
    stale_reading-overexposes =
        let claim = claimed (claim_on v 0) in
        let held_key : Counter = stored adapter.scripts (0 + v) in
        let other : Task = task_at v (read 0) in
        let done : Task = task_at v finished in
        let run0 = by_first (task_at v fresh) start (reads none) in
        let run1 = by_second other run0 (reads none) in
        let run2 = by_first other run1 (claims 0) in
        let run3 =
          by_first other run2 (tell (shared_at held_key 0) (order_of v) claim v (omega arith)) in
        let run4 = by_first other run3 (gives_back v) in
        let run5 = by_second done run4 (claims v) in
        (
          held_key,
          by_second done run5
              (tell (shared_at held_key v) (order_of v) claim (v + v) (omega arith)),
        )
