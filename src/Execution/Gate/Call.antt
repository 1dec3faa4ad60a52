-- ===== src/Execution/Gate/Call.antt =====
-- One call of send_order_and_wait: what it leaves in the reservation counter, and what it sends.
use td_sandboxed.Base.{
  ℕ, ◌+◌, ◌-◌, ◌≡◌, ◌≢◌, inl, inr, refl, true, Option, some, arith, Bool-cases, Option-cases,
}
use td_sandboxed.Execution.Reservation.{
  Counter, Connection, up, lost_after, reserved_lots, reserve, release, atomic_reserve,
  atomic_release, get_reserved,
}
use td_sandboxed.Execution.Gate.{
  Adapter, Order, Claim, unguarded, refused, claimed, snapshot, reserve_under, try_reserve,
  release_reservation, Sending, raises, replies, Answers, World, after_sending, after_claim,
  send_order_and_wait,
}

-- What a claim holds in the counter.
abbrev pub held : Order → Claim → ℕ
held order (claimed _) = order.volume
held order _ = 0

-- A reservation that Redis does not lose adds what its claim holds.
reserve-held :
    (adapter : Adapter) (order : Order) (seen m : ℕ) (redis : Connection) (key : Counter)
    → redis ≢ lost_after
    → let (claim, after) = reserve_under adapter order seen redis key (some m) in
      reserved_lots after ≡ reserved_lots key + held order claim
unfolding reserve atomic_reserve get_reserved
reserve-held adapter order seen m redis key h = ground arith

pub try_reserve-held :
    (adapter : Adapter) (order : Order) (seen : ℕ) (redis : Connection) (key : Counter)
    → redis ≢ lost_after
    → reserved_lots ((try_reserve adapter order seen redis key).1)
      ≡ reserved_lots key + held order (try_reserve adapter order seen redis key).0
unfolding try_reserve
try_reserve-held adapter order seen redis key h = elim (Bool-cases adapter.has_reservation) [
  | inr e ↦ rw e (omega arith)
  | inl e ↦ elim (Option-cases adapter.provider) [
    | inl absent ↦ rw (e, absent) (omega arith)
    | inr (provider, there) ↦ elim (Option-cases (provider seen)) [
      | inl uncapped ↦ rw (e, there, uncapped) (omega arith)
      | inr (m, capped) ↦ rw (e, there, capped) (reserve-held adapter order seen m redis key h)
    ]
  ]
]

-- A claim that was made can be given back: the reservation is there and has started.
abbrev pub IsClaimable : Adapter → Claim → Type 0
IsClaimable adapter (claimed _) = (adapter.has_reservation ≡ true) × (adapter.started ≡ true)
IsClaimable adapter _ = Unit

IsClaimable-started :
    (adapter : Adapter) (claim : Claim)
    → adapter.has_reservation ≡ true
    → adapter.started ≡ true
    → IsClaimable adapter claim
IsClaimable-started adapter unguarded h s = tt
IsClaimable-started adapter (refused _) h s = tt
IsClaimable-started adapter (claimed _) h s = (h, s)

reserve-IsClaimable :
    (adapter : Adapter) (order : Order) (seen m : ℕ) (redis : Connection) (key : Counter)
    → adapter.has_reservation ≡ true
    → IsClaimable adapter (reserve_under adapter order seen redis key (some m)).0
unfolding reserve atomic_reserve get_reserved
reserve-IsClaimable adapter order seen m redis key h = elim (Bool-cases adapter.started) [
  | inl e ↦ IsClaimable-started adapter _ h e
  | inr e ↦ rw e tt
]

try_reserve-IsClaimable :
    (adapter : Adapter) (order : Order) (seen : ℕ) (redis : Connection) (key : Counter)
    → IsClaimable adapter (try_reserve adapter order seen redis key).0
unfolding try_reserve
try_reserve-IsClaimable adapter order seen redis key = elim (Bool-cases adapter.has_reservation) [
  | inr e ↦ rw e tt
  | inl e ↦ elim (Option-cases adapter.provider) [
    | inl absent ↦ rw (e, absent) tt
    | inr (provider, there) ↦ elim (Option-cases (provider seen)) [
      | inl uncapped ↦ rw (e, there, uncapped) tt
      | inr (m, capped) ↦
          simp (e, there, capped) (reserve-IsClaimable adapter order seen m redis key e)
    ]
  ]
]

pub release-held :
    (adapter : Adapter) (order : Order) (claim : Claim) (key : Counter)
    → IsClaimable adapter claim
    → reserved_lots (release_reservation adapter order claim up key)
      ≡ reserved_lots key - held order claim
unfolding release_reservation release atomic_release
release-held adapter order unguarded key h = omega arith
release-held adapter order (refused _) key h = omega arith
release-held adapter order (claimed _) key h = rw (h.0, h.1) (ground arith)

-- A reservation and its release leave the counter as it was.
claim-release :
    (adapter : Adapter) (order : Order) (seen : ℕ) (redis : Connection) (key : Counter)
    → redis ≢ lost_after
    → let (claim, after) = try_reserve adapter order seen redis key in
      reserved_lots (release_reservation adapter order claim up after) ≡ reserved_lots key
claim-release adapter order seen redis key h = omega (
  arith,
  try_reserve-held adapter order seen redis key h,
  release-held adapter order (try_reserve adapter order seen redis key).0
      (try_reserve adapter order seen redis key).1
      (try_reserve-IsClaimable adapter order seen redis key),
)

sending-key :
    (adapter : Adapter) (order : Order) (claim : Claim) (releasing : Connection)
    (tracked : Option ℕ) (sending : Sending) (w : World)
    → (after_sending adapter order claim releasing tracked sending w).1.key
      ≡ release_reservation adapter order claim releasing w.key
sending-key adapter order claim releasing tracked raises w = refl
sending-key adapter order claim releasing tracked (replies is_filled) w = refl

after_claim-key :
    (adapter : Adapter) (order : Order) (answers : Answers) (w : World) (claim : Claim)
    (key : Counter)
    → (after_claim adapter order answers w (claim, key)).1.key
      ≡ release_reservation adapter order claim answers.releasing key
unfolding release_reservation
after_claim-key adapter order answers w (refused _) key = refl
after_claim-key adapter order answers w unguarded key =
    sending-key adapter order unguarded answers.releasing answers.tracked answers.sending _
after_claim-key adapter order answers w (claimed result) key =
    sending-key adapter order (claimed result) answers.releasing answers.tracked answers.sending _

-- However one call of send_order_and_wait ends, blocked by the rules or the gate, failed,
-- untracked or complete, the reservation counter is after it what it was before, if Redis answers
-- the release and does not lose the answer of the reservation.
pub send_order_and_wait-restores :
    (adapter : Adapter) (order : Order) (answers : Answers) (w : World)
    → answers.reserving ≢ lost_after
    → answers.releasing ≡ up
    → reserved_lots ((send_order_and_wait adapter order answers w).1.key) ≡ reserved_lots w.key
unfolding send_order_and_wait
send_order_and_wait-restores adapter order answers w h released =
    let seen = snapshot adapter answers.has_risk_state w.position in
    elim (Bool-cases answers.is_blocked) [
      | inl e ↦ rw e refl
      | inr e ↦ rw e (
          rw
            (
              after_claim-key adapter order answers w
                  (try_reserve adapter order seen answers.reserving w.key).0
                  (try_reserve adapter order seen answers.reserving w.key).1,
              released,
            )
            (claim-release adapter order seen answers.reserving w.key h))
    ]
