-- ===== src/Execution/Gate.antt =====
-- execution/validated_adapter.py: send_order_and_wait, _try_reserve and _release_reservation, for
-- one account, with the lots in hundredths. What the validator, the broker, the P&L registry and
-- Redis answer to one call is an argument, `Call`.
pub mod Call
pub mod Decision
pub mod Tasks
use td_sandboxed.Base.{
  ℕ, ◌+◌, ◌-◌, ◌≤◌, ◌≡◌, refl, Bool, true, false, not, Option, none, some, ◌&&◌, arith,
  if◌then◌else◌, List, [], ◌∷◌,
}
use td_sandboxed.Base.Int.{ℤ, pos, negsuc, sub_ℕ}
use td_sandboxed.Execution.Reservation.{
  Counter, Scripts, ReservationResult, Reply, answered, failed, Connection, reserved_lots, reserve,
  release,
}

-- `started` and `scripts` are the reservation's; `provider` is `max_lots_provider`, read at the open lots.
pub record Adapter : Type 0 where
  pub has_reservation : Bool
  pub started : Bool
  pub scripts : Scripts
  pub provider : Option (ℕ → Option ℕ)
  pub has_registry : Bool

pub record Order : Type 0 where
  pub volume : ℕ

-- The gate's answer: no reservation, an OrderBlockedError, or a reservation to give back.
pub data Claim : Type 0 where
  unguarded : Claim
  refused : ReservationResult → Claim
  claimed : ReservationResult → Claim

-- `current_position_lots` of `_build_account_state`, where the account has open lots `position`
abbrev pub snapshot : Adapter → (has_risk_state : Bool) → (position : ℕ) → ℕ
snapshot adapter has_risk_state position =
    if has_risk_state && adapter.has_registry then position else 0

abbrev pub claim_of : Reply ReservationResult × Counter → Claim × Counter
claim_of (failed e, key) = (unguarded, key)
claim_of (answered result, key) =
    if result.accepted then (claimed result, key) else (refused result, key)

abbrev pub reserve_under :
    Adapter → Order → (seen : ℕ) → Connection → Counter → Option ℕ → Claim × Counter
reserve_under adapter order seen redis key none = (unguarded, key)
reserve_under adapter order seen redis key (some max_lots) =
    claim_of
      (reserve adapter.scripts adapter.started redis (pos order.volume) (sub_ℕ max_lots seen) key)

abbrev pub reserve_by :
    Adapter → Order → (seen : ℕ) → Connection → Counter → Option (ℕ → Option ℕ) → Claim × Counter
reserve_by adapter order seen redis key none = (unguarded, key)
reserve_by adapter order seen redis key (some provider) =
    reserve_under adapter order seen redis key (provider seen)

-- `_try_reserve`, with the open lots that the account state has
unfoldable pub try_reserve : Adapter → Order → (seen : ℕ) → Connection → Counter → Claim × Counter
try_reserve adapter order seen redis key =
    if adapter.has_reservation
    then reserve_by adapter order seen redis key adapter.provider
    else (unguarded, key)

-- `_release_reservation`, which never raises
unfoldable pub release_reservation : Adapter → Order → Claim → Connection → Counter → Counter
release_reservation adapter order (claimed result) redis key =
    if adapter.has_reservation
    then (release adapter.scripts adapter.started redis (pos order.volume) key).1
    else key
release_reservation adapter order _ redis key = key

-- `await self._adapter.send_order_and_wait(...)`: an exception, or a result
pub data Sending : Type 0 where
  raises : Sending
  replies : (is_filled : Bool) → Sending

-- The answers that one call meets. `tracked` is the number of open lots after `on_trade_executed`,
-- or none where that raises.
pub record Answers : Type 0 where
  pub has_risk_state : Bool
  pub is_blocked : Bool
  pub reserving : Connection
  pub sending : Sending
  pub tracked : Option ℕ
  pub releasing : Connection

-- `sent` are the volumes that reached the broker's adapter, the last one first.
pub record World : Type 0 where
  pub key : Counter
  pub position : ℕ
  pub sent : List ℕ

pub data Outcome : Type 0 where
  blocked_by_rules blocked_by_gate send_failed tracking_failed : Outcome
  completed : (is_filled : Bool) → Outcome

-- The block that notifies the P&L registry: the outcome and the open lots after it.
abbrev pub notify : Adapter → (is_filled : Bool) → Option ℕ → ℕ → Outcome × ℕ
notify adapter is_filled tracked position =
    if adapter.has_registry && is_filled
    then elim tracked [
      | none ↦ (tracking_failed, position)
      | some lots ↦ (completed is_filled, lots)
    ]
    else (completed is_filled, position)

abbrev pub after_sending :
    Adapter → Order → Claim → Connection → Option ℕ → Sending → World → Outcome × World
after_sending adapter order claim releasing tracked raises w = (
  send_failed,
  record {
    key = release_reservation adapter order claim releasing w.key;
    position = w.position;
    sent = w.sent;
  },
)
after_sending adapter order claim releasing tracked (replies is_filled) w =
    let (outcome, lots) = notify adapter is_filled tracked w.position in
    (
      outcome,
      record {
        key = release_reservation adapter order claim releasing w.key;
        position = lots;
        sent = w.sent;
      },
    )

abbrev pub after_claim : Adapter → Order → Answers → World → Claim × Counter → Outcome × World
after_claim adapter order answers w (refused result, key) =
    (blocked_by_gate, record { key = key; position = w.position; sent = w.sent })
after_claim adapter order answers w (claim, key) =
    after_sending adapter order claim answers.releasing answers.tracked answers.sending
      (record { key = key; position = w.position; sent = order.volume ∷ w.sent })

-- `send_order_and_wait`
unfoldable pub send_order_and_wait : Adapter → Order → Answers → World → Outcome × World
send_order_and_wait adapter order answers w =
    let seen = snapshot adapter answers.has_risk_state w.position in
    if answers.is_blocked
    then (blocked_by_rules, w)
    else after_claim adapter order answers w
        (try_reserve adapter order seen answers.reserving w.key)
