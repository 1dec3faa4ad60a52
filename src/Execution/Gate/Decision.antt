-- ===== src/Execution/Gate/Decision.antt =====
-- The decision of the reservation gate, and what it lets through.
use td_sandboxed.Base.{
  ℕ, ◌+◌, ◌≡◌, inl, inr, refl, true, false, Option, some, arith, if◌then◌else◌, ◌∷◌, leb, ltb, Bool,
  Bool-cases,
}
use td_sandboxed.Execution.Reservation.{
  Counter, Scripts, stored, Connection, up, reserved_lots, reserve, atomic_reserve, get_reserved,
}
use td_sandboxed.Execution.Gate.{
  Adapter, Order, Claim, refused, claimed, snapshot, reserve_under, try_reserve, Sending, raises,
  replies, Answers, World, after_sending, send_order_and_wait,
}

-- The gate at work: the reservation is there and started, and the provider gives a cap.
abbrev pub IsGuarded : Adapter → (seen m : ℕ) → Type 0
IsGuarded adapter seen m =
    (adapter.has_reservation ≡ true)
    × (adapter.started ≡ true)
    × ((provider : ℕ → Option ℕ) × (adapter.provider ≡ some provider) × (provider seen ≡ some m))

-- The lots are within the cap, and below it where their sum rounds up.
abbrev pub is_fitting : (rounds_up : Bool) → (total m : ℕ) → Bool
is_fitting true total m = ltb total m
is_fitting false total m = leb total m

-- The decision of the gate in one test.
abbrev pub decision : Scripts → Order → (seen m : ℕ) → Counter → Claim × Counter
decision scripts order seen m key =
    let current = reserved_lots key in
    if is_fitting (scripts.rounds_up current order.volume) (current + order.volume + seen) m
    then (
      claimed (record {
        accepted = true;
        new_reserved = current + order.volume;
        previous_reserved = current;
      }),
      stored scripts (current + order.volume),
    )
    else (
      refused (record { accepted = false; new_reserved = current; previous_reserved = current }),
      key,
    )

reserve-decision :
    (adapter : Adapter) (order : Order) (seen m : ℕ) (key : Counter)
    → adapter.started ≡ true
    → reserve_under adapter order seen up key (some m) ≡ decision adapter.scripts order seen m key
unfolding reserve atomic_reserve get_reserved
reserve-decision adapter order seen m key h =
    elim (Bool-cases (adapter.scripts.rounds_up (reserved_lots key) order.volume)) [
      | inl up_ ↦ rw (h, up_) (ground arith)
      | inr even ↦ rw (h, even) (ground arith)
    ]

pub try_reserve-decision :
    (adapter : Adapter) (order : Order) (seen m : ℕ) (key : Counter)
    → IsGuarded adapter seen m
    → try_reserve adapter order seen up key ≡ decision adapter.scripts order seen m key
unfolding try_reserve
try_reserve-decision adapter order seen m key (h, s, (provider, there, capped)) =
    simp (h, there, capped) (reserve-decision adapter order seen m key s)

sending-sent :
    (adapter : Adapter) (order : Order) (claim : Claim) (releasing : Connection)
    (tracked : Option ℕ) (sending : Sending) (w : World)
    → (after_sending adapter order claim releasing tracked sending w).1.sent ≡ w.sent
sending-sent adapter order claim releasing tracked raises w = refl
sending-sent adapter order claim releasing tracked (replies is_filled) w = refl

-- With the reservation present and started, a cap from the provider, and Redis answering, an order
-- that the rules pass is sent exactly if the reserved lots, its own and the open lots that were
-- read are together within the cap, and below it where the first two round up.
pub send_order_and_wait-sent :
    (adapter : Adapter) (order : Order) (answers : Answers) (w : World) (m : ℕ)
    → answers.is_blocked ≡ false
    → answers.reserving ≡ up
    → IsGuarded adapter (snapshot adapter answers.has_risk_state w.position) m
    → (send_order_and_wait adapter order answers w).1.sent ≡ (
        if is_fitting
          (adapter.scripts.rounds_up (reserved_lots w.key) order.volume)
          (reserved_lots w.key + order.volume + snapshot adapter answers.has_risk_state w.position)
          m
        then order.volume ∷ w.sent
        else w.sent)
unfolding send_order_and_wait
send_order_and_wait-sent adapter order answers w m passed answered_ guarded =
    let seen = snapshot adapter answers.has_risk_state w.position in
    rw (passed, answered_)
      (rw (try_reserve-decision adapter order seen m w.key guarded)
        (elim (Bool-cases (
          is_fitting (adapter.scripts.rounds_up (reserved_lots w.key) order.volume)
            (reserved_lots w.key + order.volume + seen) m)) [
              | inr e ↦ rw e refl
              | inl e ↦
                  rw e (
                    sending-sent adapter order _ answers.releasing answers.tracked answers.sending
                      _)
            ]))
