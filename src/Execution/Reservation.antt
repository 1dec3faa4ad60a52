-- ===== src/Execution/Reservation.antt =====
-- execution/exposure_reservation.py and its two Lua scripts, for the counter of one account.
-- Lots are hundredths, up to 10^12 of them, which doubles and the 14 digits of `tostring` tell apart.
-- `Counter` is the value at the account's Redis key with the time that it has left.
use td_sandboxed.Base.{
  ℕ, ◌+◌, ◌-◌, ◌≡◌, Bool, true, false, not, Option, none, some, ◌==◌, ltb, leb, if◌then◌else◌,
}
use td_sandboxed.Base.Int.{ℤ, pos, negsuc, ltb_ℤ, leb_ℤ}

-- `expires_in` is none for a key without a time to live.
pub record Entry : Type 0 where
  pub lots : ℕ
  pub expires_in : Option ℕ

abbrev pub Counter : Type 0
Counter = Option Entry

-- What the scripts run with. Lua adds and compares doubles: `rounds_up` says that the sum of the
-- doubles of two numbers of lots is above the double of their sum, as that of 0.1 and 0.2 is. A sum
-- with zero is exact.
pub record Scripts : Type 0 where
  pub ttl_seconds : ℕ
  pub rounds_up : (current requested : ℕ) → Bool
  pub from_zero : (lots : ℕ) → rounds_up 0 lots ≡ false

pub record ReservationResult : Type 0 where
  pub accepted : Bool
  pub new_reserved : ℕ
  pub previous_reserved : ℕ

pub data ReservationError : Type 0 where
  not_started negative_lots script_error redis_error : ReservationError

pub data Reply {ℓ} (A : Type ℓ) : Type ℓ where
  answered : A → Reply A
  failed : ReservationError → Reply A

-- Whether a call of Redis answers, or raises before or after the server has run the command.
pub data Connection : Type 0 where
  up lost_before lost_after : Connection

-- `tonumber(raw) or 0`
abbrev pub reserved_lots : Counter → ℕ
reserved_lots none = 0
reserved_lots (some e) = e.lots

-- `SET key new`, which drops the time to live, and `EXPIRE key ttl` if there is one
abbrev pub stored : Scripts → ℕ → Counter
stored scripts new = some (record {
  lots = new;
  expires_in = if ltb 0 scripts.ttl_seconds then some scripts.ttl_seconds else none;
})

abbrev pub aged : ℕ → ℕ → Option ℕ → Counter
aged seconds lots none = some (record { lots = lots; expires_in = none })
aged seconds lots (some left) =
    if leb left seconds
    then none
    else some (record { lots = lots; expires_in = some (left - seconds) })

-- The key after some seconds: Redis deletes it when its time is over.
unfoldable pub elapse : ℕ → Counter → Counter
elapse seconds none = none
elapse seconds (some e) = aged seconds e.lots e.expires_in

-- `new > max_total` on doubles
abbrev pub exceeds : Scripts → (current requested : ℕ) → (max_total : ℤ) → Bool
exceeds scripts current requested max_total =
    if scripts.rounds_up current requested
    then leb_ℤ max_total (pos (current + requested))
    else ltb_ℤ max_total (pos (current + requested))

abbrev pub is_negative : ℤ → Bool
is_negative z = ltb_ℤ z (pos 0)

-- atomic_reserve.lua after its checks of the arguments
unfoldable pub atomic_reserve : Scripts → ℕ → ℤ → Counter → ReservationResult × Counter
atomic_reserve scripts requested max_total key =
    let current = reserved_lots key in
    let new = current + requested in
    if exceeds scripts current requested max_total
    then (record { accepted = false; new_reserved = current; previous_reserved = current }, key)
    else (
      record { accepted = true; new_reserved = new; previous_reserved = current },
      stored scripts new,
    )

-- atomic_release.lua after its checks of the arguments: the subtraction saturates, and a counter at
-- zero is deleted.
unfoldable pub atomic_release : Scripts → ℕ → Counter → ℕ × Counter
atomic_release scripts amount key =
    let new = reserved_lots key - amount in (new, if new == 0 then none else stored scripts new)

-- One command over a connection.
abbrev pub command {ℓ} : {A : Type ℓ} → Connection → A × Counter → Counter → Reply A × Counter
command up ran key = (answered ran.0, ran.1)
command lost_before ran key = (failed redis_error, key)
command lost_after ran key = (failed redis_error, ran.1)

-- The arguments that pass `requested_lots < 0` are natural numbers.
abbrev pub evalsha_reserve :
    Scripts → Connection → ℤ → ℤ → Counter → Reply ReservationResult × Counter
evalsha_reserve scripts redis (pos requested) max_total key =
    command redis (atomic_reserve scripts requested max_total key) key
evalsha_reserve scripts redis (negsuc _) max_total key = (failed script_error, key)

abbrev pub evalsha_release : Scripts → Connection → ℤ → Counter → Reply ℕ × Counter
evalsha_release scripts redis (pos amount) key =
    command redis (atomic_release scripts amount key) key
evalsha_release scripts redis (negsuc _) key = (failed script_error, key)

-- `get_reserved`
unfoldable pub get_reserved : Connection → Counter → Reply ℕ × Counter
get_reserved redis key = command redis (reserved_lots key, key) key

abbrev pub rejected_at : Reply ℕ × Counter → Reply ReservationResult × Counter
rejected_at (answered current, key) = (
  answered (record { accepted = false; new_reserved = current; previous_reserved = current }),
  key,
)
rejected_at (failed e, key) = (failed e, key)

-- `ExposureReservation.reserve`; `started` says that `start` has loaded the scripts.
unfoldable pub reserve :
    Scripts
    → (started : Bool) → Connection
    → (requested max_total : ℤ) → Counter
    → Reply ReservationResult × Counter
reserve scripts started redis requested max_total key =
    if not started
    then (failed not_started, key)
    else if is_negative requested
    then (failed negative_lots, key)
    else if is_negative max_total
    then rejected_at (get_reserved redis key)
    else evalsha_reserve scripts redis requested max_total key

-- `ExposureReservation.release`
unfoldable pub release : Scripts → (started : Bool) → Connection → ℤ → Counter → Reply ℕ × Counter
release scripts started redis amount key =
    if not started
    then (failed not_started, key)
    else if is_negative amount
    then (failed negative_lots, key)
    else evalsha_release scripts redis amount key

-- `clear`
unfoldable pub clear : Counter → Counter
clear key = none
