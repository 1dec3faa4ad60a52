-- ===== src/Execution/Gate/Tasks/Conservation.antt =====
-- The reservation counter covers every claim that a running call has, until it expires.
use td_sandboxed.Base.{
  ℕ, ◌+◌, ◌≤◌, ◌<◌, none, ◌≡◌, inl, inr, refl, some, arith, List, [], ◌∷◌, ◌++◌, Bool-cases,
  Option-cases,
}
use td_sandboxed.Execution.Reservation.{
  Scripts, stored, Counter, Connection, up, elapse, reserved_lots, reserve, release, atomic_reserve,
  atomic_release, get_reserved,
}
use td_sandboxed.Execution.Gate.{
  Adapter, Order, Claim, unguarded, refused, claimed, reserve_under, try_reserve,
  release_reservation,
}
use td_sandboxed.Execution.Gate.Call.{held}
use td_sandboxed.Execution.Gate.Tasks.{
  sent, told, leaked, Task, Shared, stage_after, Step, build, block, reserve as reserves, fail,
  tell, give_back, drift, AccountStep, step, close, wait, Run, start, then_,
}

-- The lots of a task that are in the counter.
abbrev pub counted : Task → ℕ
counted task = elim task.stage [
  | sent claim ↦ held task.order claim
  | told claim ↦ held task.order claim
  | leaked ↦ task.order.volume
  | _ ↦ 0
]

unfoldable pub total : (Task → ℕ) → List Task → ℕ
total f [] = 0
total f (t ∷ ts) = f t + total f ts

pub total-append : (f : Task → ℕ) (xs ys : List Task) → total f (xs ++ ys) ≡ total f xs + total f ys
unfolding total
total-append f [] ys = omega arith
total-append f (x ∷ xs) ys = omega (arith, total-append f xs ys)

pub total-split :
    (f : Task → ℕ) (before after : List Task) (t : Task)
    → total f (before ++ (t ∷ after)) ≡ f t + (total f before + total f after)
unfolding total
total-split f before after t = omega (arith, total-append f before (t ∷ after))

reserve-covers :
    (adapter : Adapter) (order : Order) (seen m : ℕ) (redis : Connection) (key : Counter)
    → reserved_lots key + held order (reserve_under adapter order seen redis key (some m)).0
      ≤ reserved_lots (reserve_under adapter order seen redis key (some m)).1
unfolding reserve atomic_reserve get_reserved
reserve-covers adapter order seen m redis key = ground arith

try_reserve-covers :
    (adapter : Adapter) (order : Order) (seen : ℕ) (redis : Connection) (key : Counter)
    → reserved_lots key + held order (try_reserve adapter order seen redis key).0
      ≤ reserved_lots (try_reserve adapter order seen redis key).1
unfolding try_reserve
try_reserve-covers adapter order seen redis key = elim (Bool-cases adapter.has_reservation) [
  | inr e ↦ rw e (omega arith)
  | inl e ↦ elim (Option-cases adapter.provider) [
    | inl absent ↦ rw (e, absent) (omega arith)
    | inr (provider, there) ↦ elim (Option-cases (provider seen)) [
      | inl uncapped ↦ rw (e, there, uncapped) (omega arith)
      | inr (m, capped) ↦ rw (e, there, capped) (reserve-covers adapter order seen m redis key)
    ]
  ]
]

release-covers :
    (adapter : Adapter) (order : Order) (claim : Claim) (key : Counter)
    → reserved_lots key
      ≤ reserved_lots (release_reservation adapter order claim up key) + held order claim
unfolding release_reservation release atomic_release
release-covers adapter order unguarded key = omega arith
release-covers adapter order (refused _) key = omega arith
release-covers adapter order (claimed _) key = ground arith

counted-stage_after :
    (order : Order) (claim : Claim)
    → counted (record { order = order; stage = stage_after claim }) ≡ held order claim
counted-stage_after order unguarded = refl
counted-stage_after order (refused _) = refl
counted-stage_after order (claimed _) = refl

-- What a step adds to the counter is at least what its task comes to have in it.
step-counted :
    (adapter : Adapter) (s s' : Shared) (t t' : Task)
    → Step adapter s t s' t'
    → reserved_lots s.key + counted t' ≤ reserved_lots s'.key + counted t
step-counted adapter s s' t t' (build _ order _) = omega arith
step-counted adapter s s' t t' (block _ order _) = omega arith
step-counted adapter s s' t t' (reserves _ order seen redis) = omega (
  arith,
  try_reserve-covers adapter order seen redis s.key,
  counted-stage_after order (try_reserve adapter order seen redis s.key).0,
)
step-counted adapter s s' t t' (fail _ order claim) = omega arith
step-counted adapter s s' t t' (tell _ order claim lots _) = omega arith
step-counted adapter s s' t t' (give_back _ order claim) =
    omega (arith, release-covers adapter order claim s.key)
step-counted adapter s s' t t' (drift _ order claim) = omega arith

-- A counter that a script wrote lives for less than its time to live, and is gone after it.
stored-lives :
    (scripts : Scripts) (lots seconds : ℕ)
    → seconds < scripts.ttl_seconds
    → reserved_lots (elapse seconds (stored scripts lots)) ≡ lots
unfolding elapse
stored-lives scripts lots seconds h = ground (arith, h)

stored-expires :
    (scripts : Scripts) (lots seconds : ℕ)
    → 0 < scripts.ttl_seconds
    → scripts.ttl_seconds ≤ seconds
    → elapse seconds (stored scripts lots) ≡ none
unfolding elapse
stored-expires scripts lots seconds h passed = ground (arith, h, passed)

-- The key does not expire while seconds pass.
abbrev pub IsAliveStep :
    {adapter : Adapter} {s s' : Shared} {ts ts' : List Task}
    → AccountStep adapter s ts s' ts'
    → Type 0
IsAliveStep (wait s _ seconds) = reserved_lots (elapse seconds s.key) ≡ reserved_lots s.key
IsAliveStep _ = Unit

abbrev pub IsAliveRun :
    {adapter : Adapter} {s : Shared} {ts : List Task} {s' : Shared} {ts' : List Task}
    → Run adapter s ts s' ts'
    → Type 0
IsAliveRun start = Unit
IsAliveRun (then_ _ _ _ _ run moved) = IsAliveRun run × IsAliveStep moved

pub AccountStep-counted :
    (adapter : Adapter) (s s' : Shared) (ts ts' : List Task)
    (moved : AccountStep adapter s ts s' ts')
    → IsAliveStep moved
    → total counted ts ≤ reserved_lots s.key
    → total counted ts' ≤ reserved_lots s'.key
AccountStep-counted adapter s s' ts ts' (step before after _ _ t t' moved) alive h = omega (
  arith,
  step-counted adapter s s' t t' moved,
  total-split counted before after t,
  total-split counted before after t',
  h,
)
AccountStep-counted adapter s s' ts ts' (close _ _ lots _) alive h = h
AccountStep-counted adapter s s' ts ts' (wait _ _ seconds) alive h = omega (arith, alive, h)

-- In every state that an account reaches from a state where the reservation counter covers the
-- claims of its calls, the counter still covers them, those of calls whose release failed
-- included, whether or not Redis answers and whatever the broker and the other calls do, if the
-- key does not expire while time passes.
pub run-counted :
    (adapter : Adapter) (s : Shared) (ts : List Task) (s' : Shared) (ts' : List Task)
    (run : Run adapter s ts s' ts')
    → IsAliveRun run
    → total counted ts ≤ reserved_lots s.key
    → total counted ts' ≤ reserved_lots s'.key
run-counted adapter s ts s' ts' start alive h = h
run-counted adapter s ts s' ts' (then_ mid _ tasks _ run moved) alive h =
    AccountStep-counted adapter mid s' tasks ts' moved alive.1
      (run-counted adapter s ts mid tasks run alive.0 h)
