-- ===== src/Circuit.antt =====
-- apps/web/src/server/assistant/agentos-execution-circuit.ts: the circuit breaker around the calls
-- of the agent service. Instants and durations are natural numbers of the clock's unit; a reading
-- that is not a finite non-negative number is `none`. A `Symbol` is the number of its creation.
mod Failures
mod Steps
mod Admissions
mod Reachability
mod Settlements
mod Safety
mod Recovery
mod Tests
use ai_agent_platform.Circuit.Failures.{Failure, counted_failure}
use ai_agent_platform.Base.{
  is_positive_safe_integer, ℕ, ◌+◌, suc, min, max, Bool, true, false, not, ◌&&◌, ◌||◌, Option, none,
  some, leb, ◌==◌, is_some, if◌then◌else◌,
}

pub record Options : Type 0 where
  pub failure_threshold : ℕ
  pub reset_after_ms : ℕ

pub record Circuit : Type 0 where
  pub last_monotonic_time : Option ℕ
  pub consecutive_failures : ℕ
  pub opened_at : Option ℕ
  pub half_open : Bool
  pub generation : ℕ

-- `createAgentOSExecutionCircuit` refuses options that are not positive.
unfoldable pub create_circuit : Options → Option Circuit
create_circuit o =
    if is_positive_safe_integer o.failure_threshold && is_positive_safe_integer o.reset_after_ms
    then some (record {
      last_monotonic_time = none;
      consecutive_failures = 0;
      opened_at = none;
      half_open = false;
      generation = 0;
    })
    else none

abbrev latest : Option ℕ → ℕ → ℕ
latest none value = value
latest (some last) value = max last value

-- The clock never goes back; `none` is the thrown `TypeError`.
unfoldable pub clock : Option ℕ → Circuit → Option (ℕ × Circuit)
clock none c = none
clock (some value) c =
    let time = latest c.last_monotonic_time value in
    some (time, record c { last_monotonic_time = some time })

-- What an admitted operation remembers until it settles.
pub record Ticket : Type 0 where
  pub generation : ℕ
  pub is_half_open_probe : Bool

pub data Admission : Type 0 where
  admitted : Ticket → Admission
  unavailable clock_failed : Admission

abbrev pub is_due : Options → Option ℕ → ℕ → Bool
is_due o none time = false
is_due o (some opened) time = leb (opened + o.reset_after_ms) time

abbrev pub admit_at : Options → ℕ → Circuit → Admission × Circuit
admit_at o time c =
    let probe = is_due o c.opened_at time in
    if is_some c.opened_at && (not probe || c.half_open)
    then (unavailable, c)
    else if probe
    then (
      admitted (record { generation = suc c.generation; is_half_open_probe = true }),
      record c { half_open = true; generation = suc c.generation },
    )
    else (admitted (record { generation = c.generation; is_half_open_probe = false }), c)

-- The part of `execute` before the operation is called.
unfoldable pub admit : Options → Option ℕ → Circuit → Admission × Circuit
unfolding clock
admit o reading c = elim (clock reading c) [
  | none ↦ (clock_failed, c)
  | some (time, d) ↦ admit_at o time d
]

pub data Settlement : Type 0 where
  fulfilled : Settlement
  rejected : Failure → Settlement

-- What the caller of `execute` gets: the result, the operation's error, the circuit's error, or the
-- clock's.
pub data Answer : Type 0 where
  result : Answer
  thrown : Failure → Answer
  execution_unavailable clock_error : Answer

unfoldable pub settle_fulfilled : Ticket → Circuit → Circuit
settle_fulfilled t c =
    if t.generation == c.generation
    then record c {
      consecutive_failures = 0;
      opened_at = none;
      half_open = false;
      generation = if t.is_half_open_probe then suc c.generation else c.generation;
    }
    else c

-- `consecutiveFailures = Math.min(failureThreshold, consecutiveFailures + 1)`.
abbrev pub failed_once : Options → Circuit → Circuit
failed_once o c = record c {
  consecutive_failures = min o.failure_threshold (c.consecutive_failures + 1);
}

-- `openedAt = clock(); generation = Symbol(...)`, after which a probe, and only a probe, resets
-- `halfOpen`; a clock that throws leaves the rest of the block out.
abbrev pub open_circuit : Bool → Option ℕ → Circuit → Answer × Circuit
open_circuit probe reading c = elim (clock reading c) [
  | none ↦ (clock_error, c)
  | some (time, d) ↦ (
    execution_unavailable,
    record d {
      opened_at = some time;
      half_open = if probe then false else d.half_open;
      generation = suc d.generation;
    },
  )
]

abbrev answer_of : Failure → Answer
answer_of e = if counted_failure e then execution_unavailable else thrown e

unfoldable pub settle_rejected : Options → Ticket → Failure → Option ℕ → Circuit → Answer × Circuit
settle_rejected o t e reading c =
    if not (t.generation == c.generation)
    then (answer_of e, c)
    else if t.is_half_open_probe
    then (if counted_failure e
        then open_circuit true reading (failed_once o c)
        else (answer_of e, record c { half_open = false }))
    else if counted_failure e
    then (if leb o.failure_threshold (failed_once o c).consecutive_failures
        then open_circuit false reading (failed_once o c)
        else (answer_of e, failed_once o c))
    else (answer_of e, c)

-- The part of `execute` after the operation has settled.
unfoldable pub settle : Options → Ticket → Settlement → Option ℕ → Circuit → Answer × Circuit
unfolding settle_fulfilled settle_rejected
settle o t fulfilled reading c = (result, settle_fulfilled t c)
settle o t (rejected e) reading c = settle_rejected o t e reading c

pub data State : Type 0 where
  closed opened half_opened : State

unfoldable pub inspect : Circuit → State × ℕ
inspect c = (
  if c.half_open then half_opened else if is_some c.opened_at then opened else closed,
  c.consecutive_failures,
)

abbrev pub resume : Options → Settlement → Option ℕ → Admission × Circuit → Answer × Circuit
resume o x reading (admitted t, c) = settle o t x reading c
resume o x reading (unavailable, c) = (execution_unavailable, c)
resume o x reading (clock_failed, c) = (clock_error, c)

-- One call of `execute` that nothing overtakes: `x` is how its operation settles, and `later` is
-- what the clock reads if it is asked again.
unfoldable pub execute : Options → Option ℕ → Settlement → Option ℕ → Circuit → Answer × Circuit
unfolding admit settle
execute o now x later c = resume o x later (admit o now c)
