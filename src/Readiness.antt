-- ===== src/Readiness.antt =====
-- apps/web/src/server/assistant/agentos-readiness.ts: the cached readiness of the agent service.
-- Instants and durations are natural numbers of the clock's unit; a reading that is not a finite
-- non-negative number is `none`. A probe that throws, or answers with another value than a
-- snapshot's record, is `none`.
mod Events
mod Runs
mod Runtime
mod Reading
mod Tests
use ai_agent_platform.Base.{
  is_positive_safe_integer, ◌||◌, ℕ, ◌+◌, min, max, Bool, true, false, not, ◌&&◌, Option, none,
  some, leb, ltb, is_some, if◌then◌else◌,
}

pub data Capability : Type 0 where
  placeholder available degraded : Capability

pub record Snapshot : Type 0 where
  pub live : Bool
  pub ready : Bool
  pub capability : Capability

abbrev pub degraded_snapshot : Snapshot
degraded_snapshot = record { live = false; ready = false; capability = degraded }

abbrev pub is_degraded : Capability → Bool
is_degraded degraded = true
is_degraded _ = false

-- What `isSnapshot` wants of a record of the right fields.
abbrev pub is_snapshot : Snapshot → Bool
is_snapshot s =
    if s.ready then s.live && not (is_degraded s.capability) else is_degraded s.capability

-- What `client.ready()` answers.
pub record Ready : Type 0 where
  pub ready : Bool
  pub capability : Capability

abbrev alive : Option Bool → Bool
alive none = false
alive (some live) = live

abbrev of_ready : Option Ready → Snapshot
of_ready none = record { live = true; ready = false; capability = degraded }
of_ready (some r) =
    if not r.ready || is_degraded r.capability
    then record { live = true; ready = false; capability = degraded }
    else record { live = true; ready = true; capability = r.capability }

-- `createAgentOSProbe`: the answers of `live` and `ready`, `none` where they are rejected.
unfoldable pub probe : Option Bool → Option Ready → Snapshot
probe live ready = if alive live then of_ready ready else degraded_snapshot

pub record Options : Type 0 where
  pub cache_ttl_ms : ℕ
  pub failure_threshold : ℕ
  pub reset_after_ms : ℕ

pub record Cache : Type 0 where
  pub value : Snapshot
  pub expires_at : ℕ

-- `in_flight` is the argument of `startProbe` for the probe that has not completed.
pub record Readiness : Type 0 where
  pub cache : Option Cache
  pub in_flight : Option Bool
  pub consecutive_failures : ℕ
  pub opened_at : Option ℕ
  pub half_open : Bool
  pub last_monotonic_time : Option ℕ

unfoldable pub create_readiness : Options → Option Readiness
create_readiness o =
    if is_positive_safe_integer o.cache_ttl_ms
      && is_positive_safe_integer o.failure_threshold
      && is_positive_safe_integer o.reset_after_ms
    then some (record {
      cache = none;
      in_flight = none;
      consecutive_failures = 0;
      opened_at = none;
      half_open = false;
      last_monotonic_time = none;
    })
    else none

abbrev latest : Option ℕ → ℕ → ℕ
latest none value = value
latest (some last) value = max last value

unfoldable pub clock : Option ℕ → Readiness → Option (ℕ × Readiness)
clock none c = none
clock (some value) c =
    let time = latest c.last_monotonic_time value in
    some (time, record c { last_monotonic_time = some time })

-- What `status` gives: a snapshot at once, the promise of the probe in flight, or the clock's error.
pub data Status : Type 0 where
  resolved : Snapshot → Status
  probing clock_failed : Status

-- `inFlight ?? startProbe(isHalfOpen)`.
abbrev pub join_probe : Bool → Readiness → Status × Readiness
join_probe is_half_open c =
    if is_some c.in_flight
    then (probing, c)
    else (probing, record c { half_open = is_half_open; in_flight = some is_half_open })

abbrev pub fresh_value : ℕ → Option Cache → Option Snapshot
fresh_value time none = none
fresh_value time (some cache) = if ltb time cache.expires_at then some cache.value else none

abbrev pub cached : Option Snapshot → Readiness → Status × Readiness
cached (some s) c = (resolved s, c)
cached none c = join_probe false c

abbrev pub status_at : Options → ℕ → Option ℕ → Readiness → Status × Readiness
status_at o time none c = cached (fresh_value time c.cache) c
status_at o time (some opened) c =
    if ltb time (opened + o.reset_after_ms)
    then (resolved degraded_snapshot, c)
    else join_probe true c

unfoldable pub status : Options → Option ℕ → Readiness → Status × Readiness
unfolding clock
status o reading c = elim (clock reading c) [
  | none ↦ (clock_failed, c)
  | some (time, d) ↦ status_at o time d.opened_at d
]

abbrev pub snapshot_of : Option Snapshot → Snapshot
snapshot_of none = degraded_snapshot
snapshot_of (some s) = if is_snapshot s then s else degraded_snapshot

abbrev pub completed_at : Options → ℕ → Snapshot → Bool → Readiness → Readiness
completed_at o time s is_half_open c =
    let failures = min o.failure_threshold (c.consecutive_failures + 1) in
    if s.live && s.ready
    then record c {
      cache = some (record { value = s; expires_at = time + o.cache_ttl_ms });
      in_flight = none;
      consecutive_failures = 0;
      opened_at = none;
      half_open = false;
    }
    else record c {
      cache = some (record { value = s; expires_at = time + o.cache_ttl_ms });
      in_flight = none;
      consecutive_failures = failures;
      opened_at =
          if is_half_open || leb o.failure_threshold failures then some time else c.opened_at;
      half_open = false;
    }

-- The end of the probe in flight, which rejects with the clock's error if the clock fails.
unfoldable pub complete : Options → Option Snapshot → Bool → Option ℕ → Readiness → Readiness
unfolding clock
complete o result is_half_open reading c = elim (clock reading c) [
  | none ↦ record c { in_flight = none }
  | some (time, d) ↦ completed_at o time (snapshot_of result) is_half_open d
]
