-- ===== src/Readiness/Tests.antt =====
-- A run of the readiness circuit, and the theorem applied to it.
use ai_agent_platform.Readiness.{
  Options, Readiness, create_readiness, Snapshot, available, status, complete, clock,
  degraded_snapshot, resolved,
}
use ai_agent_platform.Readiness.Events.{asked, ended, Event, run, IsConsistent}
use ai_agent_platform.Readiness.Runs.{run-IsConsistent}
use ai_agent_platform.Readiness.Reading.{read_safe-IsReading, IsReading}
use ai_agent_platform.Readiness.Runtime.{
  read_safe_assistant_runtime_status, derive_assistant_runtime_status,
  normalize_assistant_runtime_status, resolve_provider, select_assistant_provider, agentos_mode,
  agentos_provider, RuntimeStatus, ProviderMode, available-resolves,
}
use ai_agent_platform.Circuit.{State, closed, opened}
use ai_agent_platform.Base.{ok, true, false, ◌≡◌, refl, none, some, List, [], ◌∷◌}

abbrev options : Options
options = record { cache_ttl_ms = 10; failure_threshold = 2; reset_after_ms = 100 }

abbrev ready_snapshot : Snapshot
ready_snapshot = record { live = true; ready = true; capability = available }

abbrev new_readiness : Readiness
new_readiness = record {
  cache = none;
  in_flight = none;
  consecutive_failures = 0;
  opened_at = none;
  half_open = false;
  last_monotonic_time = none;
}

-- Two failed probes open the circuit, and it answers degraded without a probe.
abbrev failing : List Event
failing = asked (some 1) ∷ ended none (some 2) ∷ asked (some 20) ∷ ended none (some 21) ∷ []

opened-degraded :
    (status options (some 50) (run options failing new_readiness)).0 ≡ resolved degraded_snapshot
unfolding run status complete clock
opened-degraded = refl

run-IsConsistent_example : IsConsistent options (run options failing new_readiness)
unfolding create_readiness
run-IsConsistent_example = run-IsConsistent options failing new_readiness refl

-- The agent service is ready but not live: such a status is not passed on.
abbrev stale_status : RuntimeStatus
stale_status = record {
  snapshot = record { live = false; ready = true; capability = available };
  message = "ready";
}

read_safe-IsReading_example :
    IsReading (some stale_status) (read_safe_assistant_runtime_status (some stale_status))
    × ((s : Snapshot) (mode : ProviderMode) (state : State)
        → some stale_status ≡ some (derive_assistant_runtime_status s mode state)
        → read_safe_assistant_runtime_status (some stale_status)
          ≡ derive_assistant_runtime_status s mode state)
read_safe-IsReading_example = read_safe-IsReading (some stale_status)

available-resolves_example :
    resolve_provider agentos_mode ready_snapshot closed ≡ ok agentos_provider
unfolding derive_assistant_runtime_status normalize_assistant_runtime_status
available-resolves_example = available-resolves ready_snapshot closed refl

-- An opened execution circuit degrades the status but still lets a provider be resolved, whose
-- calls then probe the circuit.
opened-resolves : resolve_provider agentos_mode ready_snapshot opened ≡ ok agentos_provider
unfolding resolve_provider select_assistant_provider
opened-resolves = refl
