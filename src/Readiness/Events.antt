-- ===== src/Readiness/Events.antt =====
-- Requests for the status and ends of probes, in any order, and the consistency of the circuit.
use ai_agent_platform.Readiness.{Options, Readiness, Snapshot, Cache, status, complete, is_snapshot}
use ai_agent_platform.Base.{
  not, ℕ, ◌≤◌, Bool, true, ◌≡◌, Option, none, some, List, [], ◌∷◌, leb, is_some, if◌then◌else◌,
}

pub data Event : Type 0 where
  asked : Option ℕ → Event
  ended : Option Snapshot → Option ℕ → Event

-- A probe ends if one is in flight.
abbrev pub end_probe : Options → Option Snapshot → Option ℕ → Option Bool → Readiness → Readiness
end_probe o result reading none c = c
end_probe o result reading (some is_half_open) c = complete o result is_half_open reading c

unfoldable pub run : Options → List Event → Readiness → Readiness
run o [] c = c
run o (asked reading ∷ events) c = run o events (status o reading c).1
run o (ended result reading ∷ events) c = run o events (end_probe o result reading c.in_flight c)

abbrev pub is_valid : Option Cache → Bool
is_valid none = true
is_valid (some cache) = is_snapshot cache.value

abbrev pub matches : Option Bool → Bool → Bool
matches none is_opened = true
matches (some is_half_open) is_opened = if is_half_open then is_opened else not is_opened

-- The circuit is opened exactly when the failures have reached the threshold, which they never
-- exceed; half-open means opened; a half-open probe is in flight only of an opened circuit, another
-- only of a closed one; and what is cached is a snapshot.
pub record IsConsistent (o : Options) (c : Readiness) : Type 0 where
  pub bounded : c.consecutive_failures ≤ o.failure_threshold
  pub threshold : is_some c.opened_at ≡ leb o.failure_threshold c.consecutive_failures
  pub half_open_opened : c.half_open ≡ true → is_some c.opened_at ≡ true
  pub probe_matches : matches c.in_flight (is_some c.opened_at) ≡ true
  pub valid : is_valid c.cache ≡ true
