-- ===== src/Circuit/Tests.antt =====
-- Runs of the circuit, and the theorems applied to them.
use ai_agent_platform.Circuit.{
  Options, Circuit, Ticket, create_circuit, clock, admit, fulfilled, rejected, inspect, closed,
  opened, result, settle, execute,
}
use ai_agent_platform.Circuit.Failures.{
  Failure, counted_failure, run_client_error, timeout, rate_limited,
}
use ai_agent_platform.Circuit.Steps.{begin, finish, Reachable, created, next}
use ai_agent_platform.Circuit.Safety.{IsSafe}
use ai_agent_platform.Circuit.Reachability.{Reachable-IsSafe}
use ai_agent_platform.Circuit.Recovery.{run_failures, run_failures-inspect, execute-recovers}
use ai_agent_platform.Base.{[], ◌∷◌, ◌≡◌, refl, some, none, false}

abbrev options : Options
options = record { failure_threshold = 2; reset_after_ms = 100 }

abbrev new_circuit : Circuit
new_circuit = record {
  last_monotonic_time = none;
  consecutive_failures = 0;
  opened_at = none;
  half_open = false;
  generation = 0;
}

abbrev timed_out : Failure
timed_out = run_client_error timeout none

new_circuit-created : create_circuit options ≡ some new_circuit
unfolding create_circuit
new_circuit-created = refl

abbrev opened_circuit : Circuit
opened_circuit = record {
  last_monotonic_time = some 40;
  consecutive_failures = 2;
  opened_at = some 40;
  half_open = false;
  generation = 1;
}

-- A rate limit is not counted.
rate_limited-uncounted :
    inspect
      (execute options (some 5) (rejected (run_client_error rate_limited none)) none new_circuit).1
    ≡ (closed, 0)
unfolding execute admit settle clock counted_failure inspect
rate_limited-uncounted = refl

abbrev first_ticket : Ticket
first_ticket = record { generation = 0; is_half_open_probe = false }

-- Two calls in flight, of which the one begun first fails.
two_calls :
    Reachable options
      (settle options first_ticket
        (rejected timed_out)
        none
        (admit options (some 7) (admit options (some 5) new_circuit).1).1).1
      (first_ticket ∷ [])
unfolding admit clock
two_calls =
    next
      (next (next (created new_circuit-created) (begin (some 5) first_ticket refl))
        (begin (some 7) first_ticket refl))
      (finish (first_ticket ∷ []) first_ticket [] (rejected timed_out) none)

Reachable-IsSafe_example :
    IsSafe options
      (settle options first_ticket
        (rejected timed_out)
        none
        (admit options (some 7) (admit options (some 5) new_circuit).1).1).1
      (first_ticket ∷ [])
Reachable-IsSafe_example = Reachable-IsSafe options _ _ two_calls

run_failures-inspect_example :
    inspect (run_failures options timed_out ((5, 20) ∷ (30, 40) ∷ (50, 60) ∷ []) new_circuit)
    ≡ (opened, 2)
unfolding counted_failure
run_failures-inspect_example =
    run_failures-inspect options timed_out ((5, 20) ∷ (30, 40) ∷ (50, 60) ∷ []) new_circuit refl
      new_circuit-created

execute-recovers_example :
    ((execute options (some 150) fulfilled none opened_circuit).0 ≡ result)
    × (inspect (execute options (some 150) fulfilled none opened_circuit).1 ≡ (closed, 0))
unfolding clock
execute-recovers_example = execute-recovers options opened_circuit 40 150 150 _ none refl refl refl
