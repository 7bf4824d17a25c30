-- ===== src/Circuit/Reachability.antt =====
-- Every circuit that the steps reach is safe.
use mathlib.Core.Path.{subst}
use ai_agent_platform.Circuit.{Options, Circuit, Ticket, create_circuit}
use ai_agent_platform.Circuit.Steps.{begin, refuse, finish, Reachable, created, next}
use ai_agent_platform.Circuit.Safety.{IsSafe}
use ai_agent_platform.Circuit.Admissions.{begin-IsSafe, refuse-IsSafe}
use ai_agent_platform.Circuit.Settlements.{finish-IsSafe}
use ai_agent_platform.Base.{
  is_positive_safe_integer, List, [], ◌≡◌, some, false, true, Bool, ◌&&◌, none, arith, refl,
  if◌then◌else◌,
}

create_circuit-IsSafe : (o : Options) (c : Circuit) → create_circuit o ≡ some c → IsSafe o c []
unfolding create_circuit
create_circuit-IsSafe o c h =
    branch
      (is_positive_safe_integer o.failure_threshold && is_positive_safe_integer o.reset_after_ms) h
  where
    same : {a b : Circuit} → some a ≡ some b → a ≡ b
    same e = cc

    initial : Circuit
    initial = record {
      last_monotonic_time = none;
      consecutive_failures = 0;
      opened_at = none;
      half_open = false;
      generation = 0;
    }

    initial-IsSafe : IsSafe o initial []
    initial-IsSafe = record {
      bounded = omega arith;
      half_open_opened = λ h. cc;
      not_newer = refl;
      current = λ h. cc;
      all_probes = λ h. refl;
      no_probe = λ h. refl;
    }

    branch : (b : Bool) → (if b then some initial else none) ≡ some c → IsSafe o c []
    branch true e = subst (λ d. IsSafe o d []) (same e) initial-IsSafe
    branch false e = cc

-- In every state that is reached, in whatever order the operations begin and settle and whatever
-- the clock reads: the count of failures is at most the threshold; half-open means opened; while
-- the circuit is opened, one half-open probe at most can still change it, and nothing can if it is
-- not half-open; while it is closed, no probe can.
pub Reachable-IsSafe :
    (o : Options) (c : Circuit) (pending : List Ticket) → Reachable o c pending → IsSafe o c pending
Reachable-IsSafe o c pending (created e) = create_circuit-IsSafe o c e
Reachable-IsSafe o c pending (next r (begin reading t e)) =
    begin-IsSafe reading _ t e (Reachable-IsSafe o _ _ r)
Reachable-IsSafe o c pending (next r (refuse reading e)) =
    refuse-IsSafe reading _ e (Reachable-IsSafe o _ _ r)
Reachable-IsSafe o c pending (next r (finish before t after x reading)) =
    finish-IsSafe before t after x reading (Reachable-IsSafe o _ _ r)
