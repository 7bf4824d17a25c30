-- ===== src/Circuit/Steps.antt =====
-- The circuit with the operations in flight, and the steps it takes.
use ai_agent_platform.Base.{◌≢◌, ℕ, ◌≡◌, Option, some, List, [], ◌∷◌, ◌++◌}
use ai_agent_platform.Circuit.{
  Options, Circuit, Ticket, admitted, Settlement, create_circuit, admit, settle,
}

-- Operations settle in any order, each once; the clock reads what it reads.
pub data Step (o : Options) : Circuit → List Ticket → Circuit → List Ticket → Type 0 where
  begin :
      {c : Circuit} {pending : List Ticket} (reading : Option ℕ) (t : Ticket)
      → (admit o reading c).0 ≡ admitted t
      → Step o c pending (admit o reading c).1 (t ∷ pending)
  refuse :
      {c : Circuit} {pending : List Ticket} (reading : Option ℕ)
      → ((t : Ticket) → (admit o reading c).0 ≢ admitted t)
      → Step o c pending (admit o reading c).1 pending
  finish :
      {c : Circuit} (before : List Ticket) (t : Ticket) (after : List Ticket)
      (settlement : Settlement) (reading : Option ℕ)
      → Step o c (before ++ t ∷ after) (settle o t settlement reading c).1 (before ++ after)

pub data Reachable (o : Options) : Circuit → List Ticket → Type 0 where
  created : {c : Circuit} → create_circuit o ≡ some c → Reachable o c []
  next :
      {c d : Circuit} {pending rest : List Ticket}
      → Reachable o c pending
      → Step o c pending d rest
      → Reachable o d rest
