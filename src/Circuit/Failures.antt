-- ===== src/Circuit/Failures.antt =====
-- apps/web/src/server/assistant/agentos-execution-circuit.ts: the errors that count as failures of
-- the service. An error of another class than the client's is `other_error`.
use ai_agent_platform.Base.{
  String, Bool, true, false, not, Option, none, some, List, [], ◌∷◌, any, str_eq,
}

pub data ErrorCode : Type 0 where
  timeout transport_error redirect_rejected authentication not_found server_error : ErrorCode
  unexpected_status invalid_content_type invalid_response response_too_large : ErrorCode
  external_abort invalid_request rate_limited other_client_error : ErrorCode

pub data Failure : Type 0 where
  run_client_error : ErrorCode → Option String → Failure
  other_error : String → Failure

abbrev uncounted_diagnostics : List String
uncounted_diagnostics =
    "run_cancelled_event" ∷ "run_error_event" ∷ "stream_content_too_large" ∷ "stream_empty_content"
    ∷ []

abbrev diagnostic_text : Option String → String
diagnostic_text none = ""
diagnostic_text (some text) = text

abbrev counted_code : ErrorCode → Option String → Bool
counted_code timeout d = true
counted_code transport_error d = true
counted_code redirect_rejected d = true
counted_code authentication d = true
counted_code not_found d = true
counted_code server_error d = true
counted_code unexpected_status d = true
counted_code invalid_content_type d = true
counted_code invalid_response d = not (any (str_eq (diagnostic_text d)) uncounted_diagnostics)
counted_code response_too_large d = false
counted_code external_abort d = false
counted_code invalid_request d = false
counted_code rate_limited d = false
counted_code other_client_error d = false

unfoldable pub counted_failure : Failure → Bool
counted_failure (run_client_error code diagnostic) = counted_code code diagnostic
counted_failure (other_error message) = false
