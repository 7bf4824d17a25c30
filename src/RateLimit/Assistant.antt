-- ===== src/RateLimit/Assistant.antt =====
-- apps/web/src/server/assistant/assistant-rate-limit.ts: the assistant's limiter. `hmac` is the
-- digest, in hexadecimal, of a text under the secret. The driver's answers are numbers.
use Prim.Native.String.{◌++◌ as text_append, len}
use ai_agent_platform.Base.{
  is_positive_safe_integer, ℕ, ◌+◌, ◌-◌, ◌/◌, String, Bool, not, ◌&&◌, Option, none, some, List, [],
  ◌∷◌, ltb, leb, if◌then◌else◌, Tx, ok, err, Result, max, ◌>>=◌, ◌>>◌, throw_if, transaction,
}
use ai_agent_platform.RateLimit.Counter.{Row, retention_ms, cleanup, upsert}

pub data Scope : Type 0 where
  anonymous customer admin_test admin_key_reveal : Scope

pub data Input : Type 0 where
  anonymous_ip : String → Input
  anonymous_global : Input
  actor_input : Scope → String → Input

pub record Quota : Type 0 where
  pub maximum_attempts : ℕ
  pub window_ms : ℕ

abbrev pub default_quotas : Scope → Quota
default_quotas anonymous = record { maximum_attempts = 20; window_ms = 60000 }
default_quotas customer = record { maximum_attempts = 60; window_ms = 60000 }
default_quotas admin_test = record { maximum_attempts = 20; window_ms = 60000 }
default_quotas admin_key_reveal = record { maximum_attempts = 5; window_ms = 600000 }

abbrev pub direct_global_quota : Quota
direct_global_quota = record { maximum_attempts = 5; window_ms = 60000 }

abbrev pub is_quota : Quota → Bool
is_quota quota =
    is_positive_safe_integer quota.maximum_attempts && is_positive_safe_integer quota.window_ms

abbrev scope_name : Scope → String
scope_name anonymous = "anonymous"
scope_name customer = "customer"
scope_name admin_test = "admin-test"
scope_name admin_key_reveal = "admin-key-reveal"

pub record Limiter : Type 0 where
  pub hmac : String → String → String
  pub secret : String
  pub quotas : Scope → Quota

-- `createDatabaseAssistantRateLimiter`: a secret of 32 bytes at least, and positive quotas.
unfoldable pub create_limiter :
    (String → String → String) → Option String → (Scope → Quota) → Option Limiter
create_limiter hmac none quotas = none
create_limiter hmac (some secret) quotas =
    if leb 32 (len secret)
      && is_quota (quotas anonymous)
      && is_quota (quotas customer)
      && is_quota (quotas admin_test)
      && is_quota (quotas admin_key_reveal)
    then some (record { hmac = hmac; secret = secret; quotas = quotas })
    else none

abbrev separated : List String → String
separated [] = ""
separated (s ∷ []) = s
separated (s ∷ t ∷ rest) = text_append s (text_append "\0" (separated (t ∷ rest)))

unfoldable pub assistant_rate_limit_key : Limiter → Scope → String → String → String
assistant_rate_limit_key limiter scope kind value =
    let digest = limiter.hmac limiter.secret (
      separated
        ("ai-agent-platform:assistant-rate-limit-key:v1" ∷ scope_name scope ∷ kind ∷ value ∷ [])) in
    text_append "assistant:"
      (text_append (scope_name scope) (text_append ":" (text_append kind (text_append ":" digest))))

unfoldable pub key_for_input : Limiter → Input → String
unfolding assistant_rate_limit_key
key_for_input limiter (anonymous_ip address) =
    assistant_rate_limit_key limiter anonymous "ip" address
key_for_input limiter anonymous_global =
    assistant_rate_limit_key limiter anonymous "global" "direct"
key_for_input limiter (actor_input scope actor_id) =
    assistant_rate_limit_key limiter scope "actor" actor_id

abbrev pub quota_for_input : Limiter → Input → Quota
quota_for_input limiter (anonymous_ip address) = limiter.quotas anonymous
quota_for_input limiter anonymous_global = direct_global_quota
quota_for_input limiter (actor_input scope actor_id) = limiter.quotas scope

-- `exceeded` has the seconds after which to try again; `invalid_result` is caught in `consume`.
pub data Failure : Type 0 where
  exceeded : ℕ → Failure
  invalid_result unavailable clock_invalid : Failure

-- `Number.isSafeInteger`.
abbrev pub is_safe : ℕ → Bool
is_safe n = ltb n 9007199254740992

-- `Math.max(1, Math.ceil((firstRequest + windowMs - now) / 1000))`.
abbrev pub retry_after : Quota → ℕ → ℕ → ℕ
retry_after quota first now = max 1 ((first + quota.window_ms - now + 999) / 1000)

-- `lastRequest <= now - windowMs`.
abbrev pub window_over : Quota → ℕ → ℕ → Bool
window_over quota now first = leb (first + quota.window_ms) now

unfoldable pub check_count : Quota → ℕ → Row → Tx (List Row) Failure (Unit {0})
check_count quota now row = do
  throw_if (not (leb 1 row.count && is_safe row.count && is_safe row.last_request)) invalid_result
  throw_if (ltb quota.maximum_attempts row.count)
      (exceeded (retry_after quota row.last_request now))

unfoldable pub consume_tx : (Row → Bool) → ℕ → ℕ → String → Quota → Tx (List Row) Failure (Unit {0})
unfolding check_count
consume_tx locked fresh now key quota = do
  cleanup "assistant:" locked now (max retention_ms quota.window_ms)
  row ← upsert (window_over quota now) fresh now key
  check_count quota now row

-- An error other than the limit's is reported as the limiter's unavailability.
abbrev rethrown : Failure → Failure
rethrown (exceeded seconds) = exceeded seconds
rethrown _ = unavailable

abbrev pub caught : Result Failure (Unit {0}) × List Row → Result Failure (Unit {0}) × List Row
caught (ok u, rows) = (ok u, rows)
caught (err e, rows) = (err (rethrown e), rows)

-- The clock reads `now`; `locked` are the rows that other transactions hold.
unfoldable pub consume :
    Limiter → (Row → Bool) → ℕ → ℕ → Input → List Row → Result Failure (Unit {0}) × List Row
unfolding consume_tx
consume limiter locked fresh now input rows =
    if not (is_safe now)
    then (err clock_invalid, rows)
    else caught (
        transaction
          (consume_tx locked fresh now (key_for_input limiter input)
            (quota_for_input limiter input))
          rows)
