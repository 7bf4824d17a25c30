-- ===== src/RateLimit/Auth.antt =====
-- apps/web/src/server/auth/rate-limit.ts: the limiter of sign-in and recovery. `hmac` is the digest,
-- in hexadecimal, of a text under the secret; `normalize` is the Unicode normalization, trimming
-- and lowering of an identifier.
use Prim.Native.String.{◌++◌ as text_append}
use ai_agent_platform.Base.{
  suc, ℕ, ◌+◌, String, Bool, Option, none, some, List, [], ◌∷◌, ltb, if◌then◌else◌, str_eq, Tx,
  Result, max, ◌>>=◌, ◌>>◌, return, throw_if, transaction,
}
use ai_agent_platform.Identity.{Realm, customer, workforce}
use ai_agent_platform.RateLimit.Counter.{Row, retention_ms, cleanup, upsert}

pub data Operation : Type 0 where
  login recovery : Operation

pub record AuthInput : Type 0 where
  pub realm : Realm
  pub operation : Operation
  pub identifier : String
  pub ip_address : Option String

pub record AuthLimiter : Type 0 where
  pub hmac : String → String → String
  pub normalize : String → String
  pub secret : String
  pub maximum_attempts : ℕ
  pub window_ms : ℕ

abbrev or_else : ℕ → Option ℕ → ℕ
or_else n none = n
or_else n (some m) = m

-- `createDatabaseAuthRateLimiter`: the secret has 32 UTF-16 units at least, which `units` counts.
unfoldable pub create_auth_limiter :
    (String → ℕ)
    → (String → String → String)
    → (String → String)
    → Option String
    → Option ℕ
    → Option ℕ
    → Option AuthLimiter
create_auth_limiter units hmac normalize none maximum window = none
create_auth_limiter units hmac normalize (some secret) maximum window =
    if ltb (units secret) 32
    then none
    else some (record {
      hmac = hmac;
      normalize = normalize;
      secret = secret;
      maximum_attempts = or_else 5 maximum;
      window_ms = or_else 900000 window;
    })

pub data AuthFailure : Type 0 where
  rate_limited : AuthFailure

abbrev realm_name : Realm → String
realm_name customer = "customer"
realm_name workforce = "workforce"

abbrev operation_name : Operation → String
operation_name login = "login"
operation_name recovery = "recovery"

abbrev pub auth_rate_limit_key : AuthLimiter → AuthInput → String → String → String
auth_rate_limit_key limiter input kind value = text_append "auth:" (
    text_append (realm_name input.realm) (
      text_append ":" (
        text_append (operation_name input.operation) (
          text_append ":"
            (text_append kind (text_append ":" (limiter.hmac limiter.secret value)))))))

abbrev ip_keys : AuthLimiter → AuthInput → Option String → List String
ip_keys limiter input none = []
ip_keys limiter input (some address) =
    if str_eq address "" then [] else auth_rate_limit_key limiter input "ip" address ∷ []

abbrev pub auth_keys : AuthLimiter → AuthInput → List String
auth_keys limiter input =
    auth_rate_limit_key limiter input "identifier" (limiter.normalize input.identifier)
    ∷ ip_keys limiter input input.ip_address

-- `lastRequest < now - windowMs`.
abbrev pub auth_window_over : AuthLimiter → ℕ → ℕ → Bool
auth_window_over limiter now first = ltb (first + limiter.window_ms) now

-- `fresh` are the ids of the rows that are new.
unfoldable pub consume_keys :
    AuthLimiter → (ℕ → ℕ) → ℕ → List String → Tx (List Row) AuthFailure (Unit {0})
consume_keys limiter fresh now [] = return tt
consume_keys limiter fresh now (key ∷ keys) = do
  row ← upsert (auth_window_over limiter now) (fresh 0) now key
  throw_if (ltb limiter.maximum_attempts row.count) rate_limited
  consume_keys limiter (λ n. fresh (suc n)) now keys

unfoldable pub auth_consume :
    AuthLimiter
    → (Row → Bool)
    → (ℕ → ℕ)
    → ℕ
    → AuthInput
    → List Row
    → Result AuthFailure (Unit {0}) × List Row
unfolding consume_keys
auth_consume limiter locked fresh now input = transaction (do
  cleanup "auth:" locked now (max retention_ms limiter.window_ms)
  consume_keys limiter fresh now (auth_keys limiter input))
