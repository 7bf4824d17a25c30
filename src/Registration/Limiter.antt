-- ===== src/Registration/Limiter.antt =====
-- apps/web/src/server/registration/repository.ts: `createDatabaseRegistrationRateLimiter`, over the
-- table of `RateLimit.Counter`. `sha256` is the digest of a text in hexadecimal.
use Prim.Native.String.{◌++◌ as text_append}
use ai_agent_platform.Base.{
  suc, ℕ, ◌+◌, String, Bool, Option, none, some, List, [], ◌∷◌, ltb, max, Tx, Result, ◌>>=◌, ◌>>◌,
  return, throw_if, transaction,
}
use ai_agent_platform.RateLimit.Counter.{Row, retention_ms, cleanup, upsert}
use ai_agent_platform.Registration.Model.{Failure, refused, rate_limited}

pub record RegistrationLimiter : Type 0 where
  pub sha256 : String → String
  pub maximum_attempts : ℕ
  pub window_ms : ℕ

abbrev or_else : ℕ → Option ℕ → ℕ
or_else n none = n
or_else n (some m) = m

unfoldable pub create_registration_limiter :
    (String → String) → Option ℕ → Option ℕ → RegistrationLimiter
create_registration_limiter sha256 maximum window = record {
  sha256 = sha256;
  maximum_attempts = or_else 5 maximum;
  window_ms = or_else 900000 window;
}

abbrev pub limiter_key : RegistrationLimiter → String → String → String
limiter_key limiter kind value =
    text_append "registration:" (text_append kind (text_append ":" (limiter.sha256 value)))

abbrev ip_keys : RegistrationLimiter → Option String → List String
ip_keys limiter none = []
ip_keys limiter (some ip) = limiter_key limiter "ip" ip ∷ []

-- An empty address is none.
abbrev pub registration_keys : RegistrationLimiter → String → Option String → List String
registration_keys limiter identifier ip_address =
    limiter_key limiter "identifier" identifier ∷ ip_keys limiter ip_address

-- `lastRequest < now - windowMs`.
abbrev window_over : RegistrationLimiter → ℕ → ℕ → Bool
window_over limiter now last = ltb (last + limiter.window_ms) now

-- The keys in their order; the rows that are new have the ids from `fresh` on.
unfoldable pub count_keys :
    RegistrationLimiter → ℕ → ℕ → List String → Tx (List Row) Failure (Unit {0})
count_keys limiter fresh now [] = return tt
count_keys limiter fresh now (key ∷ rest) = do
  row ← upsert (window_over limiter now) fresh now key
  throw_if (ltb limiter.maximum_attempts row.count) (refused rate_limited)
  count_keys limiter (suc fresh) now rest

-- `locked` are the rows that other transactions hold.
unfoldable pub consume :
    RegistrationLimiter
    → (Row → Bool)
    → ℕ
    → ℕ
    → String
    → Option String
    → List Row
    → Result Failure (Unit {0}) × List Row
unfolding count_keys
consume limiter locked fresh now identifier ip_address = transaction (do
  cleanup "registration:" locked now (max retention_ms limiter.window_ms)
  count_keys limiter fresh now (registration_keys limiter identifier ip_address))
