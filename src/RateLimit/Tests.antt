-- ===== src/RateLimit/Tests.antt =====
-- Requests to the limiters, and the theorems applied to them.
use ai_agent_platform.RateLimit.Counter.{Row, cleanup, upsert}
use ai_agent_platform.RateLimit.Assistant.{
  Limiter, anonymous_global, actor_input, customer, default_quotas, direct_global_quota,
  assistant_rate_limit_key, key_for_input, consume, consume_tx, check_count, exceeded,
}
use ai_agent_platform.RateLimit.Auth.{
  AuthLimiter, AuthInput, login, auth_consume, consume_keys, rate_limited,
}
use ai_agent_platform.RateLimit.Quotas.{Request, admissions, admissions-bounded}
use ai_agent_platform.Identity.{workforce}
use ai_agent_platform.Base.{
  ℕ, ◌+◌, ◌≤◌, String, false, ◌≡◌, refl, List, [], ◌∷◌, some, err, ◌>>=◌, arith,
}

abbrev limiter : Limiter
limiter = record { hmac = λ secret message. message; secret = "s"; quotas = default_quotas }

abbrev global_key : String
global_key =
    "assistant:anonymous:global:ai-agent-platform:assistant-rate-limit-key:v1\0anonymous\0global\0direct"

-- The direct requests, of which three have been made since the instant 1000.
abbrev rows : List Row
rows = record { id = 1; key = global_key; count = 3; last_request = 1000 } ∷ []

abbrev direct : ℕ → Request
direct now = record { locked = λ row. false; fresh = now; now = now; input = anonymous_global }

abbrev customer_at : ℕ → Request
customer_at now = record {
  locked = λ row. false;
  fresh = now;
  now = now;
  input = actor_input customer "c1";
}

abbrev requests : List Request
requests = direct 2000 ∷ customer_at 2500 ∷ direct 3000 ∷ direct 4000 ∷ customer_at 4500 ∷ []

two-admitted : admissions limiter global_key requests rows ≡ 2
unfolding admissions consume consume_tx check_count cleanup upsert key_for_input
    assistant_rate_limit_key ◌>>=◌
two-admitted = refl

-- The sixth direct request is told to come back when the window is over.
sixth-refused :
    (consume limiter
      (λ row. false)
      9
      4000
      anonymous_global
      (record { id = 1; key = global_key; count = 5; last_request = 1000 } ∷ [])).0
    ≡ err (exceeded 57)
unfolding consume consume_tx check_count cleanup upsert key_for_input assistant_rate_limit_key ◌>>=◌
sixth-refused = refl

admissions-bounded_example :
    3 + admissions limiter global_key requests rows ≤ direct_global_quota.maximum_attempts
unfolding key_for_input assistant_rate_limit_key
admissions-bounded_example =
    admissions-bounded limiter global_key direct_global_quota 1000 (omega arith) requests 3 rows
      (record {
        row = record { id = 1; key = global_key; count = 3; last_request = 1000 };
        stored = refl;
        began = refl;
        counted = refl;
      })
      (omega arith)
      (
        (omega arith, λ _. refl),
        (
          (omega arith, λ h. cc),
          ((omega arith, λ _. refl), ((omega arith, λ _. refl), ((omega arith, λ h. cc), tt))),
        ),
      )

abbrev auth_limiter : AuthLimiter
auth_limiter = record {
  hmac = λ secret message. message;
  normalize = λ s. s;
  secret = "s";
  maximum_attempts = 1;
  window_ms = 900000;
}

abbrev sign_in : AuthInput
sign_in = record { realm = workforce; operation = login; identifier = "a"; ip_address = some "::1" }

second_sign_in-refused :
    (auth_consume auth_limiter
      (λ row. false)
      (λ n. n)
      5
      sign_in
      (auth_consume auth_limiter (λ row. false) (λ n. n) 4 sign_in []).1).0
    ≡ err rate_limited
unfolding auth_consume consume_keys cleanup upsert ◌>>=◌
second_sign_in-refused = refl
