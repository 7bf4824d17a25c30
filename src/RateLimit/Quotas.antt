-- ===== src/RateLimit/Quotas.antt =====
-- What any sequence of requests to the assistant's limiter may do within a window.
use mathlib.Core.Path.{subst}
use ai_agent_platform.RateLimit.Counter.{Row, retention_ms}
use ai_agent_platform.RateLimit.Assistant.{
  Quota, Limiter, Input, Failure, consume_tx, is_safe, caught, consume, key_for_input,
  quota_for_input, clock_invalid,
}
use ai_agent_platform.RateLimit.Windows.{IsCounting, admitted, consume_tx-IsCounting}
use ai_agent_platform.Base.{
  ◌∙◌, sym, ℕ, ◌+◌, ◌≤◌, ◌<◌, String, Bool, true, false, not, ◌&&◌, ◌≡◌, refl, ap, List, ◌∷◌, [],
  str_eq, arith, ok, err, Result, if◌then◌else◌, All, commit,
}

-- A request with the rows that others have locked, the id of a new row and the clock's reading.
pub record Request : Type 0 where
  pub locked : Row → Bool
  pub fresh : ℕ
  pub now : ℕ
  pub input : Input

-- A request within the window of a key; those of the key have the quota.
abbrev pub IsWithin : Limiter → String → Quota → ℕ → Request → Type 0
IsWithin limiter key quota first r =
    (r.now < first + quota.window_ms)
    × (str_eq key (key_for_input limiter r.input) ≡ true → quota_for_input limiter r.input ≡ quota)

abbrev is_admission : Limiter → String → Request → Result Failure (Unit {0}) → Bool
is_admission limiter key r result = str_eq key (key_for_input limiter r.input) && admitted result

-- How many requests of the key are admitted.
unfoldable pub admissions : Limiter → String → List Request → List Row → ℕ
admissions limiter key [] rows = 0
admissions limiter key (r ∷ rs) rows =
    let o = consume limiter r.locked r.fresh r.now r.input rows in
    (if is_admission limiter key r o.0 then 1 else 0) + admissions limiter key rs o.1

and_false : (b : Bool) → (b && false) ≡ false
and_false b = ground arith

and_true : (b : Bool) → (b && true) ≡ b
and_true b = ground arith

counted_small :
    {maximum : ℕ} (b : Bool) (count : ℕ)
    → count ≤ maximum
    → (b ≡ true → count + 1 ≤ maximum)
    → (if b then count + 1 else count) ≤ maximum
counted_small true count small within = within refl
counted_small false count small within = small

weighed :
    {maximum : ℕ} (b : Bool) (count n : ℕ)
    → (if b then count + 1 else count) + n ≤ maximum
    → count + ((if b then 1 else 0) + n) ≤ maximum
weighed true count n h = omega arith
weighed false count n h = omega arith

module _ (limiter : Limiter) (key : String) (quota : Quota) (first : ℕ)
    (fits : quota.window_ms ≤ retention_ms) where
  -- The outcome of a request: the row's count is one more if it is an admission of the key.
  record IsOutcome (count : ℕ) (r : Request) (o : Result Failure (Unit {0}) × List Row)
      : Type 0 where
    counting :
        IsCounting key first (if is_admission limiter key r o.0 then count + 1 else count) o.1
    within : is_admission limiter key r o.0 ≡ true → count + 1 ≤ quota.maximum_attempts

  consume-IsOutcome :
      (count : ℕ) (r : Request) (rows : List Row)
      → IsCounting key first count rows
      → IsWithin limiter key quota first r
      → IsOutcome count r (consume limiter r.locked r.fresh r.now r.input rows)
  unfolding consume
  consume-IsOutcome count r rows w (active, own) = clocked (not (is_safe r.now))
    where
      other : String
      other = key_for_input limiter r.input

      unchanged : (e : Failure) → IsOutcome count r (err e, rows)
      unchanged e =
          let refused = and_false (str_eq key other) in
          record { counting = rw refused w; within = λ h. cc }

      settled :
          (x : Result Failure (Unit {0} × List Row))
          → consume_tx r.locked r.fresh r.now other (quota_for_input limiter r.input) rows ≡ x
          → IsOutcome count r (caught (commit rows x))
      settled (err e) h = unchanged _
      settled (ok (u, t)) h =
          let (c, small) =
            consume_tx-IsCounting key other first count quota.window_ms
              (quota_for_input limiter r.input) r.locked r.fresh r.now rows w active fits
              (λ e. ap (λ (q : Quota). q.window_ms) (own e)) h in
          let e = and_true (str_eq key other) in
          record {
            counting = rw e c;
            within = λ h.
                let mine : str_eq key other ≡ true = sym e ∙ h in
                subst (λ (q : Quota). count + 1 ≤ q.maximum_attempts) (own mine) (small mine);
          }

      clocked :
          (b : Bool)
          → IsOutcome count r (
              if b
              then (err clock_invalid, rows)
              else caught (
                  commit rows (
                    consume_tx r.locked r.fresh r.now other
                      (quota_for_input limiter r.input)
                      rows)))
      clocked true = unchanged clock_invalid
      clocked false = settled _ refl

  -- Within the window that began at `first`, of a quota that does not outlast the retention: if
  -- `count` requests of the key have been counted, at most the quota's maximum, then those and the
  -- requests of the key that are admitted from then on are never more than the maximum, whichever
  -- other requests come between and whatever cleanups they make.
  pub admissions-bounded :
      (requests : List Request) (count : ℕ) (rows : List Row)
      → IsCounting key first count rows
      → count ≤ quota.maximum_attempts
      → All (IsWithin limiter key quota first) requests
      → count + admissions limiter key requests rows ≤ quota.maximum_attempts
  unfolding admissions
  admissions-bounded [] count rows w small all = omega arith
  admissions-bounded (r ∷ rs) count rows w small (within, all) =
      let o = consume limiter r.locked r.fresh r.now r.input rows in
      let w = consume-IsOutcome count r rows w within in
      let b = is_admission limiter key r o.0 in
      weighed b count (admissions limiter key rs o.1) (
        admissions-bounded rs (if b then count + 1 else count) o.1 w.counting
          (counted_small b count small w.within) all)
