-- ===== src/Readiness/Runs.antt =====
-- What holds of the readiness circuit after any events.
use mathlib.Core.Path.{subst}
use ai_agent_platform.Readiness.{
  cached, snapshot_of, Options, Readiness, Snapshot, Status, clock, status, status_at, complete,
  completed_at, create_readiness, is_snapshot, join_probe, resolved, probing, degraded_snapshot,
}
use ai_agent_platform.Base.{
  is_positive_safe_integer, ◌||◌, ◌&&◌, ◌+◌, ap, min, ◌∙◌, ℕ, Bool, true, false, ◌≡◌, refl, Option,
  none, some, List, [], ◌∷◌, leb, is_some, arith, if◌then◌else◌,
}
use ai_agent_platform.Readiness.Events.{Event, asked, ended, end_probe, run, matches, IsConsistent}

module _ {o : Options} (positive : leb 1 o.failure_threshold ≡ true) where
  joined :
      (b : Bool) (c : Readiness)
      → is_some c.opened_at ≡ b
      → IsConsistent o c
      → IsConsistent o (join_probe b c).1
  joined b c e s = branch (is_some c.in_flight) refl
    where
      branch :
          (f : Bool)
          → is_some c.in_flight ≡ f
          → let r : Status × Readiness =
              if f
              then (probing, c)
              else (probing, record c { half_open = b; in_flight = some b }) in
            IsConsistent o r.1
      branch true g = s
      branch false g = record {
        bounded = s.bounded;
        threshold = s.threshold;
        half_open_opened = λ h. e ∙ h;
        probe_matches = ground arith;
        valid = s.valid;
      }

  status_at-IsConsistent :
      (time : ℕ) (c : Readiness)
      → IsConsistent o c
      → IsConsistent o (status_at o time c.opened_at c).1
  status_at-IsConsistent time c s = branch c.opened_at refl
    where
      from_cache :
          (x : Option Snapshot) → is_some c.opened_at ≡ false → IsConsistent o (cached x c).1
      from_cache none e = joined false c e s
      from_cache (some x) e = s

      early :
          (b : Bool)
          → is_some c.opened_at ≡ true
          → IsConsistent o (if b then (resolved degraded_snapshot, c) else join_probe true c).1
      early true e = s
      early false e = joined true c e s

      branch : (x : Option ℕ) → c.opened_at ≡ x → IsConsistent o (status_at o time x c).1
      branch none e = from_cache _ (ap is_some e)
      branch (some opened) e = early _ (ap is_some e)

  completed_at-IsConsistent :
      (time : ℕ) (s : Snapshot) (b : Bool) (c : Readiness)
      → is_snapshot s ≡ true
      → is_some c.opened_at ≡ b
      → IsConsistent o c
      → IsConsistent o (completed_at o time s b c)
  completed_at-IsConsistent time s b c v e k = branch (s.live && s.ready)
    where
      failures : ℕ
      failures = min o.failure_threshold (c.consecutive_failures + 1)

      opened :
          (x : Bool)
          → (b || leb o.failure_threshold failures) ≡ x
          → is_some (if x then some time else c.opened_at) ≡ leb o.failure_threshold failures
      opened true h = ground (arith, k.threshold)
      opened false h = ground (arith, k.threshold)

      branch :
          (x : Bool)
          → IsConsistent o (
              if x
              then record c {
                cache = some (record { value = s; expires_at = time + o.cache_ttl_ms });
                in_flight = none;
                consecutive_failures = 0;
                opened_at = none;
                half_open = false;
              }
              else record c {
                cache = some (record { value = s; expires_at = time + o.cache_ttl_ms });
                in_flight = none;
                consecutive_failures = failures;
                opened_at =
                    if b || leb o.failure_threshold failures then some time else c.opened_at;
                half_open = false;
              })
      branch true = record {
        bounded = omega arith;
        threshold = ground arith;
        half_open_opened = λ h. cc;
        probe_matches = refl;
        valid = v;
      }
      branch false = record {
        bounded = omega arith;
        threshold = opened _ refl;
        half_open_opened = λ h. cc;
        probe_matches = refl;
        valid = v;
      }

  clocked :
      (time : ℕ) {c : Readiness}
      → IsConsistent o c
      → IsConsistent o (record c { last_monotonic_time = some time })
  clocked time s = record {
    bounded = s.bounded;
    threshold = s.threshold;
    half_open_opened = s.half_open_opened;
    probe_matches = s.probe_matches;
    valid = s.valid;
  }

  status-IsConsistent :
      (reading : Option ℕ) (c : Readiness)
      → IsConsistent o c
      → IsConsistent o (status o reading c).1
  unfolding status clock
  status-IsConsistent none c s = s
  status-IsConsistent (some value) c s = status_at-IsConsistent _ _ (clocked _ s)

  complete-IsConsistent :
      (result : Option Snapshot) (b : Bool) (reading : Option ℕ) (c : Readiness)
      → is_some c.opened_at ≡ b
      → IsConsistent o c
      → IsConsistent o (complete o result b reading c)
  unfolding complete clock
  complete-IsConsistent result b none c e s = record {
    bounded = s.bounded;
    threshold = s.threshold;
    half_open_opened = s.half_open_opened;
    probe_matches = refl;
    valid = s.valid;
  }
  complete-IsConsistent result b (some value) c e s =
      completed_at-IsConsistent _ (snapshot_of result) b _ (sound result) e (clocked _ s)
    where
      checked :
          (x : Bool) (t : Snapshot)
          → is_snapshot t ≡ x
          → is_snapshot (if x then t else degraded_snapshot) ≡ true
      checked true t h = h
      checked false t h = refl

      sound : (x : Option Snapshot) → is_snapshot (snapshot_of x) ≡ true
      sound none = refl
      sound (some t) = checked _ t refl

  end_probe-IsConsistent :
      (result : Option Snapshot) (reading : Option ℕ) (c : Readiness)
      → IsConsistent o c
      → IsConsistent o (end_probe o result reading c.in_flight c)
  end_probe-IsConsistent result reading c s = branch c.in_flight s.probe_matches
    where
      branch :
          (x : Option Bool)
          → matches x (is_some c.opened_at) ≡ true
          → IsConsistent o (end_probe o result reading x c)
      branch none h = s
      branch (some b) h = complete-IsConsistent result b reading c (ground arith) s

  run-keeps :
      (events : List Event) (c : Readiness) → IsConsistent o c → IsConsistent o (run o events c)
  unfolding run
  run-keeps [] c s = s
  run-keeps (asked reading ∷ events) c s = run-keeps events _ (status-IsConsistent reading c s)
  run-keeps (ended result reading ∷ events) c s =
      run-keeps events _ (end_probe-IsConsistent result reading c s)

-- After any requests and any ends of probes, whatever the probes answer and the clock reads, a new
-- circuit is opened exactly when its failures have reached the threshold, which they never exceed;
-- half-open means opened; a half-open probe is in flight only while it is opened and another only
-- while it is closed; and a cached value is a valid snapshot.
pub run-IsConsistent :
    (o : Options) (events : List Event) (c : Readiness)
    → create_readiness o ≡ some c
    → IsConsistent o (run o events c)
unfolding create_readiness
run-IsConsistent o events c h =
    branch (is_positive_safe_integer o.cache_ttl_ms) (is_positive_safe_integer o.failure_threshold)
      (is_positive_safe_integer o.reset_after_ms) refl h
  where
    initial : Readiness
    initial = record {
      cache = none;
      in_flight = none;
      consecutive_failures = 0;
      opened_at = none;
      half_open = false;
      last_monotonic_time = none;
    }

    same : {a b : Readiness} → some a ≡ some b → a ≡ b
    same e = cc

    branch :
        (a b d : Bool)
        → is_positive_safe_integer o.failure_threshold ≡ b
        → (if a && b && d then some initial else none) ≡ some c
        → IsConsistent o (run o events c)
    branch true true true p e = run-keeps (ground (arith, p)) events c (
        subst (λ x. IsConsistent o x) (same e)
          (record {
            bounded = omega arith;
            threshold = ground arith;
            half_open_opened = λ h. cc;
            probe_matches = refl;
            valid = refl;
          }))
    branch true true false p e = cc
    branch true false d p e = cc
    branch false b d p e = cc
