-- ===== src/Circuit/Recovery.antt =====
-- What a service that keeps failing, and one that has recovered, do to the circuit.
use mathlib.Core.Path.{subst}
use ai_agent_platform.Circuit.Admissions.{AdmitsAt, refuses, probes, passes, admit_at-AdmitsAt}
use ai_agent_platform.Circuit.Safety.{due-is_some}
use ai_agent_platform.Circuit.{
  is_due, admit_at, clock_failed, resume, Admission, Options, Circuit, admit, clock, settle,
  settle_rejected, settle_fulfilled, execute, inspect, State, closed, opened, result,
  execution_unavailable, rejected, fulfilled, create_circuit, failed_once, open_circuit, Settlement,
}
use ai_agent_platform.Circuit.Failures.{Failure, counted_failure}
use ai_agent_platform.Base.{
  inr, inl, ap, ◌∙◌, ℕ, ◌+◌, suc, min, Bool, true, false, List, [], ◌∷◌, ◌≡◌, refl, sym, ==_refl,
  leb, is_some, if◌then◌else◌, arith, Option, none, some, length,
}

-- Calls one after another, each with its two readings, whose operations fail with `e` if called.
unfoldable pub run_failures : Options → Failure → List (ℕ × ℕ) → Circuit → Circuit
unfolding execute
run_failures o e [] c = c
run_failures o e ((now, later) ∷ readings) c =
    run_failures o e readings (execute o (some now) (rejected e) (some later) c).1

-- `n` counted failures since the circuit was last closed with none.
record IsFailing (o : Options) (n : ℕ) (c : Circuit) : Type 0 where
  count : c.consecutive_failures ≡ min o.failure_threshold n
  idle : c.half_open ≡ false
  threshold : is_some c.opened_at ≡ leb o.failure_threshold n

-- Opening the circuit, by a call at any time.
open_circuit-IsFailing :
    {o : Options} {n : ℕ} (probe : Bool) (later : ℕ) (c : Circuit)
    → c.consecutive_failures ≡ min o.failure_threshold (suc n)
    → (probe ≡ false → c.half_open ≡ false)
    → leb o.failure_threshold (suc n) ≡ true
    → IsFailing o (suc n) (open_circuit probe (some later) c).1
unfolding clock
open_circuit-IsFailing true later c e idle l = record { count = e; idle = refl; threshold = sym l }
open_circuit-IsFailing false later c e idle l = record {
  count = e;
  idle = idle refl;
  threshold = sym l;
}

counted-IsFailing :
    {o : Options} (later n : ℕ) (c : Circuit)
    → c.consecutive_failures ≡ min o.failure_threshold (suc n)
    → c.half_open ≡ false
    → is_some c.opened_at ≡ false
    → (b : Bool) → leb o.failure_threshold c.consecutive_failures ≡ b
    → IsFailing o
        (suc n)
        (if b then open_circuit false (some later) c else (execution_unavailable, c)).1
counted-IsFailing later n c e idle is_closed true l =
    open_circuit-IsFailing false later c e (λ _. idle) (ground arith)
counted-IsFailing later n c e idle is_closed false l = record {
  count = e;
  idle = idle;
  threshold = ground arith;
}

resume-IsFailing :
    (o : Options) (e : Failure) (time later n : ℕ) (c : Circuit) {r : Admission × Circuit}
    → counted_failure e ≡ true
    → AdmitsAt o time c r
    → IsFailing o n c
    → IsFailing o (suc n) (resume o (rejected e) (some later) r).1
unfolding settle settle_rejected
resume-IsFailing o e time later n c h (refuses is_opened reason) s = record {
  count = ground (arith, s.count, s.threshold);
  idle = s.idle;
  threshold = ground (arith, s.threshold);
}
resume-IsFailing o e time later n c h (probes due idle) s =
    rw (==_refl (suc c.generation), h)
      (open_circuit-IsFailing true later _ (ground (arith, s.count)) (λ no. cc)
        (ground (arith, s.threshold, due-is_some o c.opened_at time due)))
resume-IsFailing o e time later n c h (passes is_closed) s =
    rw (==_refl c.generation, h)
      (counted-IsFailing later n (failed_once o c) (ground (arith, s.count)) s.idle is_closed _
        refl)

execute-IsFailing :
    (o : Options) (e : Failure) (now later n : ℕ) (c : Circuit)
    → counted_failure e ≡ true
    → IsFailing o n c
    → IsFailing o (suc n) (execute o (some now) (rejected e) (some later) c).1
unfolding execute admit clock
execute-IsFailing o e now later n c h s =
    resume-IsFailing o e _ later n _ h (admit_at-AdmitsAt o _ _)
      (record { count = s.count; idle = s.idle; threshold = s.threshold })

run_failures-IsFailing :
    (o : Options) (e : Failure) (readings : List (ℕ × ℕ)) (n : ℕ) (c : Circuit)
    → counted_failure e ≡ true
    → IsFailing o n c
    → IsFailing o (length readings + n) (run_failures o e readings c)
unfolding run_failures
run_failures-IsFailing o e [] n c h s = subst (λ k. IsFailing o k c) (omega arith) s
run_failures-IsFailing o e ((now, later) ∷ readings) n c h s =
    subst (λ k. IsFailing o k (run_failures o e ((now, later) ∷ readings) c)) (omega arith)
      (run_failures-IsFailing o e readings (suc n) _ h (execute-IsFailing o e now later n c h s))

-- The circuit after `n` failures, as `inspect` shows it.
abbrev pub failed_times : Options → ℕ → State × ℕ
failed_times o n = if leb o.failure_threshold n then (opened, o.failure_threshold) else (closed, n)

create_circuit-IsFailing : (o : Options) (c : Circuit) → create_circuit o ≡ some c → IsFailing o 0 c
unfolding create_circuit
create_circuit-IsFailing o c k = record {
  count = ground arith;
  idle = ground arith;
  threshold = ground arith;
}

IsFailing-inspect :
    (o : Options) (n : ℕ) (c : Circuit)
    → IsFailing o n c
    → inspect c ≡ (if leb o.failure_threshold n then (opened, o.failure_threshold) else (closed, n))
unfolding inspect
IsFailing-inspect o n c s = ground (arith, s.count, s.idle, s.threshold)

-- A service that keeps failing opens the circuit at the threshold, and not before: `n` calls in a
-- row that each fail with a counted error, or are refused, leave a new circuit closed with `n`
-- failures while `n` is less than the threshold, and opened with as many failures as the threshold
-- from then on, whatever the clock reads.
pub run_failures-inspect :
    (o : Options) (e : Failure) (readings : List (ℕ × ℕ)) (c : Circuit)
    → counted_failure e ≡ true
    → create_circuit o ≡ some c
    → inspect (run_failures o e readings c) ≡ (
        if leb o.failure_threshold (length readings)
        then (opened, o.failure_threshold)
        else (closed, length readings))
run_failures-inspect o e readings c h k =
    subst (λ n. inspect (run_failures o e readings c) ≡ failed_times o n) (omega arith)
      (IsFailing-inspect o (length readings + 0) _
        (run_failures-IsFailing o e readings 0 c h (create_circuit-IsFailing o c k)))

clock-keeps :
    (reading : Option ℕ) (c : Circuit) {time : ℕ} {d : Circuit}
    → clock reading c ≡ some (time, d)
    → (d.opened_at ≡ c.opened_at) × (d.half_open ≡ c.half_open) × (inspect d ≡ inspect c)
unfolding clock inspect
clock-keeps none c k = cc
clock-keeps (some value) c k =
    let e = same k in
    (
      ap (λ x. x.1.opened_at) (sym e),
      ap (λ x. x.1.half_open) (sym e),
      ap (λ x. inspect x.1) (sym e),
    )
  where
    same : {a b : ℕ × Circuit} → some a ≡ some b → a ≡ b
    same e = cc

resume-recovers :
    (o : Options) (c : Circuit) (opened_at time : ℕ) (later : Option ℕ) {r : Admission × Circuit}
    → AdmitsAt o time c r
    → c.opened_at ≡ some opened_at
    → c.half_open ≡ false
    → let due = leb (opened_at + o.reset_after_ms) time in
      let (answer, d) = resume o fulfilled later r in
      (answer ≡ (if due then result else execution_unavailable))
      × (inspect d ≡ (if due then (closed, 0) else inspect c))
unfolding settle settle_fulfilled inspect
resume-recovers o c opened_at time later (refuses is_opened (inl early)) a h =
    rw (sym (ap (λ x. is_due o x time) a) ∙ early) (refl, refl)
resume-recovers o c opened_at time later (refuses is_opened (inr busy)) a h = cc
resume-recovers o c opened_at time later (probes due idle) a h =
    rw (sym (ap (λ x. is_due o x time) a) ∙ due) (rw (==_refl (suc c.generation)) (refl, refl))
resume-recovers o c opened_at time later (passes is_closed) a h = cc

execute-admit_at :
    (o : Options) (reading : Option ℕ) (x : Settlement) (later : Option ℕ) (c : Circuit) {time : ℕ}
    {d : Circuit}
    → clock reading c ≡ some (time, d)
    → execute o reading x later c ≡ resume o x later (admit_at o time d)
unfolding execute admit
execute-admit_at o reading x later c k =
    ap
      (λ m.
        resume o x later (elim m [ none ↦ (clock_failed, c) | some (time, d) ↦ admit_at o time d ]))
      k

-- An opened circuit with no probe in flight refuses every call before the reset time has passed
-- since it was opened, and looks as before; from then on it lets a call through, and when that
-- call succeeds its result is returned and the circuit is closed with no failures.
pub execute-recovers :
    (o : Options) (c : Circuit) (opened_at now time : ℕ) (d : Circuit) (later : Option ℕ)
    → c.opened_at ≡ some opened_at
    → c.half_open ≡ false
    → clock (some now) c ≡ some (time, d)
    → let due = leb (opened_at + o.reset_after_ms) time in
      let (answer, e) = execute o (some now) fulfilled later c in
      (answer ≡ (if due then result else execution_unavailable))
      × (inspect e ≡ (if due then (closed, 0) else inspect c))
execute-recovers o c opened_at now time d later a h k =
    let (p, q, r) = clock-keeps (some now) c k in
    let e = execute-admit_at o (some now) fulfilled later c k in
    let (x, y) =
      resume-recovers o d opened_at time later (admit_at-AdmitsAt o time d) (p ∙ a) (q ∙ h) in
    (
      ap (λ z. z.0) e ∙ x,
      ap (λ z. inspect z.1) e
          ∙ y
          ∙ ap (λ z. if leb (opened_at + o.reset_after_ms) time then (closed, 0) else z) r,
    )
