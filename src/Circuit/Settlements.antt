-- ===== src/Circuit/Settlements.antt =====
-- What a settled operation leaves.
use ai_agent_platform.Circuit.{
  Answer, open_circuit, failed_once, clock, Options, Circuit, Ticket, Settlement, settle,
  settle_fulfilled, settle_rejected, rejected, fulfilled,
}
use ai_agent_platform.Circuit.Failures.{Failure, counted_failure}
use ai_agent_platform.Circuit.Safety.{IsSafe, renewed, is_current, is_current_probe, is_newer}
use ai_agent_platform.Base.{
  [], count_where_mono, ℕ, ◌+◌, suc, Bool, true, false, not, List, ◌∷◌, ◌++◌, ◌≡◌, refl, leb, ◌==◌,
  is_some, if◌then◌else◌, count_where, count_where-append, arith, Option, none, some, Bool-cases,
  not-eq-false, inl, inr,
}

-- What a ticket of the current generation says of the circuit, once it is out of flight.
pub record IsSettling (c : Circuit) (t : Ticket) (rest : List Ticket) : Type 0 where
  pub probe_opened : t.is_half_open_probe ≡ true → is_some c.opened_at ≡ true
  pub other_closed : t.is_half_open_probe ≡ false → is_some c.opened_at ≡ false
  pub alone : is_some c.opened_at ≡ true → count_where (is_current c.generation) rest ≡ 0
  pub not_half : is_some c.opened_at ≡ false → c.half_open ≡ false

module _ {o : Options} {c : Circuit} (before : List Ticket) (t : Ticket) (after : List Ticket)
    (s : IsSafe o c (before ++ t ∷ after)) where
  removed :
      (p : Ticket → Bool)
      → count_where p (before ++ t ∷ after)
        ≡ (if p t then 1 else 0) + count_where p (before ++ after)
  removed p =
      omega (arith, count_where-append p before (t ∷ after), count_where-append p before after)

  remaining : IsSafe o c (before ++ after)
  remaining = record {
    bounded = s.bounded;
    half_open_opened = s.half_open_opened;
    not_newer = omega (arith, s.not_newer, removed (is_newer c.generation));
    current = λ h. omega (arith, s.current h, removed (is_current c.generation));
    all_probes = λ h. omega (
      arith,
      s.all_probes h,
      removed (is_current c.generation),
      removed (is_current_probe c.generation),
      count_where_mono (is_current_probe c.generation) (is_current c.generation) (before ++ after)
          (λ x q. ground arith),
      count_where_mono (is_current_probe c.generation) (is_current c.generation) (t ∷ [])
          (λ x q. ground arith),
    );
    no_probe = λ h. omega (arith, s.no_probe h, removed (is_current_probe c.generation));
  }

  settling : (t.generation == c.generation) ≡ true → IsSettling c t (before ++ after)
  settling e = record {
    probe_opened = λ p. elim (Bool-cases (is_some c.opened_at)) [
      | inl opened ↦ opened
      | inr closed ↦ ground (arith, s.no_probe closed, removed (is_current_probe c.generation))
    ];
    other_closed = λ p. elim (Bool-cases (is_some c.opened_at)) [
      | inl opened ↦ ground (
        arith,
        s.all_probes opened,
        removed (is_current c.generation),
        removed (is_current_probe c.generation),
        count_where_mono (is_current_probe c.generation) (is_current c.generation) (before ++ after)
            (λ x q. ground arith),
      )
      | inr closed ↦ closed
    ];
    alone = λ h. ground (arith, s.current h, removed (is_current c.generation));
    not_half = λ h. ground (arith, s.half_open_opened);
  }

module _ {o : Options} {c : Circuit} {rest : List Ticket} (s : IsSafe o c rest) where
  failed : IsSafe o (failed_once o c) rest
  failed = record {
    bounded = omega arith;
    half_open_opened = s.half_open_opened;
    not_newer = s.not_newer;
    current = s.current;
    all_probes = s.all_probes;
    no_probe = s.no_probe;
  }

  settle_fulfilled-IsSafe :
      (t : Ticket)
      → ((t.generation == c.generation) ≡ true → IsSettling c t rest)
      → IsSafe o (settle_fulfilled t c) rest
  unfolding settle_fulfilled
  settle_fulfilled-IsSafe t facts = branch _ _ refl refl
    where
      branch :
          (same probe : Bool)
          → (t.generation == c.generation) ≡ same
          → t.is_half_open_probe ≡ probe
          → IsSafe o
              (if same
                then record c {
                  consecutive_failures = 0;
                  opened_at = none;
                  half_open = false;
                  generation = if probe then suc c.generation else c.generation;
                }
                else c)
              rest
      branch false probe e p = s
      branch true true e p = renewed s _ refl (omega arith) (λ h. cc)
      branch true false e p = record {
        bounded = omega arith;
        half_open_opened = λ h. cc;
        not_newer = s.not_newer;
        current = λ h. cc;
        all_probes = λ h. cc;
        no_probe = λ h. s.no_probe ((facts e).other_closed p);
      }

  -- A probe that fails otherwise than by the service leaves the circuit opened.
  idle :
      (t : Ticket)
      → t.is_half_open_probe ≡ true
      → IsSettling c t rest
      → IsSafe o (record c { half_open = false }) rest
  idle t p facts = record {
    bounded = s.bounded;
    half_open_opened = λ h. cc;
    not_newer = s.not_newer;
    current = λ h. omega (arith, facts.alone h);
    all_probes = s.all_probes;
    no_probe = s.no_probe;
  }

open_circuit-IsSafe :
    {o : Options} {c : Circuit} {rest : List Ticket} (probe : Bool) (reading : Option ℕ)
    → IsSafe o c rest
    → IsSafe o (open_circuit probe reading c).1 rest
unfolding clock
open_circuit-IsSafe probe none s = s
open_circuit-IsSafe probe (some value) s = renewed s _ refl s.bounded (λ h. refl)

-- Whatever the answer, the circuit that a branch leaves is safe.
answered :
    {o : Options} {rest : List Ticket} (b : Bool) (x y : Answer × Circuit)
    → (b ≡ true → IsSafe o x.1 rest)
    → (b ≡ false → IsSafe o y.1 rest)
    → IsSafe o (if b then x else y).1 rest
answered true x y f g = f refl
answered false x y f g = g refl

module _ {o : Options} {c : Circuit} {rest : List Ticket} (s : IsSafe o c rest) where
  settle_rejected-IsSafe :
      (t : Ticket) (e : Failure) (reading : Option ℕ)
      → ((t.generation == c.generation) ≡ true → IsSettling c t rest)
      → IsSafe o (settle_rejected o t e reading c).1 rest
  unfolding settle_rejected
  settle_rejected-IsSafe t e reading facts =
      answered (not (t.generation == c.generation)) _ _ (λ _. s)
        λ same.
          answered t.is_half_open_probe _ _
            (λ p.
              answered (counted_failure e) _ _ (λ _. open_circuit-IsSafe true reading (failed s))
                (λ _. idle s t p (facts (not-eq-false _ same))))
            (λ _.
              answered (counted_failure e) _ _
                (λ _.
                  answered (leb o.failure_threshold (failed_once o c).consecutive_failures) _ _
                    (λ _. open_circuit-IsSafe false reading (failed s)) (λ _. failed s))
                (λ _. s))

  pub settle-IsSafe :
      (t : Ticket) (x : Settlement) (reading : Option ℕ)
      → ((t.generation == c.generation) ≡ true → IsSettling c t rest)
      → IsSafe o (settle o t x reading c).1 rest
  unfolding settle
  settle-IsSafe t fulfilled reading facts = settle_fulfilled-IsSafe s t facts
  settle-IsSafe t (rejected e) reading facts = settle_rejected-IsSafe t e reading facts

pub finish-IsSafe :
    {o : Options} {c : Circuit} (before : List Ticket) (t : Ticket) (after : List Ticket)
    (x : Settlement) (reading : Option ℕ)
    → IsSafe o c (before ++ t ∷ after)
    → IsSafe o (settle o t x reading c).1 (before ++ after)
finish-IsSafe before t after x reading s =
    settle-IsSafe (remaining before t after s) t x reading (settling before t after s)
