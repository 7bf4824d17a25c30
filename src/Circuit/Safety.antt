-- ===== src/Circuit/Safety.antt =====
-- What holds of the circuit and the operations in flight in every order of steps.
use ai_agent_platform.Circuit.{Options, Circuit, Ticket, is_due}
use ai_agent_platform.Base.{
  ℕ, ◌≤◌, suc, Bool, true, false, ◌&&◌, List, ◌∷◌, ◌≡◌, refl, ltb, ◌==◌, is_some, if◌then◌else◌,
  count_where, count_where_mono, arith, Option, none, some,
}

abbrev pub is_current : ℕ → Ticket → Bool
is_current g t = t.generation == g

abbrev pub is_newer : ℕ → Ticket → Bool
is_newer g t = ltb g t.generation

abbrev pub is_current_probe : ℕ → Ticket → Bool
is_current_probe g t = t.generation == g && t.is_half_open_probe

-- The count of failures stays within the threshold; a half-open circuit is an opened one; no ticket
-- is newer than the circuit. While the circuit is opened, the tickets that can still change it are
-- one half-open probe at most, and none if it is not half-open; while it is closed, none of them is
-- a probe.
pub record IsSafe (o : Options) (c : Circuit) (pending : List Ticket) : Type 0 where
  pub bounded : c.consecutive_failures ≤ o.failure_threshold
  pub half_open_opened : c.half_open ≡ true → is_some c.opened_at ≡ true
  pub not_newer : count_where (is_newer c.generation) pending ≡ 0
  pub current :
      is_some c.opened_at ≡ true
      → count_where (is_current c.generation) pending ≤ (if c.half_open then 1 else 0)
  pub all_probes :
      is_some c.opened_at ≡ true
      → count_where (is_current c.generation) pending
        ≡ count_where (is_current_probe c.generation) pending
  pub no_probe :
      is_some c.opened_at ≡ false → count_where (is_current_probe c.generation) pending ≡ 0

module _ {o : Options} {c : Circuit} {pending : List Ticket} (s : IsSafe o c pending) where
  none_current : count_where (is_current (suc c.generation)) pending ≡ 0
  none_current = omega (
    arith,
    s.not_newer,
    count_where_mono (is_current (suc c.generation)) (is_newer c.generation) pending
        (λ x h. ground arith),
  )

  none_probe : count_where (is_current_probe (suc c.generation)) pending ≡ 0
  none_probe = omega (
    arith,
    s.not_newer,
    count_where_mono (is_current_probe (suc c.generation)) (is_newer c.generation) pending
        (λ x h. ground arith),
  )

  none_newer : count_where (is_newer (suc c.generation)) pending ≡ 0
  none_newer = omega (
    arith,
    s.not_newer,
    count_where_mono (is_newer (suc c.generation)) (is_newer c.generation) pending
        (λ x h. ground arith),
  )

  -- A new generation has no ticket in flight.
  pub renewed :
      (d : Circuit)
      → d.generation ≡ suc c.generation
      → d.consecutive_failures ≤ o.failure_threshold
      → (d.half_open ≡ true → is_some d.opened_at ≡ true)
      → IsSafe o d pending
  renewed d g b h = record {
    bounded = b;
    half_open_opened = h;
    not_newer = rw g none_newer;
    current = λ _. rw g (rw none_current (omega arith));
    all_probes = λ _. rw g (rw none_current (rw none_probe refl));
    no_probe = λ _. rw g none_probe;
  }

-- A later reading of the clock changes nothing else.
pub clocked :
    {o : Options} {c : Circuit} {pending : List Ticket} (time : ℕ)
    → IsSafe o c pending
    → IsSafe o (record c { last_monotonic_time = some time }) pending
clocked time s = record {
  bounded = s.bounded;
  half_open_opened = s.half_open_opened;
  not_newer = s.not_newer;
  current = s.current;
  all_probes = s.all_probes;
  no_probe = s.no_probe;
}

-- A ticket of the current generation that is not a probe is issued to a closed circuit only.
pub issued :
    {o : Options} {c : Circuit} {pending : List Ticket}
    → is_some c.opened_at ≡ false
    → IsSafe o c pending
    → IsSafe o c (record { generation = c.generation; is_half_open_probe = false } ∷ pending)
issued closed s = record {
  bounded = s.bounded;
  half_open_opened = s.half_open_opened;
  not_newer = ground (arith, s.not_newer);
  current = λ h. cc;
  all_probes = λ h. cc;
  no_probe = λ h. ground (arith, s.no_probe h);
}

pub probing :
    {o : Options} {c : Circuit} {pending : List Ticket}
    → is_some c.opened_at ≡ true
    → IsSafe o c pending
    → IsSafe o
        (record c { half_open = true; generation = suc c.generation })
        (record { generation = suc c.generation; is_half_open_probe = true } ∷ pending)
probing {c} opened s = record {
  bounded = s.bounded;
  half_open_opened = λ _. opened;
  not_newer = ground (arith, none_newer s);
  current = λ _. ground (arith, none_current s);
  all_probes = λ _. ground (arith, none_current s, none_probe s);
  no_probe = λ h. cc;
}

pub due-is_some :
    (o : Options) (opened : Option ℕ) (time : ℕ)
    → is_due o opened time ≡ true
    → is_some opened ≡ true
due-is_some o none time h = cc
due-is_some o (some t) time h = refl
