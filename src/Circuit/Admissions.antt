-- ===== src/Circuit/Admissions.antt =====
-- What an admission leaves, and when the circuit admits an operation.
use mathlib.Core.Path.{subst}
use ai_agent_platform.Circuit.{
  Options, Circuit, Ticket, Admission, admitted, unavailable, clock_failed, admit, admit_at, clock,
  is_due,
}
use ai_agent_platform.Circuit.Safety.{IsSafe, clocked, issued, probing, due-is_some}
use ai_agent_platform.Base.{
  ◌≢◌, ◌⊎◌, ℕ, suc, Bool, true, false, not, ◌&&◌, ◌||◌, List, ◌∷◌, ◌≡◌, refl, is_some,
  if◌then◌else◌, Option, none, some, inl, inr,
}

-- The three outcomes of an admission at an instant.
pub data AdmitsAt (o : Options) (time : ℕ) (c : Circuit) : Admission × Circuit → Type 0 where
  refuses :
      is_some c.opened_at ≡ true
      → (is_due o c.opened_at time ≡ false) ⊎ (c.half_open ≡ true)
      → AdmitsAt o time c (unavailable, c)
  probes :
      is_due o c.opened_at time ≡ true
      → c.half_open ≡ false
      → AdmitsAt o time c (
        admitted (record { generation = suc c.generation; is_half_open_probe = true }),
        record c { half_open = true; generation = suc c.generation },
      )
  passes :
      is_some c.opened_at ≡ false
      → AdmitsAt o time c
          (admitted (record { generation = c.generation; is_half_open_probe = false }), c)

pub admit_at-AdmitsAt :
    (o : Options) (time : ℕ) (c : Circuit) → AdmitsAt o time c (admit_at o time c)
admit_at-AdmitsAt o time c = branch _ _ _ refl refl refl
  where
    branch :
        (opened due half : Bool)
        → is_some c.opened_at ≡ opened
        → is_due o c.opened_at time ≡ due
        → c.half_open ≡ half
        → AdmitsAt o time c (
            if opened && (not due || half)
            then (unavailable, c)
            else if due
            then (
              admitted (record { generation = suc c.generation; is_half_open_probe = true }),
              record c { half_open = true; generation = suc c.generation },
            )
            else (admitted (record { generation = c.generation; is_half_open_probe = false }), c))
    branch true true true e d h = refuses e (inr h)
    branch true true false e d h = probes d h
    branch true false half e d h = refuses e (inl d)
    branch false true half e d h = cc (due-is_some o c.opened_at time d, e)
    branch false false half e d h = passes e

-- The tickets in flight after an admission.
abbrev pub in_flight : List Ticket → Admission → List Ticket
in_flight pending (admitted t) = t ∷ pending
in_flight pending unavailable = pending
in_flight pending clock_failed = pending

module _ {o : Options} {pending : List Ticket} where
  AdmitsAt-IsSafe :
      {time : ℕ} {c : Circuit} {r : Admission × Circuit}
      → AdmitsAt o time c r
      → IsSafe o c pending
      → IsSafe o r.1 (in_flight pending r.0)
  AdmitsAt-IsSafe (refuses opened reason) s = s
  AdmitsAt-IsSafe {time} {c} (probes due idle) s = probing (due-is_some o c.opened_at time due) s
  AdmitsAt-IsSafe (passes closed) s = issued closed s

  pub admit-IsSafe :
      (reading : Option ℕ) (c : Circuit)
      → IsSafe o c pending
      → IsSafe o (admit o reading c).1 (in_flight pending (admit o reading c).0)
  unfolding admit clock
  admit-IsSafe none c s = s
  admit-IsSafe (some value) c s = AdmitsAt-IsSafe (admit_at-AdmitsAt o _ _) (clocked _ s)

  pub begin-IsSafe :
      (reading : Option ℕ) (c : Circuit) (t : Ticket)
      → (admit o reading c).0 ≡ admitted t
      → IsSafe o c pending
      → IsSafe o (admit o reading c).1 (t ∷ pending)
  begin-IsSafe reading c t e s =
      subst (λ a. IsSafe o (admit o reading c).1 (in_flight pending a)) e (admit-IsSafe reading c s)

  pub refuse-IsSafe :
      (reading : Option ℕ) (c : Circuit)
      → ((t : Ticket) → (admit o reading c).0 ≢ admitted t)
      → IsSafe o c pending
      → IsSafe o (admit o reading c).1 pending
  refuse-IsSafe reading c refused s = pick (admit o reading c).0 refused (admit-IsSafe reading c s)
    where
      pick :
          (a : Admission)
          → ((t : Ticket) → a ≢ admitted t)
          → IsSafe o (admit o reading c).1 (in_flight pending a)
          → IsSafe o (admit o reading c).1 pending
      pick (admitted t) refused s = absurd (refused t refl)
      pick unavailable refused s = s
      pick clock_failed refused s = s
