-- ===== src/Base/Lists.antt =====
-- Tables as lists of rows: queries, updates and counts, with the laws that relate them.
use Prim.Native.Nat.{ℕ, zero, suc, ◌+◌, ◌≤◌}
use mathlib.Core.Path.{◌≡◌, refl}
use mathlib.Core.Bool.{Bool, true, false}
use mathlib.Core.Option
use mathlib.Core.Option.{Option, none, some}
use mathlib.Core.List.{List, [], ◌∷◌, ◌++◌, Memᴰ}
use native.Mathlib.Omega.{arith}
use mathlib.Core.Logic.{inl, inr}
use ai_agent_platform.Base.Tests.{if◌then◌else◌, Bool-cases}

abbrev pub All {ℓ κ} : {A : Type ℓ} → (A → Type κ) → List A → Type κ
All P [] = Unit
All P (x ∷ xs) = P x × All P xs

module _ {ℓ} {A : Type ℓ} where
  abbrev pub length : List A → ℕ
  length [] = 0
  length (x ∷ xs) = suc (length xs)

  abbrev pub take : ℕ → List A → List A
  take zero xs = []
  take (suc n) [] = []
  take (suc n) (x ∷ xs) = x ∷ take n xs

  -- `SELECT … WHERE p`, of which the code reads the first row.
  abbrev pub find_first : (A → Bool) → List A → Option A
  find_first p [] = none
  find_first p (x ∷ xs) = if p x then some x else find_first p xs

  -- Whether a row satisfies the condition (`EXISTS`, `includes`, `some`).
  abbrev pub any : (A → Bool) → List A → Bool
  any p [] = false
  any p (x ∷ xs) = if p x then true else any p xs

  -- `SELECT count(*) … WHERE p`, and the number of rows that an update returns.
  abbrev pub count_where : (A → Bool) → List A → ℕ
  count_where p [] = 0
  count_where p (x ∷ xs) = (if p x then 1 else 0) + count_where p xs

  -- `UPDATE … SET f WHERE p`.
  abbrev pub update_where : (A → Bool) → (A → A) → List A → List A
  update_where p f [] = []
  update_where p f (x ∷ xs) = (if p x then f x else x) ∷ update_where p f xs

  -- The rows that satisfy the condition.
  abbrev pub keep_where : (A → Bool) → List A → List A
  keep_where p [] = []
  keep_where p (x ∷ xs) = let rest = keep_where p xs in if p x then x ∷ rest else rest

  -- `DELETE … WHERE p`.
  abbrev pub delete_where : (A → Bool) → List A → List A
  delete_where p [] = []
  delete_where p (x ∷ xs) = let rest = delete_where p xs in if p x then rest else x ∷ rest

module _ {ℓ} {A : Type ℓ} where
  -- The row that is found satisfies the condition.
  pub find_first-holds :
      (p : A → Bool) (xs : List A) (y : A) → find_first p xs ≡ some y → p y ≡ true
  find_first-holds p [] y h = cc
  find_first-holds p (x ∷ xs) y h = ground (arith, find_first-holds p xs y)

  -- A row is found exactly where some row satisfies the condition.
  pub any_of_find_first :
      (p : A → Bool) (xs : List A) (y : A) → find_first p xs ≡ some y → any p xs ≡ true
  any_of_find_first p [] y h = cc
  any_of_find_first p (x ∷ xs) y h = ground (arith, any_of_find_first p xs y)

  pub any-eq-false_of_none :
      (p : A → Bool) (xs : List A) → find_first p xs ≡ none → any p xs ≡ false
  any-eq-false_of_none p [] h = refl
  any-eq-false_of_none p (x ∷ xs) h = ground (arith, any-eq-false_of_none p xs)

  -- An update that keeps the condition updates the row that is found.
  pub find_first-update_self :
      (p : A → Bool) (f : A → A) (xs : List A) (z : A)
      → ((y : A) → p y ≡ true → p (f y) ≡ true)
      → find_first p xs ≡ some z
      → find_first p (update_where p f xs) ≡ some (f z)
  find_first-update_self p f [] z keep h = cc
  find_first-update_self p f (x ∷ xs) z keep h =
      ground (arith, keep x, find_first-update_self p f xs z keep)

  -- An update of other rows, which it leaves other, changes nothing for the condition.
  pub find_first-update_other :
      (p q : A → Bool) (f : A → A) (xs : List A)
      → ((y : A) → q y ≡ true → (p y ≡ false) × (p (f y) ≡ false))
      → find_first p (update_where q f xs) ≡ find_first p xs
  find_first-update_other p q f [] other = refl
  find_first-update_other p q f (x ∷ xs) other =
      ground (arith, other x, find_first-update_other p q f xs other)

  pub find_first-append :
      (p : A → Bool) (xs ys : List A) (z : A)
      → find_first p xs ≡ some z
      → find_first p (xs ++ ys) ≡ some z
  find_first-append p [] ys z h = cc
  find_first-append p (x ∷ xs) ys z h = ground (arith, find_first-append p xs ys z)

  pub find_first-append_none :
      (p : A → Bool) (xs ys : List A)
      → find_first p xs ≡ none
      → find_first p (xs ++ ys) ≡ find_first p ys
  find_first-append_none p [] ys h = refl
  find_first-append_none p (x ∷ xs) ys h = ground (arith, find_first-append_none p xs ys)

  pub any-append :
      (p : A → Bool) (xs ys : List A) → any p (xs ++ ys) ≡ (if any p xs then true else any p ys)
  any-append p [] ys = refl
  any-append p (x ∷ xs) ys = ground (arith, any-append p xs ys)

  pub count_where-append :
      (p : A → Bool) (xs ys : List A)
      → count_where p (xs ++ ys) ≡ count_where p xs + count_where p ys
  count_where-append p [] ys = omega arith
  count_where-append p (x ∷ xs) ys = ground (arith, count_where-append p xs ys)

  pub count_where-eq-zero : (p : A → Bool) (xs : List A) → any p xs ≡ false → count_where p xs ≡ 0
  count_where-eq-zero p [] h = refl
  count_where-eq-zero p (x ∷ xs) h = ground (arith, count_where-eq-zero p xs)

  pub count_where_pos : (p : A → Bool) (xs : List A) → any p xs ≡ true → 1 ≤ count_where p xs
  count_where_pos p [] h = cc
  count_where_pos p (x ∷ xs) h = ground (arith, count_where_pos p xs)

  -- An update under which the condition does not change keeps the count.
  pub count_where-update :
      (p q : A → Bool) (f : A → A) (xs : List A)
      → ((y : A) → q y ≡ true → p (f y) ≡ p y)
      → count_where p (update_where q f xs) ≡ count_where p xs
  count_where-update p q f [] same = refl
  count_where-update p q f (x ∷ xs) same = ground (arith, same x, count_where-update p q f xs same)

  -- An update that makes its rows satisfy the condition adds them to the count.
  pub count_where-update_gain :
      (p q : A → Bool) (f : A → A) (xs : List A)
      → ((y : A) → q y ≡ true → (p y ≡ false) × (p (f y) ≡ true))
      → count_where p (update_where q f xs) ≡ count_where p xs + count_where q xs
  count_where-update_gain p q f [] gain = omega arith
  count_where-update_gain p q f (x ∷ xs) gain =
      ground (arith, gain x, count_where-update_gain p q f xs gain)

  -- An update that keeps the condition changes only the row that is found, if it is updated.
  pub find_first-update :
      (p q : A → Bool) (f : A → A) (xs : List A)
      → ((y : A) → q y ≡ true → p (f y) ≡ p y)
      → find_first p (update_where q f xs)
        ≡ Option.map (λ y. if q y then f y else y) (find_first p xs)
  find_first-update p q f [] keep = refl
  find_first-update p q f (x ∷ xs) keep = ground (arith, keep x, find_first-update p q f xs keep)

  pub count_where_mono :
      (p q : A → Bool) (xs : List A)
      → ((y : A) → p y ≡ true → q y ≡ true)
      → count_where p xs ≤ count_where q xs
  count_where_mono p q [] sub = omega arith
  count_where_mono p q (x ∷ xs) sub = ground (arith, sub x, count_where_mono p q xs sub)

  -- The row that is found bears witness to a condition that it satisfies.
  pub any_of_found :
      (p q : A → Bool) (xs : List A) (y : A)
      → find_first p xs ≡ some y
      → q y ≡ true
      → any q xs ≡ true
  any_of_found p q [] y h k = cc
  any_of_found p q (x ∷ xs) y h k = ground (arith, any_of_found p q xs y)

  -- A condition that some row satisfies has a row to show for it.
  pub member_of_any :
      (p : A → Bool) (xs : List A) → any p xs ≡ true → (x : A) × Memᴰ x xs × (p x ≡ true)
  member_of_any p [] h = cc
  member_of_any p (x ∷ xs) h = elim (Bool-cases (p x)) [
    | inl e ↦ (x, Memᴰ.head refl, e)
    | inr e ↦ let (y, m, q) = member_of_any p xs (rw e at h) in (y, Memᴰ.tail m, q)
  ]

  pub find_first-append_other :
      (p : A → Bool) (xs : List A) (y : A)
      → p y ≡ false
      → find_first p (xs ++ y ∷ []) ≡ find_first p xs
  find_first-append_other p [] y h = ground arith
  find_first-append_other p (x ∷ xs) y h = ground (arith, find_first-append_other p xs y)

  -- Where no row satisfies a condition, none satisfies a stronger one.
  pub find_first-eq-none :
      (p q : A → Bool) (xs : List A)
      → any p xs ≡ false
      → ((y : A) → q y ≡ true → p y ≡ true)
      → find_first q xs ≡ none
  find_first-eq-none p q [] h sub = refl
  find_first-eq-none p q (x ∷ xs) h sub = ground (arith, sub x, find_first-eq-none p q xs)

  -- What no row satisfies, no row satisfies with more.
  pub any-eq-false_of :
      (p q : A → Bool) (xs : List A)
      → ((x : A) → q x ≡ true → p x ≡ true)
      → any p xs ≡ false
      → any q xs ≡ false
  any-eq-false_of p q [] sub h = refl
  any-eq-false_of p q (x ∷ xs) sub h = ground (arith, sub x, any-eq-false_of p q xs sub)

  pub any_never : (p : A → Bool) (xs : List A) → ((x : A) → p x ≡ false) → any p xs ≡ false
  any_never p [] h = refl
  any_never p (x ∷ xs) h = ground (arith, h x, any_never p xs h)
