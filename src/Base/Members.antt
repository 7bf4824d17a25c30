-- ===== src/Base/Members.antt =====
-- Which rows a selection, a join and an order are of.
use mathlib.Core.Path.{◌≡◌, refl, ap, ◌∙◌}
use mathlib.Core.Bool.{Bool, true, false}
use mathlib.Core.Logic.{◌⊎◌, inl, inr}
use mathlib.Core.List.{◌++◌, Memᴰ, map, List, [], ◌∷◌}
use ai_agent_platform.Base.Tests.{if◌then◌else◌}
use ai_agent_platform.Base.Lists.{keep_where}
use ai_agent_platform.Base.Queries.{insert_by, sort_by, join}

module _ {A : Type 0} where
  insert_by-member :
      (before : A → A → Bool) (x y : A) (xs : List A)
      → Memᴰ y (insert_by before x xs)
      → Memᴰ y (x ∷ xs)
  insert_by-member before x y [] m = m
  insert_by-member before x y (z ∷ zs) m = split (before z x) m (insert_by-member before x y zs)
    where
      second : Memᴰ y (x ∷ zs) → Memᴰ y (x ∷ z ∷ zs)
      second (Memᴰ.head e) = Memᴰ.head e
      second (Memᴰ.tail l) = Memᴰ.tail (Memᴰ.tail l)

      later :
          Memᴰ y (z ∷ insert_by before x zs)
          → (Memᴰ y (insert_by before x zs) → Memᴰ y (x ∷ zs))
          → Memᴰ y (x ∷ z ∷ zs)
      later (Memᴰ.head e) rest = Memᴰ.tail (Memᴰ.head e)
      later (Memᴰ.tail l) rest = second (rest l)

      split :
          (c : Bool)
          → Memᴰ y (if c then z ∷ insert_by before x zs else x ∷ z ∷ zs)
          → (Memᴰ y (insert_by before x zs) → Memᴰ y (x ∷ zs))
          → Memᴰ y (x ∷ z ∷ zs)
      split true l rest = later l rest
      split false l rest = l

  pub sort_by-member :
      (before : A → A → Bool) (y : A) (xs : List A) → Memᴰ y (sort_by before xs) → Memᴰ y xs
  sort_by-member before y [] m = m
  sort_by-member before y (x ∷ xs) m =
      first (insert_by-member before x y (sort_by before xs) m) (sort_by-member before y xs)
    where
      first :
          Memᴰ y (x ∷ sort_by before xs)
          → (Memᴰ y (sort_by before xs) → Memᴰ y xs)
          → Memᴰ y (x ∷ xs)
      first (Memᴰ.head e) rest = Memᴰ.head e
      first (Memᴰ.tail l) rest = Memᴰ.tail (rest l)

  pub keep_where-member :
      (p : A → Bool) (y : A) (xs : List A) → Memᴰ y (keep_where p xs) → Memᴰ y xs × (p y ≡ true)
  keep_where-member p y [] m = elim m [ ]
  keep_where-member p y (x ∷ xs) m = split (p x) refl m (keep_where-member p y xs)
    where
      split :
          (c : Bool)
          → p x ≡ c
          → Memᴰ y (if c then x ∷ keep_where p xs else keep_where p xs)
          → (Memᴰ y (keep_where p xs) → Memᴰ y xs × (p y ≡ true))
          → Memᴰ y (x ∷ xs) × (p y ≡ true)
      split true h (Memᴰ.head e) rest = (Memᴰ.head e, ap p e ∙ h)
      split true h (Memᴰ.tail l) rest = let (k, q) = rest l in (Memᴰ.tail k, q)
      split false h l rest = let (k, q) = rest l in (Memᴰ.tail k, q)

  pub map-member :
      {B : Type 0} (f : A → B) (y : B) (xs : List A)
      → Memᴰ y (map f xs)
      → (x : A) × Memᴰ x xs × (y ≡ f x)
  map-member f y [] m = elim m [ ]
  map-member f y (x ∷ xs) (Memᴰ.head e) = (x, Memᴰ.head refl, e)
  map-member f y (x ∷ xs) (Memᴰ.tail l) = let (z, k, e) = map-member f y xs l in (z, Memᴰ.tail k, e)

  member_append : (y : A) (xs ys : List A) → Memᴰ y (xs ++ ys) → Memᴰ y xs ⊎ Memᴰ y ys
  member_append y [] ys m = inr m
  member_append y (x ∷ xs) ys (Memᴰ.head e) = inl (Memᴰ.head e)
  member_append y (x ∷ xs) ys (Memᴰ.tail l) = elim (member_append y xs ys l) [
    | inl k ↦ inl (Memᴰ.tail k)
    | inr k ↦ inr k
  ]

  pub join-member :
      {B : Type 0} (f : B → List A) (y : A) (xs : List B)
      → Memᴰ y (join f xs)
      → (x : B) × Memᴰ x xs × Memᴰ y (f x)
  join-member f y [] m = elim m [ ]
  join-member f y (x ∷ xs) m = elim (member_append y (f x) (join f xs) m) [
    | inl k ↦ (x, Memᴰ.head refl, k)
    | inr k ↦ let (z, l, q) = join-member f y xs k in (z, Memᴰ.tail l, q)
  ]
