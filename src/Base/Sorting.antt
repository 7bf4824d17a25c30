-- ===== src/Base/Sorting.antt =====
-- What an ordered selection keeps: how many rows satisfy a condition, and a descending key.
use Prim.Native.Nat.{ℕ, ◌≤◌, suc, zero}
use mathlib.Core.Path.{◌≡◌, refl, ap, ◌∙◌}
use mathlib.Core.Bool.{◌&&◌, Bool, true, false}
use mathlib.Core.List.{map, List, [], ◌∷◌}
use native.Mathlib.Omega.{arith}
use ai_agent_platform.Base.Tests.{if◌then◌else◌}
use ai_agent_platform.Base.Lists.{count_where, keep_where, length, take}
use ai_agent_platform.Base.Queries.{insert_by, sort_by}

none_left : (n : ℕ) → ¬ (suc n ≤ 0)
none_left n h = omega (arith, h)

module _ {A : Type 0} where
  count_where-insert_by :
      (p : A → Bool) (before : A → A → Bool) (x : A) (xs : List A)
      → count_where p (insert_by before x xs) ≡ count_where p (x ∷ xs)
  count_where-insert_by p before x [] = refl
  count_where-insert_by p before x (y ∷ ys) = ground (arith, count_where-insert_by p before x ys)

  pub count_where-sort_by :
      (p : A → Bool) (before : A → A → Bool) (xs : List A)
      → count_where p (sort_by before xs) ≡ count_where p xs
  count_where-sort_by p before [] = refl
  count_where-sort_by p before (x ∷ xs) =
      count_where-insert_by p before x (sort_by before xs)
      ∙ ground (arith, count_where-sort_by p before xs)

  pub count_where-keep_where :
      (p q : A → Bool) (xs : List A)
      → count_where p (keep_where q xs) ≡ count_where (λ x. q x && p x) xs
  count_where-keep_where p q [] = refl
  count_where-keep_where p q (x ∷ xs) = ground (arith, count_where-keep_where p q xs)

  pub count_where_cong :
      (p q : A → Bool) (xs : List A) → ((x : A) → p x ≡ q x) → count_where p xs ≡ count_where q xs
  count_where_cong p q [] h = refl
  count_where_cong p q (x ∷ xs) h = ground (arith, h x, count_where_cong p q xs h)

  pub count_where-map :
      {B : Type 0} (p : B → Bool) (f : A → B) (xs : List A)
      → count_where p (map f xs) ≡ count_where (λ x. p (f x)) xs
  count_where-map p f [] = refl
  count_where-map p f (x ∷ xs) = ground (arith, count_where-map p f xs)

  pub length-eq-count_where : (xs : List A) → length xs ≡ count_where (λ _. true) xs
  length-eq-count_where [] = refl
  length-eq-count_where (x ∷ xs) = ground (arith, length-eq-count_where xs)

  pub take_all : (n : ℕ) (xs : List A) → length xs ≤ n → take n xs ≡ xs
  take_all zero [] h = refl
  take_all zero (x ∷ xs) h = absurd (none_left (length xs) h)
  take_all (suc n) [] h = refl
  take_all (suc n) (x ∷ xs) h = ap (λ l. x ∷ l) (take_all n xs (omega (arith, h)))

module _ {A : Type 0} (key : A → ℕ) where
  -- No key is above the bound.
  abbrev pub IsBelow : ℕ → List A → Type 0
  IsBelow k [] = Unit
  IsBelow k (x ∷ xs) = (key x ≤ k) × IsBelow k xs

  -- No key is above one before it.
  abbrev pub IsDescending : List A → Type 0
  IsDescending [] = Unit
  IsDescending (x ∷ xs) = IsBelow (key x) xs × IsDescending xs

  pub IsBelow-mono : (k m : ℕ) (xs : List A) → k ≤ m → IsBelow k xs → IsBelow m xs
  IsBelow-mono k m [] h b = tt
  IsBelow-mono k m (x ∷ xs) h (a, b) = (omega (arith, a, h), IsBelow-mono k m xs h b)

  module _ (before : A → A → Bool)
      (ordered : (x y : A)
        → (before y x ≡ true → key x ≤ key y) × (before y x ≡ false → key y ≤ key x)) where
    insert_by-IsBelow :
        (k : ℕ) (x : A) (xs : List A) → key x ≤ k → IsBelow k xs → IsBelow k (insert_by before x xs)
    insert_by-IsBelow k x [] h b = (h, tt)
    insert_by-IsBelow k x (y ∷ ys) h (a, b) = split (before y x) (insert_by-IsBelow k x ys h b)
      where
        split :
            (c : Bool)
            → IsBelow k (insert_by before x ys)
            → IsBelow k (if c then y ∷ insert_by before x ys else x ∷ y ∷ ys)
        split true rest = (a, rest)
        split false rest = (h, (a, b))

    insert_by-IsDescending :
        (x : A) (xs : List A) → IsDescending xs → IsDescending (insert_by before x xs)
    insert_by-IsDescending x [] d = (tt, tt)
    insert_by-IsDescending x (y ∷ ys) (b, d) =
        split (before y x) refl (insert_by-IsDescending x ys d)
      where
        split :
            (c : Bool)
            → before y x ≡ c
            → IsDescending (insert_by before x ys)
            → IsDescending (if c then y ∷ insert_by before x ys else x ∷ y ∷ ys)
        split true e rest = (insert_by-IsBelow (key y) x ys ((ordered x y).0 e) b, rest)
        split false e rest =
            let least : key y ≤ key x = (ordered x y).1 e in
            ((least, IsBelow-mono (key y) (key x) ys least b), (b, d))

    pub sort_by-IsDescending : (xs : List A) → IsDescending (sort_by before xs)
    sort_by-IsDescending [] = tt
    sort_by-IsDescending (x ∷ xs) =
        insert_by-IsDescending x (sort_by before xs) (sort_by-IsDescending xs)

module _ {A B : Type 0} (key : A → ℕ) (key' : B → ℕ) (f : A → B)
    (same : (x : A) → key' (f x) ≡ key x) where
  map-IsBelow : (k : ℕ) (xs : List A) → IsBelow key k xs → IsBelow key' k (map f xs)
  map-IsBelow k [] b = tt
  map-IsBelow k (x ∷ xs) (a, b) = (omega (arith, a, same x), map-IsBelow k xs b)

  pub map-IsDescending : (xs : List A) → IsDescending key xs → IsDescending key' (map f xs)
  map-IsDescending [] d = tt
  map-IsDescending (x ∷ xs) (b, d) = (
    map-IsBelow (key' (f x)) xs
        (IsBelow-mono key (key x) (key' (f x)) xs (omega (arith, same x)) b),
    map-IsDescending xs d,
  )
