-- ===== src/Base/Queries.antt =====
-- Joined, distinct and ordered selections, and which values they hold.
use Prim.Native.String.{String}
use mathlib.Core.Path.{◌≡◌, refl, ◌∙◌}
use mathlib.Core.Bool.{◌&&◌, Bool, false, not}
use mathlib.Core.List.{map, List, [], ◌∷◌, ◌++◌}
use native.Mathlib.Omega.{arith}
use text.Mathlib.TextEquality.{eq_iff}
use ai_agent_platform.Base.Tests.{if◌then◌else◌, str_eq}
use ai_agent_platform.Base.Lists.{any, any-append, keep_where}

module _ {A : Type 0} where
  abbrev pub insert_by : (A → A → Bool) → A → List A → List A
  insert_by before x [] = x ∷ []
  insert_by before x (y ∷ ys) =
      let rest = insert_by before x ys in if before y x then y ∷ rest else x ∷ y ∷ ys

  -- `ORDER BY` and `sort`: a stable insertion sort, of which `before` is the order's reflexive test.
  abbrev pub sort_by : (A → A → Bool) → List A → List A
  sort_by before [] = []
  sort_by before (x ∷ xs) = insert_by before x (sort_by before xs)

  any-insert_by :
      (p : A → Bool) (before : A → A → Bool) (x : A) (xs : List A)
      → any p (insert_by before x xs) ≡ any p (x ∷ xs)
  any-insert_by p before x [] = refl
  any-insert_by p before x (y ∷ ys) = ground (arith, any-insert_by p before x ys)

  pub any-sort_by :
      (p : A → Bool) (before : A → A → Bool) (xs : List A) → any p (sort_by before xs) ≡ any p xs
  any-sort_by p before [] = refl
  any-sort_by p before (x ∷ xs) =
      any-insert_by p before x (sort_by before xs) ∙ ground (arith, any-sort_by p before xs)

module _ {A B : Type 0} where
  -- The rows that a join finds for each row.
  abbrev pub join : (A → List B) → List A → List B
  join f [] = []
  join f (x ∷ xs) = f x ++ join f xs

  pub any-join :
      (p : B → Bool) (f : A → List B) (xs : List A) → any p (join f xs) ≡ any (λ x. any p (f x)) xs
  any-join p f [] = refl
  any-join p f (x ∷ xs) = any-append p (f x) (join f xs) ∙ ground (arith, any-join p f xs)

module _ {A : Type 0} where
  pub any-keep_where :
      (p q : A → Bool) (xs : List A) → any p (keep_where q xs) ≡ any (λ x. q x && p x) xs
  any-keep_where p q [] = refl
  any-keep_where p q (x ∷ xs) = ground (arith, any-keep_where p q xs)

  pub any_cong : (p q : A → Bool) (xs : List A) → ((x : A) → p x ≡ q x) → any p xs ≡ any q xs
  any_cong p q [] h = refl
  any_cong p q (x ∷ xs) h = rw (h x, any_cong p q xs h) refl

  pub any-map :
      {B : Type 0} (p : B → Bool) (f : A → B) (xs : List A)
      → any p (map f xs) ≡ any (λ x. p (f x)) xs
  any-map p f [] = refl
  any-map p f (x ∷ xs) = ground (arith, any-map p f xs)

-- `new Set`: the first of equal texts is kept.
abbrev pub distinct : List String → List String
distinct [] = []
distinct (x ∷ xs) = x ∷ keep_where (λ y. not (str_eq x y)) (distinct xs)

any-keep_other :
    (k x : String) (ys : List String)
    → str_eq k x ≡ false
    → any (str_eq k) (keep_where (λ y. not (str_eq x y)) ys) ≡ any (str_eq k) ys
any-keep_other k x [] h = refl
any-keep_other k x (y ∷ ys) h =
    ground (arith, any-keep_other k x ys h, eq_iff k x, eq_iff k y, eq_iff x y)

pub any-distinct :
    (k : String) (xs : List String) → any (str_eq k) (distinct xs) ≡ any (str_eq k) xs
any-distinct k [] = refl
any-distinct k (x ∷ xs) = ground (arith, any-distinct k xs, any-keep_other k x (distinct xs))
