-- ===== src/Directory/Links.antt =====
-- Queries of the rows of one user after rows of another were written.
use ai_agent_platform.Base.{
  Bool, true, false, ◌≡◌, refl, List, [], ◌∷◌, ◌++◌, keep_where, delete_where, arith,
}

module _ {A : Type 0} where
  pub keep_where-append :
      (p : A → Bool) (xs ys : List A) → keep_where p (xs ++ ys) ≡ keep_where p xs ++ keep_where p ys
  keep_where-append p [] ys = refl
  keep_where-append p (x ∷ xs) ys = ground (arith, keep_where-append p xs ys)

  pub keep_where-delete_other :
      (p q : A → Bool) (xs : List A)
      → ((x : A) → q x ≡ true → p x ≡ false)
      → keep_where p (delete_where q xs) ≡ keep_where p xs
  keep_where-delete_other p q [] other = refl
  keep_where-delete_other p q (x ∷ xs) other =
      ground (arith, other x, keep_where-delete_other p q xs other)

  pub keep_where-delete_self : (p : A → Bool) (xs : List A) → keep_where p (delete_where p xs) ≡ []
  keep_where-delete_self p [] = refl
  keep_where-delete_self p (x ∷ xs) = ground (arith, keep_where-delete_self p xs)

  pub keep_where-append_other :
      (p : A → Bool) (xs : List A) (x : A)
      → p x ≡ false
      → keep_where p (xs ++ x ∷ []) ≡ keep_where p xs
  keep_where-append_other p [] x h = ground arith
  keep_where-append_other p (y ∷ ys) x h = ground (arith, keep_where-append_other p ys x)
