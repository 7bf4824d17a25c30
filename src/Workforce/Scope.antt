-- ===== src/Workforce/Scope.antt =====
-- Which rows the writes of an operation may change: those of one user.
use ai_agent_platform.Base.{
  String, false, ◌≡◌, refl, ◌∙◌, keep_where, find_first, str_eq, ok, ◌>>=◌, >>=-elim,
}
use ai_agent_platform.Directory.{Tables, is_user, is_link_of}
use ai_agent_platform.Workforce.Model.{WorkforceTx}

-- The users other than `target` have the same account row and the same roles.
pub record IsConfined (target : String) (t u : Tables) : Type 0 where
  pub user_other :
      (id : String)
      → str_eq id target ≡ false
      → find_first (is_user id) u.users ≡ find_first (is_user id) t.users
  pub links_other :
      (id : String)
      → str_eq id target ≡ false
      → keep_where (is_link_of id) u.user_roles ≡ keep_where (is_link_of id) t.user_roles
  pub same_roles : u.roles ≡ t.roles

pub IsConfined-refl : (target : String) (t : Tables) → IsConfined target t t
IsConfined-refl target t = record {
  user_other = λ id d. refl;
  links_other = λ id d. refl;
  same_roles = refl;
}

pub IsConfined-trans :
    {target : String} {t u v : Tables}
    → IsConfined target t u
    → IsConfined target u v
    → IsConfined target t v
IsConfined-trans a b = record {
  user_other = λ id d. b.user_other id d ∙ a.user_other id d;
  links_other = λ id d. b.links_other id d ∙ a.links_other id d;
  same_roles = b.same_roles ∙ a.same_roles;
}

-- A step whose success is confined.
pub record Confined {A : Type 0} (target : String) (m : WorkforceTx A) : Type 0 where
  pub at : (t : Tables) {a : A} {u : Tables} → m t ≡ ok (a, u) → IsConfined target t u

pub Confined-bind :
    {A B : Type 0} {target : String} (m : WorkforceTx A) (f : A → WorkforceTx B)
    → Confined target m
    → ((a : A) → Confined target (f a))
    → Confined target (m >>= f)
Confined-bind m f cm cf = record {
  at = λ t h. >>=-elim m f t h λ a t' p q. IsConfined-trans (cm.at t p) ((cf a).at t' q);
}
