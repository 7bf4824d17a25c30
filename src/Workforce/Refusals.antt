-- ===== src/Workforce/Refusals.antt =====
-- What an administrator who is no super administrator cannot do.
use ai_agent_platform.Directory.Acting.{with_actor}
use ai_agent_platform.Base.{
  ◌||◌, String, Bool, true, false, ◌≡◌, refl, ap, ◌∙◌, arith, ok, Option, none, some,
}
use ai_agent_platform.Identity.{Realm}
use ai_agent_platform.Access.Session.{Value}
use ai_agent_platform.Access.Service.{require_permission}
use ai_agent_platform.Access.Model.{WorkforceActor}
use ai_agent_platform.Directory.{access_view, Tables}
use ai_agent_platform.Workforce.Model.{
  access_error, parse_role, WorkforceRole, is_privileged, WorkforceTx,
}
use ai_agent_platform.Workforce.Service.{
  create_user_tx, set_role_tx, add_role_tx, remove_role_tx, disable_user_tx, reactivate_user_tx,
  replace_temporary_password_tx, with_role, create_user, set_role, add_role, remove_role,
  disable_user, reactivate_user, replace_temporary_password, Texts, sensitive,
}
use ai_agent_platform.Workforce.Guards.{has_super_admin, has_privilege}
use ai_agent_platform.Workforce.Operations.{
  create_user_tx-IsManaged, set_role_tx-IsManaged, add_role_tx-IsManaged, remove_role_tx-IsManaged,
  disable_user_tx-IsManaged, reactivate_user_tx-IsManaged, replace_temporary_password_tx-IsManaged,
  IsManaged, IsGrant,
}
use ai_agent_platform.Workforce.Mutations.{
  mutate, role-keeps, Mutation, create, set, add, remove, disable, reactivate, replace,
  transaction-keeps,
}

abbrev names_privilege : Option WorkforceRole → Bool
names_privilege none = false
names_privilege (some r) = is_privileged r

-- The permission that a request asks for.
abbrev pub permission_of : Mutation → String
permission_of (create fresh input) = "admin:users"
permission_of (set id role) = "admin:roles"
permission_of (add id role) = "admin:roles"
permission_of (remove id role) = "admin:roles"
permission_of (disable id) = "admin:users"
permission_of (reactivate id) = "admin:users"
permission_of (replace id password) = "admin:users"

-- Whether a request is about an account with a privileged role, or names one.
unfoldable pub is_about_privilege : Tables → Mutation → Bool
is_about_privilege t (create fresh input) = names_privilege (parse_role input.initial_role)
is_about_privilege t (set id role) = has_privilege t id || names_privilege (parse_role role)
is_about_privilege t (add id role) = has_privilege t id || names_privilege (parse_role role)
is_about_privilege t (remove id role) = has_privilege t id || names_privilege (parse_role role)
is_about_privilege t (disable id) = has_privilege t id
is_about_privilege t (reactivate id) = has_privilege t id
is_about_privilege t (replace id password) = has_privilege t id

refused_managed :
    {actor target : String} {t u v : Tables}
    → IsManaged actor target t u
    → has_super_admin t actor ≡ false
    → has_privilege t target ≡ true
    → v ≡ t
refused_managed m s p = ground (arith, m.protected)

refused_granted :
    {actor target : String} {t u v : Tables} (role : Option WorkforceRole) (r : WorkforceRole)
    → IsManaged actor target t u
    → IsGrant actor r t
    → role ≡ some r
    → has_super_admin t actor ≡ false
    → (has_privilege t target || names_privilege role) ≡ true
    → v ≡ t
refused_granted role r m g q s p = ground (arith, m.protected, g, ap names_privilege q)

module _ (texts : Texts) (session : Realm → Value) (t : Tables) (a : WorkforceActor) where
  sensitive-refused :
      {A : Type 0} (permission : String) (work : String → WorkforceTx A)
      → require_permission session (access_view t) permission ≡ ok a
      → ((x : A) (u v : Tables) → work a.user_id t ≡ ok (x, u) → v ≡ t)
      → (sensitive texts session permission work t).1 ≡ t
  sensitive-refused permission work p k =
      ap (λ r. (with_actor access_error r work t).1) p
      ∙ transaction-keeps (λ v. v ≡ t) (work a.user_id) t (λ x u e q. k x u u e) refl

  module _ (s : has_super_admin t a.user_id ≡ false) where
    refused_role :
        (permission id role : String) (work : WorkforceRole → String → WorkforceTx (Unit {0}))
        → require_permission session (access_view t) permission ≡ ok a
        → (has_privilege t id || names_privilege (parse_role role)) ≡ true
        → ((r : WorkforceRole) (x : Unit {0}) (u : Tables)
            → work r a.user_id t ≡ ok (x, u)
            → IsManaged a.user_id id t u × IsGrant a.user_id r t)
        → (with_role (parse_role role) (λ r. sensitive texts session permission (work r)) t).1 ≡ t
    refused_role permission id role work p about k =
        role-keeps (λ v. v ≡ t) (parse_role role) (λ r. sensitive texts session permission (work r))
          t
          (λ r q. sensitive-refused permission (work r) p (λ x u v e.
            let (m, g) = k r x u e in refused_granted (parse_role role) r m g q s about))
          refl

    refused_account :
        (permission id : String) (work : String → WorkforceTx (Unit {0}))
        → require_permission session (access_view t) permission ≡ ok a
        → has_privilege t id ≡ true
        → ((x : Unit {0}) (u : Tables) → work a.user_id t ≡ ok (x, u) → IsManaged a.user_id id t u)
        → (sensitive texts session permission work t).1 ≡ t
    refused_account permission id work p about k =
        sensitive-refused permission work p (λ x u v e. refused_managed (k x u e) s about)

-- A request that is about an account with a privileged role (admin or super_admin), or that names a
-- privileged role, changes no table when the account whose session passes the permission check has
-- not the role super_admin.
pub mutate-eq_of_privilege :
    (texts : Texts) (session : Realm → Value) (t : Tables) (m : Mutation) (a : WorkforceActor)
    → require_permission session (access_view t) (permission_of m) ≡ ok a
    → has_super_admin t a.user_id ≡ false
    → is_about_privilege t m ≡ true
    → mutate texts session m t ≡ t
unfolding mutate is_about_privilege create_user set_role add_role remove_role disable_user
    reactivate_user replace_temporary_password
mutate-eq_of_privilege texts session t (create fresh input) a p s about =
    role-keeps (λ v. v ≡ t) (parse_role input.initial_role)
      (λ r. sensitive texts session "admin:users" (create_user_tx texts fresh input r)) t
      (λ r q.
        sensitive-refused texts session t a "admin:users" (create_user_tx texts fresh input r) p
          (λ x u v e.
            let (c, g, w, n) = create_user_tx-IsManaged texts fresh input r a.user_id t e in
            ground (arith, g, ap names_privilege q)))
      refl
mutate-eq_of_privilege texts session t (set id role) a p s about =
    refused_role texts session t a s "admin:roles" id role (set_role_tx id) p about
      (λ r x u e. let (m, g, o) = set_role_tx-IsManaged id r a.user_id t e in (m, g))
mutate-eq_of_privilege texts session t (add id role) a p s about =
    refused_role texts session t a s "admin:roles" id role (add_role_tx id) p about
      (λ r x u e. let (m, g, o) = add_role_tx-IsManaged id r a.user_id t e in (m, g))
mutate-eq_of_privilege texts session t (remove id role) a p s about =
    refused_role texts session t a s "admin:roles" id role (remove_role_tx id) p about
      (λ r x u e. let (m, g, o) = remove_role_tx-IsManaged id r a.user_id t e in (m, g))
mutate-eq_of_privilege texts session t (disable id) a p s about =
    refused_account texts session t a s "admin:users" id (disable_user_tx id) p about
      (λ x u e. (disable_user_tx-IsManaged id a.user_id t e).0)
mutate-eq_of_privilege texts session t (reactivate id) a p s about =
    refused_account texts session t a s "admin:users" id (reactivate_user_tx id) p about
      (λ x u e. reactivate_user_tx-IsManaged id a.user_id t e)
mutate-eq_of_privilege texts session t (replace id password) a p s about =
    refused_account texts session t a s "admin:users" id
      (replace_temporary_password_tx id (texts.hash_password password)) p about
      (λ x u e.
        (replace_temporary_password_tx-IsManaged id (texts.hash_password password) a.user_id t e).0)
