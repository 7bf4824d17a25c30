-- ===== src/Workforce/Effects.antt =====
-- What a request changes: one account, whose sessions end with its privileges.
use ai_agent_platform.Base.{String, Bool, true, false, ◌≡◌, refl, str_eq, ok, ◌⊎◌, inl, inr}
use ai_agent_platform.Identity.{Realm}
use ai_agent_platform.Access.Service.{require_permission}
use ai_agent_platform.Access.Session.{Value}
use ai_agent_platform.Directory.{Tables, access_view}
use ai_agent_platform.Workforce.Model.{WorkforceRole, WorkforceTx, parse_role}
use ai_agent_platform.Workforce.Repository.{find_user, list_roles, roles_from}
use ai_agent_platform.Workforce.Service.{
  with_role, Texts, sensitive, create_user, set_role, add_role, remove_role, disable_user,
  reactivate_user, replace_temporary_password, create_user_tx, set_role_tx, add_role_tx,
  remove_role_tx, disable_user_tx, reactivate_user_tx, replace_temporary_password_tx,
}
use ai_agent_platform.Workforce.Mutations.{
  Mutation, create, set, add, remove, disable, reactivate, replace, mutate, actor-keeps, role-keeps,
}
use ai_agent_platform.Workforce.Scope.{IsConfined, IsConfined-refl}
use ai_agent_platform.Workforce.Operations.{
  IsSignedOut, create_user_tx-IsManaged, set_role_tx-IsManaged, add_role_tx-IsManaged,
  remove_role_tx-IsManaged, disable_user_tx-IsManaged, reactivate_user_tx-IsManaged,
  replace_temporary_password_tx-IsManaged,
}

-- The account that a request is about; a new account has the id that the database draws.
abbrev pub subject : Mutation → String
subject (create fresh input) = fresh
subject (set id role) = id
subject (add id role) = id
subject (remove id role) = id
subject (disable id) = id
subject (reactivate id) = id
subject (replace id password) = id

-- Whether a request takes privileges or the password from an account, or gives it other ones.
abbrev pub changes_privileges : Mutation → Bool
changes_privileges (create fresh input) = false
changes_privileges (reactivate id) = false
changes_privileges _ = true

-- A property of the tables that are left, which holds of the present ones.
module _ (P : Tables → Type 0) (texts : Texts) (session : Realm → Value) (t : Tables)
    (h : P t) where
  after_work :
      {A : Type 0} (permission : String) (work : String → WorkforceTx A)
      → ((actor : String) (a : A) (u : Tables) → work actor t ≡ ok (a, u) → P u)
      → P (sensitive texts session permission work t).1
  after_work permission work k =
      actor-keeps P (require_permission session (access_view t) permission) work t
        (λ actor a u e q. k actor a u e) h

  after_role :
      {A : Type 0} (permission role : String) (work : WorkforceRole → String → WorkforceTx A)
      → ((r : WorkforceRole) (actor : String) (a : A) (u : Tables)
          → work r actor t ≡ ok (a, u)
          → P u)
      → P (with_role (parse_role role) (λ r. sensitive texts session permission (work r)) t).1
  after_role permission role work k =
      role-keeps P (parse_role role) (λ r. sensitive texts session permission (work r)) t
        (λ r q. after_work permission (work r) (k r)) h

mutate-IsConfined :
    (texts : Texts) (session : Realm → Value) (t : Tables) (m : Mutation)
    → IsConfined (subject m) t (mutate texts session m t)
unfolding mutate create_user set_role add_role remove_role disable_user reactivate_user
    replace_temporary_password
mutate-IsConfined texts session t (create fresh input) =
    after_role (IsConfined fresh t) texts session t (IsConfined-refl fresh t) "admin:users"
      input.initial_role (create_user_tx texts fresh input)
      (λ r actor a u e. (create_user_tx-IsManaged texts fresh input r actor t e).0)
mutate-IsConfined texts session t (set id role) =
    after_role (IsConfined id t) texts session t (IsConfined-refl id t) "admin:roles" role
      (set_role_tx id) (λ r actor a u e. (set_role_tx-IsManaged id r actor t e).0.confined)
mutate-IsConfined texts session t (add id role) =
    after_role (IsConfined id t) texts session t (IsConfined-refl id t) "admin:roles" role
      (add_role_tx id) (λ r actor a u e. (add_role_tx-IsManaged id r actor t e).0.confined)
mutate-IsConfined texts session t (remove id role) =
    after_role (IsConfined id t) texts session t (IsConfined-refl id t) "admin:roles" role
      (remove_role_tx id) (λ r actor a u e. (remove_role_tx-IsManaged id r actor t e).0.confined)
mutate-IsConfined texts session t (disable id) =
    after_work (IsConfined id t) texts session t (IsConfined-refl id t) "admin:users"
      (disable_user_tx id) (λ actor a u e. (disable_user_tx-IsManaged id actor t e).0.confined)
mutate-IsConfined texts session t (reactivate id) =
    after_work (IsConfined id t) texts session t (IsConfined-refl id t) "admin:users"
      (reactivate_user_tx id) (λ actor a u e. (reactivate_user_tx-IsManaged id actor t e).confined)
mutate-IsConfined texts session t (replace id password) =
    after_work (IsConfined id t) texts session t (IsConfined-refl id t) "admin:users"
      (replace_temporary_password_tx id (texts.hash_password password))
      (λ actor a u e.
        (replace_temporary_password_tx-IsManaged id (texts.hash_password password) actor t
          e).0.confined)

-- A request leaves the account row and the roles of every other account as they are.
pub mutate-keeps_others :
    (texts : Texts) (session : Realm → Value) (t : Tables) (m : Mutation) (id : String)
    → str_eq id (subject m) ≡ false
    → (find_user (mutate texts session m t) id ≡ find_user t id)
      × (list_roles (mutate texts session m t) id ≡ list_roles t id)
unfolding list_roles
mutate-keeps_others texts session t m id d =
    let c = mutate-IsConfined texts session t m in
    (c.user_other id d, λ i. roles_from (c.same_roles i) (c.links_other id d i))

-- A request that sets, adds or removes a role, disables an account or replaces its password either
-- changes nothing at all or leaves the account without a session.
pub mutate-signs_out :
    (texts : Texts) (session : Realm → Value) (t : Tables) (m : Mutation)
    → changes_privileges m ≡ true
    → (mutate texts session m t ≡ t) ⊎ IsSignedOut (subject m) (mutate texts session m t)
unfolding mutate create_user set_role add_role remove_role disable_user reactivate_user
    replace_temporary_password
mutate-signs_out texts session t (create fresh input) h = cc
mutate-signs_out texts session t (set id role) h =
    after_role (λ v. (v ≡ t) ⊎ IsSignedOut id v) texts session t (inl refl) "admin:roles" role
      (set_role_tx id) (λ r actor a u e. inr (set_role_tx-IsManaged id r actor t e).2)
mutate-signs_out texts session t (add id role) h =
    after_role (λ v. (v ≡ t) ⊎ IsSignedOut id v) texts session t (inl refl) "admin:roles" role
      (add_role_tx id) (λ r actor a u e. inr (add_role_tx-IsManaged id r actor t e).2)
mutate-signs_out texts session t (remove id role) h =
    after_role (λ v. (v ≡ t) ⊎ IsSignedOut id v) texts session t (inl refl) "admin:roles" role
      (remove_role_tx id) (λ r actor a u e. inr (remove_role_tx-IsManaged id r actor t e).2)
mutate-signs_out texts session t (disable id) h =
    after_work (λ v. (v ≡ t) ⊎ IsSignedOut id v) texts session t (inl refl) "admin:users"
      (disable_user_tx id) (λ actor a u e. inr (disable_user_tx-IsManaged id actor t e).1)
mutate-signs_out texts session t (reactivate id) h = cc
mutate-signs_out texts session t (replace id password) h =
    after_work (λ v. (v ≡ t) ⊎ IsSignedOut id v) texts session t (inl refl) "admin:users"
      (replace_temporary_password_tx id (texts.hash_password password))
      (λ actor a u e.
        inr (replace_temporary_password_tx-IsManaged id (texts.hash_password password) actor t e).1)
