-- ===== src/Workforce/Repository.antt =====
-- apps/web/src/server/admin/users.ts: the statements of `createDrizzleMutationRepository`. A row's
-- `id` is given by the caller, as the database draws it.
use Prim.Native.String.{◌++◌ as text_append}
use ai_agent_platform.Base.{
  ℕ, String, Bool, true, ◌&&◌, Option, none, some, str_eq, List, [], ◌∷◌, ◌++◌, find_first,
  keep_where, delete_where, update_where, join, length, ok, err, ◌>>◌,
}
use ai_agent_platform.Identity.{workforce, is_workforce, in_scope, UserStatus, is_active}
use ai_agent_platform.Access.Repository.{RoleRow, UserRoleRow}
use ai_agent_platform.Access.Entitlement.{is_entitled}
use ai_agent_platform.Directory.{
  Tables, UserRow, AccountRow, access_view, is_user, is_link_of, is_session_of, insert_user,
  insert_account, insert_link,
}
use ai_agent_platform.Workforce.Model.{
  WorkforceRole, role_name, parse_role, WorkforceTarget, WorkforceTx, error, unique_violation,
  Failure,
}

abbrev pub find_user : Tables → String → Option UserRow
find_user t id = find_first (is_user id) t.users

abbrev bind_role : Option RoleRow → Option WorkforceRole
bind_role none = none
bind_role (some r) = parse_role r.name

-- The role of the first row of the outer join, whatever its scope.
abbrev first_role : Tables → Option UserRoleRow → Option WorkforceRole
first_role t none = none
first_role t (some l) = bind_role (find_first (λ (r : RoleRow). str_eq r.id l.role_id) t.roles)

abbrev pub target_of : Tables → UserRow → WorkforceTarget
target_of t u = record {
  id = u.id;
  realm = u.realm;
  status = u.status;
  role = first_role t (find_first (is_link_of u.id) t.user_roles);
}

abbrev pub targeted : Tables → Option UserRow → Option WorkforceTarget
targeted t none = none
targeted t (some u) = some (target_of t u)

unfoldable pub find_target : Tables → String → Option WorkforceTarget
find_target t id = targeted t (find_user t id)

-- The roles of a name that a link leads to, whatever their scope.
abbrev named_roles : Tables → String → UserRoleRow → List RoleRow
named_roles t name l =
    keep_where (λ (r : RoleRow). str_eq r.id l.role_id && str_eq r.name name) t.roles

unfoldable pub count_active_super_admins : Tables → ℕ
count_active_super_admins t = length (
    join
      (λ (u : UserRow).
        join (named_roles t "super_admin") (keep_where (is_link_of u.id) t.user_roles))
      (keep_where (λ (u : UserRow). is_workforce u.realm && is_active u.status) t.users))

-- The statement asks neither for the user's realm nor for their status.
unfoldable pub has_permission : Tables → String → String → Bool
unfolding is_entitled
has_permission t user_id permission = is_entitled (access_view t) user_id workforce permission

unfoldable pub create_workforce_identity :
    (String → String) → UserRow → String → WorkforceTx (Unit {0})
create_workforce_identity lower u password_hash = do
  insert_user unique_violation lower u
  insert_account (unique_violation "accounts_provider_id_account_id_unique") (record {
    account_id = u.id;
    provider_id = "credential";
    user_id = u.id;
    password = password_hash;
  })

abbrev pub is_workforce_role : WorkforceRole → RoleRow → Bool
is_workforce_role role r = str_eq r.name (role_name role) && in_scope r.realm_scope workforce

abbrev missing_role : WorkforceRole → Failure
missing_role role = error (text_append "Missing workforce role: " (role_name role))

abbrev pub link : String → RoleRow → String → UserRoleRow
link user_id r assigned_by = record {
  user_id = user_id;
  role_id = r.id;
  assigned_by = some assigned_by;
}

-- The links of a user are deleted, and the one of the role is inserted.
abbrev pub relinked : String → RoleRow → String → Tables → Tables
relinked user_id r assigned_by t = record t {
  user_roles = delete_where (is_link_of user_id) t.user_roles ++ link user_id r assigned_by ∷ [];
}

unfoldable pub assign_only_role : String → WorkforceRole → String → WorkforceTx (Unit {0})
assign_only_role user_id role assigned_by t = elim (find_first (is_workforce_role role) t.roles) [
  | none ↦ err (missing_role role)
  | some r ↦ ok (tt, relinked user_id r assigned_by t)
]

-- The roles of the workforce that a link leads to.
abbrev pub roles_of_link : List RoleRow → UserRoleRow → List RoleRow
roles_of_link roles l =
    keep_where (λ (r : RoleRow). str_eq r.id l.role_id && in_scope r.realm_scope workforce) roles

abbrev to_list : Option WorkforceRole → List WorkforceRole
to_list none = []
to_list (some r) = r ∷ []

abbrev pub roles_from : List RoleRow → List UserRoleRow → List WorkforceRole
roles_from roles links =
    join (λ (r : RoleRow). to_list (parse_role r.name)) (join (roles_of_link roles) links)

unfoldable pub list_roles : Tables → String → List WorkforceRole
list_roles t user_id = roles_from t.roles (keep_where (is_link_of user_id) t.user_roles)

unfoldable pub add_role_link : String → WorkforceRole → String → WorkforceTx (Unit {0})
unfolding insert_link
add_role_link user_id role assigned_by t = elim (find_first (is_workforce_role role) t.roles) [
  | none ↦ err (missing_role role)
  | some r ↦
      insert_link (unique_violation "user_roles_user_id_role_id_unique")
        (link user_id r assigned_by) t
]

unfoldable pub remove_role_link : String → WorkforceRole → WorkforceTx (Unit {0})
remove_role_link user_id role t = elim (find_first (is_workforce_role role) t.roles) [
  | none ↦ err (missing_role role)
  | some r ↦ ok (
    tt,
    record t {
      user_roles =
          delete_where (λ (l : UserRoleRow). is_link_of user_id l && str_eq l.role_id r.id)
            t.user_roles;
    },
  )
]

unfoldable pub set_status : String → UserStatus → WorkforceTx (Unit {0})
set_status user_id status t = ok (
  tt,
  record t {
    users = update_where (is_user user_id) (λ (u : UserRow). record u { status = status }) t.users;
  },
)

abbrev is_credential_of : String → AccountRow → Bool
is_credential_of user_id a = str_eq a.user_id user_id && str_eq a.provider_id "credential"

unfoldable pub replace_password : String → String → WorkforceTx (Unit {0})
replace_password user_id password_hash t = ok (
  tt,
  record t {
    accounts =
        update_where (is_credential_of user_id)
          (λ (a : AccountRow). record a { password = password_hash }) t.accounts;
    users =
        update_where (is_user user_id) (λ (u : UserRow). record u { must_change_password = true })
          t.users;
  },
)

unfoldable pub revoke_sessions : String → WorkforceTx (Unit {0})
revoke_sessions user_id t =
    ok (tt, record t { sessions = delete_where (is_session_of user_id) t.sessions })
