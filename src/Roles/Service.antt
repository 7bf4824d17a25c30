-- ===== src/Roles/Service.antt =====
-- apps/web/src/server/admin/roles.ts: `createRolePermissionService` and the statements of its
-- transaction, which an advisory lock runs one by one.
use ai_agent_platform.Directory.Acting.{with_actor}
use ai_agent_platform.Base.{
  String, Bool, true, false, not, ◌&&◌, Option, none, some, List, [], ◌∷◌, ◌++◌, str_eq, ◌==◌,
  if◌then◌else◌, any, map, join, length, find_first, keep_where, delete_where, sort_by, distinct,
  trim, is_empty, ok, err, Result, Tx, ◌>>=◌, ◌>>◌, throw_if,
}
use ai_agent_platform.Identity.{Realm, workforce, in_scope, is_workforce, is_active}
use ai_agent_platform.Access.Model.{AuthAccessError}
use ai_agent_platform.Access.Session.{Value}
use ai_agent_platform.Access.Repository.{
  RoleRow, UserRoleRow, PermissionRow, RolePermissionRow, str_leb,
}
use ai_agent_platform.Access.Service.{require_permission}
use ai_agent_platform.Directory.{
  Tables, UserRow, AuditRow, number_value, access_view, is_user, is_link_of, is_permitted,
  insert_audit,
}

pub data RoleErrorCode : Type 0 where
  permission_denied realm_invalid role_not_found : RoleErrorCode
  permission_non_delegable super_admin_required super_admin_baseline_required : RoleErrorCode

pub data Failure : Type 0 where
  role_error : RoleErrorCode → Failure
  access_error : AuthAccessError → Failure

abbrev pub RoleTx : Type 0 → Type 0
RoleTx A = Tx Tables Failure A

-- The keys, trimmed, each once, none blank, in order.
unfoldable pub normalized : List String → List String
normalized keys = sort_by str_leb (keep_where (λ k. not (is_empty k)) (distinct (map trim keys)))

pub data PrivilegedRole : Type 0 where
  admin super_admin : PrivilegedRole

unfoldable pub resolve_privileged_actor_role : List String → Option PrivilegedRole
resolve_privileged_actor_role names =
    if any (str_eq "super_admin") names
    then some super_admin
    else if any (str_eq "admin") names
    then some admin
    else none

abbrev pub is_super_admin : Option PrivilegedRole → Bool
is_super_admin (some super_admin) = true
is_super_admin (some admin) = false
is_super_admin none = false

abbrev pub names_of : Tables → UserRoleRow → List String
names_of t l =
    map (λ (r : RoleRow). r.name)
      (keep_where (λ (r : RoleRow). str_eq r.id l.role_id && in_scope r.realm_scope workforce)
        t.roles)

-- The names of the user's roles of the workforce; none unless the user is an active one of it.
unfoldable pub role_names : Tables → String → List String
role_names t user_id =
    if any (λ (u : UserRow). is_user user_id u && (is_workforce u.realm && is_active u.status))
      t.users
    then join (names_of t) (keep_where (is_link_of user_id) t.user_roles)
    else []

unfoldable pub find_actor_role : Tables → String → Option PrivilegedRole
find_actor_role t user_id = resolve_privileged_actor_role (role_names t user_id)

abbrev pub role_found : Option RoleRow → RoleTx RoleRow
role_found none t = err (role_error role_not_found)
role_found (some r) t =
    if not (in_scope r.realm_scope workforce) then err (role_error realm_invalid) else ok (r, t)

unfoldable pub lock_role : String → RoleTx RoleRow
lock_role id t = role_found (find_first (λ (r : RoleRow). str_eq r.id id) t.roles) t

unfoldable pub check_actor : String → RoleTx (Unit {0})
check_actor user_id t =
    if not (is_permitted t user_id "admin:roles")
    then err (role_error permission_denied)
    else throw_if (not (is_super_admin (find_actor_role t user_id)))
        (role_error super_admin_required) t

-- Documents are deleted by super administrators only.
abbrev pub delegates : RoleRow → List String → Bool
delegates role keys = not (str_eq role.name "super_admin") && any (str_eq "admin:docs:delete") keys

abbrev pub lacks_baseline : RoleRow → List String → Bool
lacks_baseline role keys =
    str_eq role.name "super_admin"
    && not (any (str_eq "admin:roles") keys && any (str_eq "admin:docs:delete") keys)

-- The permissions of the keys, in the order of their ids.
unfoldable pub requested : List String → Tables → List PermissionRow
requested keys t =
    sort_by (λ (a b : PermissionRow). str_leb a.id b.id)
      (keep_where (λ (p : PermissionRow). any (str_eq p.key) keys) t.permissions)

abbrev pub ids_of : List PermissionRow → List String
ids_of ps = map (λ (p : PermissionRow). p.id) ps

abbrev pub is_grant : String → String → RolePermissionRow → Bool
is_grant role_id permission_id l = str_eq l.role_id role_id && str_eq l.permission_id permission_id

-- The role's links to other permissions than those of the ids are deleted.
abbrev pub is_dropped : String → List String → RolePermissionRow → Bool
is_dropped role_id ids l = str_eq l.role_id role_id && not (any (str_eq l.permission_id) ids)

-- `INSERT … ON CONFLICT (role_id, permission_id) DO NOTHING`, a row for each id.
abbrev pub insert_grants : String → List String → List RolePermissionRow → List RolePermissionRow
insert_grants role_id [] links = links
insert_grants role_id (id ∷ ids) links = insert_grants role_id ids (
    if any (is_grant role_id id) links
    then links
    else links ++ record { role_id = role_id; permission_id = id } ∷ [])

abbrev pub granted : String → List String → Tables → Tables
granted role_id ids t = record t {
  role_permissions =
      insert_grants role_id ids (delete_where (is_dropped role_id ids) t.role_permissions);
}

unfoldable pub replace_role_permissions : String → List String → RoleTx (Unit {0})
unfolding requested
replace_role_permissions role_id keys t =
    if not (length (requested keys t) == length keys)
    then err (role_error permission_denied)
    else ok (tt, granted role_id (ids_of (requested keys t)) t)

abbrev pub audit_row : String → String → List String → AuditRow
audit_row actor role_id keys = record {
  actor_realm = workforce;
  actor_user_id = actor;
  action = "role.permissions_changed";
  target_type = "role";
  target_id = role_id;
  metadata = ("permissionCount", number_value (length keys)) ∷ [];
  ip_address = none;
  user_agent = none;
}

unfoldable pub replace_tx : String → List String → String → RoleTx (Unit {0})
replace_tx role_id keys actor = do
  check_actor actor
  role ← lock_role role_id
  throw_if (delegates role keys) (role_error permission_non_delegable)
  throw_if (lacks_baseline role keys) (role_error super_admin_baseline_required)
  replace_role_permissions role_id keys
  insert_audit (audit_row actor role_id keys)

unfoldable pub replace_permissions :
    (Realm → Value) → String → List String → Tables → Result Failure (Unit {0}) × Tables
unfolding replace_tx normalized
replace_permissions get_session role_id keys t =
    with_actor access_error (require_permission get_session (access_view t) "admin:roles")
      (replace_tx role_id (normalized keys)) t
