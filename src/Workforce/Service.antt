-- ===== src/Workforce/Service.antt =====
-- apps/web/src/server/admin/users.ts: `createWorkforceUserService`. `get_session` is what the
-- authentication library returns for the request; `Texts` has the Unicode normalizations, the
-- database's `lower` and the password hash. The advisory lock runs the transactions one by one.
use ai_agent_platform.Directory.Acting.{with_actor}
use ai_agent_platform.Base.{
  String, Bool, true, false, not, ◌&&◌, ◌||◌, Option, none, some, str_eq, if◌then◌else◌, List, [],
  ◌∷◌, any, length, leb, Result, ok, err, ◌>>=◌, ◌>>◌, return, throw, throw_if, is_some,
}
use ai_agent_platform.Identity.{
  Realm, workforce, is_workforce, active, disabled, is_active, is_disabled,
}
use ai_agent_platform.Access.Model.{verified}
use ai_agent_platform.Access.Session.{Value}
use ai_agent_platform.Access.Service.{require_permission}
use ai_agent_platform.Directory.{
  text_metadata, Tables, AuditRow, UserRow, access_view, insert_audit,
}
use ai_agent_platform.Workforce.Model.{
  WorkforceRole, admin, super_admin, role_name, parse_role, role_eq, is_admin, is_super_admin,
  is_privileged, WorkforceTarget, permission_denied, role_invalid, super_admin_required,
  self_mutation_forbidden, last_super_admin, last_role, role_already_assigned, role_not_assigned,
  target_realm_invalid, target_not_found, reactivation_invalid, Failure, workforce_error,
  access_error, WorkforceTx,
}
use ai_agent_platform.Workforce.Repository.{
  find_target, count_active_super_admins, has_permission, create_workforce_identity,
  assign_only_role, list_roles, add_role_link, remove_role_link, set_status, replace_password,
  revoke_sessions,
}

pub record Texts : Type 0 where
  pub normalize_name : String → String
  pub normalize_email : String → String
  pub normalize_username : String → String
  pub lower : String → String
  pub hash_password : String → String

-- `if (!allowed) throw …`.
unfoldable pub check_permission : String → String → WorkforceTx (Unit {0})
check_permission user_id permission t =
    throw_if (not (has_permission t user_id permission)) (workforce_error permission_denied) t

abbrev pub actor_roles : Tables → String → Option WorkforceTarget → List WorkforceRole
actor_roles t id none = []
actor_roles t id (some a) = list_roles t id

abbrev pub is_acting : Option WorkforceTarget → Bool
is_acting none = false
is_acting (some a) = is_workforce a.realm && is_active a.status

unfoldable pub authoritative_actor_role : String → WorkforceTx WorkforceRole
authoritative_actor_role id t =
    let a = find_target t id in
    let roles = actor_roles t id a in
    if not (is_acting a) || (not (any is_admin roles) && not (any is_super_admin roles))
    then err (workforce_error permission_denied)
    else ok (if any is_super_admin roles then super_admin else admin, t)

abbrev pub target_found : Option WorkforceTarget → WorkforceTx WorkforceTarget
target_found none t = err (workforce_error target_not_found)
target_found (some a) t =
    if not (is_workforce a.realm) then err (workforce_error target_realm_invalid) else ok (a, t)

unfoldable pub require_target : String → WorkforceTx WorkforceTarget
require_target id t = target_found (find_target t id) t

unfoldable pub protect_administrative_target :
    String → WorkforceRole → WorkforceTarget → WorkforceTx (Unit {0})
protect_administrative_target actor role target t =
    if str_eq actor target.id
    then err (workforce_error self_mutation_forbidden)
    else throw_if (not (is_super_admin role) && any is_privileged (list_roles t target.id))
        (workforce_error super_admin_required) t

-- `requirePermission`, `authoritativeActorRole`: the beginning of every transaction.
unfoldable pub authorize : String → String → WorkforceTx WorkforceRole
authorize actor permission = do check_permission actor permission; authoritative_actor_role actor

-- A privileged role wants a super administrator.
unfoldable pub check_grant : WorkforceRole → WorkforceRole → WorkforceTx (Unit {0})
check_grant actor_role role =
    throw_if (is_privileged role && not (is_super_admin actor_role))
      (workforce_error super_admin_required)

-- `requireTarget`, `protectAdministrativeTarget`.
unfoldable pub manage : String → WorkforceRole → String → WorkforceTx WorkforceTarget
manage actor actor_role target_id = do
  target ← require_target target_id
  protect_administrative_target actor actor_role target
  return target

abbrev pub audit_row : String → String → String → List (String × String) → AuditRow
audit_row event actor target metadata = record {
  actor_realm = workforce;
  actor_user_id = actor;
  action = event;
  target_type = "user";
  target_id = target;
  metadata = text_metadata metadata;
  ip_address = none;
  user_agent = none;
}

unfoldable pub write_update : String → String → List (String × String) → WorkforceTx (Unit {0})
write_update actor target metadata =
    insert_audit (audit_row "workforce.user_updated" actor target metadata)

pub record CreateInput : Type 0 where
  pub name : String
  pub email : String
  pub username : String
  pub temporary_password : String
  pub initial_role : String

abbrev pub new_user : Texts → String → CreateInput → UserRow
new_user texts fresh input = record {
  id = fresh;
  name = texts.normalize_name input.name;
  email = texts.normalize_email input.email;
  username = some (texts.normalize_username input.username);
  display_username = some (texts.normalize_username input.username);
  realm = workforce;
  status = active;
  email_verified = true;
  email_verification_status = verified;
  must_change_password = true;
}

unfoldable pub create_user_tx :
    Texts → String → CreateInput → WorkforceRole → String → WorkforceTx String
create_user_tx texts fresh input role actor = do
  actor_role ← authorize actor "admin:users"
  check_grant actor_role role
  create_workforce_identity texts.lower (new_user texts fresh input)
      (texts.hash_password input.temporary_password)
  assign_only_role fresh role actor
  insert_audit
      (audit_row "workforce.user_created" actor fresh (("initialRole", role_name role) ∷ []))
  return fresh

-- Whether the last active super administrator would be lost.
unfoldable pub check_last_super_admin : Bool → WorkforceTx (Unit {0})
check_last_super_admin loses t =
    throw_if (loses && leb (count_active_super_admins t) 1) (workforce_error last_super_admin) t

abbrev pub only_role : List WorkforceRole → WorkforceTx WorkforceRole
only_role (r ∷ []) = return r
only_role [] = throw (workforce_error role_invalid)
only_role (r ∷ s ∷ rest) = throw (workforce_error role_invalid)

unfoldable pub assigned_roles : String → WorkforceTx (List WorkforceRole)
assigned_roles id t = ok (list_roles t id, t)

unfoldable pub set_role_tx : String → WorkforceRole → String → WorkforceTx (Unit {0})
set_role_tx target_id role actor = do
  actor_role ← authorize actor "admin:roles"
  check_grant actor_role role
  target ← require_target target_id
  throw_if (not (is_some target.role)) (workforce_error role_invalid)
  protect_administrative_target actor actor_role target
  assigned ← assigned_roles target_id
  check_last_super_admin (any is_super_admin assigned && not (is_super_admin role))
  from_role ← only_role assigned
  assign_only_role target_id role actor
  revoke_sessions target_id
  write_update actor target_id (
      ("change", "role_changed")
      ∷ ("fromRole", role_name from_role)
      ∷ ("toRole", role_name role)
      ∷ [])

unfoldable pub add_role_tx : String → WorkforceRole → String → WorkforceTx (Unit {0})
add_role_tx target_id role actor = do
  actor_role ← authorize actor "admin:roles"
  target ← manage actor actor_role target_id
  check_grant actor_role role
  assigned ← assigned_roles target_id
  throw_if (any (role_eq role) assigned) (workforce_error role_already_assigned)
  add_role_link target_id role actor
  revoke_sessions target_id
  write_update actor target_id (("change", "role_added") ∷ ("role", role_name role) ∷ [])

unfoldable pub remove_role_tx : String → WorkforceRole → String → WorkforceTx (Unit {0})
remove_role_tx target_id role actor = do
  actor_role ← authorize actor "admin:roles"
  target ← manage actor actor_role target_id
  check_grant actor_role role
  assigned ← assigned_roles target_id
  throw_if (not (any (role_eq role) assigned)) (workforce_error role_not_assigned)
  throw_if (leb (length assigned) 1) (workforce_error last_role)
  check_last_super_admin (is_super_admin role && is_active target.status)
  remove_role_link target_id role
  revoke_sessions target_id
  write_update actor target_id (("change", "role_removed") ∷ ("role", role_name role) ∷ [])

unfoldable pub disable_user_tx : String → String → WorkforceTx (Unit {0})
disable_user_tx target_id actor = do
  actor_role ← authorize actor "admin:users"
  target ← manage actor actor_role target_id
  assigned ← assigned_roles target_id
  check_last_super_admin (any is_super_admin assigned)
  set_status target_id disabled
  revoke_sessions target_id
  write_update actor target_id (("change", "disabled") ∷ [])

unfoldable pub reactivate_user_tx : String → String → WorkforceTx (Unit {0})
reactivate_user_tx target_id actor = do
  actor_role ← authorize actor "admin:users"
  target ← require_target target_id
  throw_if (not (is_disabled target.status)) (workforce_error reactivation_invalid)
  protect_administrative_target actor actor_role target
  set_status target_id active
  write_update actor target_id (("change", "reactivated") ∷ [])

unfoldable pub replace_temporary_password_tx : String → String → String → WorkforceTx (Unit {0})
replace_temporary_password_tx target_id password_hash actor = do
  actor_role ← authorize actor "admin:users"
  target ← manage actor actor_role target_id
  replace_password target_id password_hash
  revoke_sessions target_id
  write_update actor target_id (("change", "password_replaced") ∷ [])

abbrev pub with_role :
    {A : Type 0}
    → Option WorkforceRole
    → (WorkforceRole → Tables → Result Failure A × Tables)
    → Tables
    → Result Failure A × Tables
with_role none work t = (err (workforce_error role_invalid), t)
with_role (some role) work t = work role t

module _ (texts : Texts) (get_session : Realm → Value) where
  abbrev pub sensitive :
      {A : Type 0} → String → (String → WorkforceTx A) → Tables → Result Failure A × Tables
  sensitive permission work t =
      with_actor access_error (require_permission get_session (access_view t) permission) work t

  unfoldable pub create_user : String → CreateInput → Tables → Result Failure String × Tables
  unfolding create_user_tx
  create_user fresh input =
      with_role (parse_role input.initial_role)
        λ role. sensitive "admin:users" (create_user_tx texts fresh input role)

  unfoldable pub set_role : String → String → Tables → Result Failure (Unit {0}) × Tables
  unfolding set_role_tx
  set_role target_id role =
      with_role (parse_role role) λ r. sensitive "admin:roles" (set_role_tx target_id r)

  unfoldable pub add_role : String → String → Tables → Result Failure (Unit {0}) × Tables
  unfolding add_role_tx
  add_role target_id role =
      with_role (parse_role role) λ r. sensitive "admin:roles" (add_role_tx target_id r)

  unfoldable pub remove_role : String → String → Tables → Result Failure (Unit {0}) × Tables
  unfolding remove_role_tx
  remove_role target_id role =
      with_role (parse_role role) λ r. sensitive "admin:roles" (remove_role_tx target_id r)

  unfoldable pub disable_user : String → Tables → Result Failure (Unit {0}) × Tables
  unfolding disable_user_tx
  disable_user target_id = sensitive "admin:users" (disable_user_tx target_id)

  unfoldable pub reactivate_user : String → Tables → Result Failure (Unit {0}) × Tables
  unfolding reactivate_user_tx
  reactivate_user target_id = sensitive "admin:users" (reactivate_user_tx target_id)

  unfoldable pub replace_temporary_password :
      String → String → Tables → Result Failure (Unit {0}) × Tables
  unfolding replace_temporary_password_tx
  replace_temporary_password target_id password =
      sensitive "admin:users"
        (replace_temporary_password_tx target_id (texts.hash_password password))
