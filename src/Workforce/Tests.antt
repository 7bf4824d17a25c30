-- ===== src/Workforce/Tests.antt =====
-- Accounts of the workforce, requests about them, and the theorems applied to them.
use ai_agent_platform.Base.{◌>>=◌, String, true, false, ◌≡◌, refl, none, some, List, [], ◌∷◌, ◌⊎◌}
use ai_agent_platform.Identity.{Realm, customer, workforce, workforce_scope, active}
use ai_agent_platform.Access.Model.{verified, account_disabled, WorkforceActor}
use ai_agent_platform.Access.Session.{
  Value, text, object, end, property, parse_authenticated_session, other,
}
use ai_agent_platform.Access.Repository.{RoleRow, find_user_by_id, find_permission_keys}
use ai_agent_platform.Access.Service.{
  require_permission, require_workforce, get_current_actor, forbidden,
}
use ai_agent_platform.Directory.{Tables, UserRow, SessionRow, access_view, insert_audit}
use ai_agent_platform.Workforce.Model.{parse_role}
use ai_agent_platform.Workforce.Repository.{
  find_target, list_roles, has_permission, count_active_super_admins, set_status, revoke_sessions,
  find_user,
}
use ai_agent_platform.Workforce.Service.{
  Texts, check_permission, authoritative_actor_role, authorize, require_target,
  protect_administrative_target, manage, assigned_roles, check_last_super_admin, write_update,
  disable_user_tx, disable_user,
}
use ai_agent_platform.Workforce.Mutations.{Mutation, disable, mutate, mutate_all}
use ai_agent_platform.Workforce.Privileges.{HasSuperAdmin, mutate_all-keeps_super_admin}
use ai_agent_platform.Workforce.Refusals.{mutate-eq_of_privilege, is_about_privilege}
use ai_agent_platform.Workforce.Effects.{mutate-keeps_others, mutate-signs_out}
use ai_agent_platform.Workforce.Operations.{IsSignedOut}
use ai_agent_platform.Workforce.Lockout.{disable_user-locks_out}

abbrev texts : Texts
texts = record {
  normalize_name = λ s. s;
  normalize_email = λ s. s;
  normalize_username = λ s. s;
  lower = λ s. s;
  hash_password = λ s. s;
}

abbrev account : String → UserRow
account id = record {
  id = id;
  name = id;
  email = id;
  username = some id;
  display_username = some id;
  realm = workforce;
  status = active;
  email_verified = true;
  email_verification_status = verified;
  must_change_password = false;
}

abbrev role_row : String → String → RoleRow
role_row id name = record { id = id; name = name; realm_scope = workforce_scope }

abbrev session_row : String → SessionRow
session_row user_id = record {
  id = user_id;
  user_id = user_id;
  realm = workforce;
  created_at = 1;
  expires_at = 9;
  ip_address = none;
  user_agent = none;
}

-- `w1` is a super administrator, `w2` an administrator and `w3` an employee.
abbrev tables : Tables
tables = record {
  users = account "w1" ∷ account "w2" ∷ account "w3" ∷ [];
  accounts = [];
  sessions = session_row "w2" ∷ session_row "w3" ∷ [];
  organizations = [];
  memberships = [];
  user_roles =
      record { user_id = "w1"; role_id = "r1"; assigned_by = none }
      ∷ record { user_id = "w2"; role_id = "r2"; assigned_by = none }
      ∷ record { user_id = "w3"; role_id = "r3"; assigned_by = none }
      ∷ [];
  roles = role_row "r1" "super_admin" ∷ role_row "r2" "admin" ∷ role_row "r3" "employee" ∷ [];
  role_permissions =
      record { role_id = "r1"; permission_id = "p1" }
      ∷ record { role_id = "r2"; permission_id = "p1" }
      ∷ record { role_id = "r1"; permission_id = "p2" }
      ∷ [];
  permissions =
      record { id = "p1"; key = "admin:users" } ∷ record { id = "p2"; key = "admin:roles" } ∷ [];
  registrations = [];
  audit = [];
}

abbrev session : String → Realm → Value
session user_id customer = other
session user_id workforce = object (
    property "user" (object (property "id" (text user_id) end)) (
      property "session"
        (object (property "userId" (text user_id) (property "realm" (text "workforce") end))) end))

abbrev administrator : WorkforceActor
administrator = record {
  user_id = "w2";
  display_name = "w2";
  must_change_password = false;
  permissions = "admin:users" ∷ [];
}

abbrev requests : List ((Realm → Value) × Mutation)
requests =
    (session "w2", disable "w3") ∷ (session "w1", disable "w2") ∷ (session "w1", disable "w1") ∷ []

mutate_all-keeps_super_admin_example : HasSuperAdmin (mutate_all texts requests tables)
unfolding find_target list_roles parse_role
mutate_all-keeps_super_admin_example =
    mutate_all-keeps_super_admin texts requests tables ("w1", refl, refl)

mutate-eq_of_privilege_example : mutate texts (session "w2") (disable "w1") tables ≡ tables
unfolding find_target list_roles parse_role require_permission require_workforce get_current_actor
    parse_authenticated_session find_user_by_id find_permission_keys is_about_privilege
mutate-eq_of_privilege_example =
    mutate-eq_of_privilege texts (session "w2") tables (disable "w1") administrator refl refl refl

mutate-keeps_others_example :
    (find_user (mutate texts (session "w2") (disable "w3") tables) "w2" ≡ find_user tables "w2")
    × (list_roles (mutate texts (session "w2") (disable "w3") tables) "w2" ≡ list_roles tables "w2")
mutate-keeps_others_example =
    mutate-keeps_others texts (session "w2") tables (disable "w3") "w2" refl

mutate-signs_out_example :
    (mutate texts (session "w2") (disable "w3") tables ≡ tables)
    ⊎ IsSignedOut "w3" (mutate texts (session "w2") (disable "w3") tables)
mutate-signs_out_example = mutate-signs_out texts (session "w2") tables (disable "w3") refl

abbrev left : Tables
left = mutate texts (session "w2") (disable "w3") tables

disable_user-locks_out_example :
    IsSignedOut "w3" left
    × (require_workforce (session "w3") (access_view left) false ≡ forbidden account_disabled)
unfolding mutate disable_user disable_user_tx authorize check_permission has_permission
    authoritative_actor_role manage require_target protect_administrative_target assigned_roles
    check_last_super_admin set_status revoke_sessions write_update insert_audit find_target
    list_roles parse_role require_permission get_current_actor parse_authenticated_session
    find_user_by_id find_permission_keys count_active_super_admins require_workforce ◌>>=◌
disable_user-locks_out_example =
    disable_user-locks_out texts (session "w2") (session "w3") false "w3" tables left
      (record { user_id = "w3"; realm = workforce }) refl refl refl refl
