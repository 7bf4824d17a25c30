-- ===== src/Roles/Tests.antt =====
-- A role whose permissions are replaced, and the theorems applied to the replacement.
use ai_agent_platform.Base.{false, String, true, ◌≡◌, refl, none, List, [], ◌∷◌, ok, ◌>>=◌}
use ai_agent_platform.Identity.{Realm, customer, workforce, workforce_scope, active}
use ai_agent_platform.Access.Model.{verified}
use ai_agent_platform.Access.Session.{
  Value, text, object, end, property, parse_authenticated_session, other,
}
use ai_agent_platform.Access.Repository.{find_user_by_id, find_permission_keys}
use ai_agent_platform.Access.Service.{require_permission, require_workforce, get_current_actor}
use ai_agent_platform.Access.Entitlement.{is_entitled}
use ai_agent_platform.Directory.{Tables, is_permitted, insert_audit}
use ai_agent_platform.Roles.Service.{
  replace_permissions, replace_tx, normalized, check_actor, lock_role, find_actor_role, role_names,
  resolve_privileged_actor_role, replace_role_permissions, requested,
}
use ai_agent_platform.Roles.Guards.{IsReplaced, replace_permissions-IsReplaced}

abbrev tables : Tables
tables = record {
  users =
      record {
        id = "w1";
        name = "w1";
        email = "w1";
        username = none;
        display_username = none;
        realm = workforce;
        status = active;
        email_verified = true;
        email_verification_status = verified;
        must_change_password = false;
      }
      ∷ [];
  accounts = [];
  sessions = [];
  organizations = [];
  memberships = [];
  user_roles = record { user_id = "w1"; role_id = "r1"; assigned_by = none } ∷ [];
  roles =
      record { id = "r1"; name = "super_admin"; realm_scope = workforce_scope }
      ∷ record { id = "r2"; name = "admin"; realm_scope = workforce_scope }
      ∷ [];
  role_permissions =
      record { role_id = "r1"; permission_id = "p1" }
      ∷ record { role_id = "r2"; permission_id = "p1" }
      ∷ [];
  permissions =
      record { id = "p1"; key = "admin:roles" } ∷ record { id = "p2"; key = "admin:docs" } ∷ [];
  registrations = [];
  audit = [];
}

abbrev session : Realm → Value
session customer = other
session workforce = object (
    property "user" (object (property "id" (text "w1") end)) (
      property "session"
        (object (property "userId" (text "w1") (property "realm" (text "workforce") end))) end))

abbrev keys : List String
keys = " admin:docs " ∷ "admin:docs" ∷ []

abbrev replaced_tables : Tables
replaced_tables = (replace_permissions session "r2" keys tables).1

is_accepted : replace_permissions session "r2" keys tables ≡ (ok tt, replaced_tables)
unfolding replace_permissions replace_tx normalized check_actor lock_role find_actor_role role_names
    resolve_privileged_actor_role replace_role_permissions requested insert_audit is_permitted
    is_entitled require_permission require_workforce get_current_actor parse_authenticated_session
    find_user_by_id find_permission_keys ◌>>=◌
is_accepted = refl

replace_permissions-IsReplaced_example : IsReplaced session "r2" keys tables replaced_tables
replace_permissions-IsReplaced_example =
    replace_permissions-IsReplaced session "r2" keys tables replaced_tables is_accepted
