-- ===== src/Sessions/Tests.antt =====
-- Sessions that are revoked, and the theorems applied to the revocations.
use ai_agent_platform.Base.{false, String, true, ◌≡◌, refl, none, [], ◌∷◌, ok, ◌>>=◌, keep_where}
use ai_agent_platform.Identity.{Realm, customer, workforce, workforce_scope, active}
use ai_agent_platform.Access.Model.{verified}
use ai_agent_platform.Access.Session.{
  Value, text, object, end, property, parse_authenticated_session, other,
}
use ai_agent_platform.Access.Repository.{find_user_by_id, find_permission_keys}
use ai_agent_platform.Access.Service.{require_permission, require_workforce, get_current_actor}
use ai_agent_platform.Access.Entitlement.{is_entitled}
use ai_agent_platform.Directory.{
  Tables, UserRow, SessionRow, is_permitted, insert_audit, is_session_of,
}
use ai_agent_platform.Sessions.Service.{
  revoke, revoke_customer, revoke_customer_tx, delete_sessions, write_audit, mutate_tx,
  check_permission, require_target, revoke_named,
}
use ai_agent_platform.Sessions.Customers.{IsOutcome, revoke_customer-IsOutcome}
use ai_agent_platform.Sessions.Revocation.{
  IsAdminRevocation, revoke-IsAdminRevocation, revoke-keeps_others,
}

abbrev account : String → Realm → UserRow
account id realm = record {
  id = id;
  name = id;
  email = id;
  username = none;
  display_username = none;
  realm = realm;
  status = active;
  email_verified = true;
  email_verification_status = verified;
  must_change_password = false;
}

abbrev session_row : String → String → Realm → SessionRow
session_row id user_id realm = record {
  id = id;
  user_id = user_id;
  realm = realm;
  created_at = 1;
  expires_at = 9;
  ip_address = none;
  user_agent = none;
}

abbrev tables : Tables
tables = record {
  users = account "w1" workforce ∷ account "c1" customer ∷ [];
  accounts = [];
  sessions =
      session_row "s1" "c1" customer
      ∷ session_row "s2" "c1" customer
      ∷ session_row "s3" "w1" workforce
      ∷ [];
  organizations = [];
  memberships = [];
  user_roles = record { user_id = "w1"; role_id = "r1"; assigned_by = none } ∷ [];
  roles = record { id = "r1"; name = "admin"; realm_scope = workforce_scope } ∷ [];
  role_permissions = record { role_id = "r1"; permission_id = "p1" } ∷ [];
  permissions = record { id = "p1"; key = "admin:users" } ∷ [];
  registrations = [];
  audit = [];
}

abbrev session : Realm → Value
session customer = other
session workforce = object (
    property "user" (object (property "id" (text "w1") end)) (
      property "session"
        (object (property "userId" (text "w1") (property "realm" (text "workforce") end))) end))

abbrev own_revoked : Tables
own_revoked = (revoke_customer "c1" "s1" tables).1

revoke_customer-IsOutcome_example : IsOutcome "c1" "s1" tables own_revoked (ok tt)
unfolding revoke_customer revoke_customer_tx delete_sessions write_audit insert_audit ◌>>=◌
revoke_customer-IsOutcome_example =
    revoke_customer-IsOutcome "c1" "s1" tables own_revoked (ok tt) refl

abbrev all_revoked : Tables
all_revoked = (revoke session "c1" customer none tables).1

two_revoked : revoke session "c1" customer none tables ≡ (ok 2, all_revoked)
unfolding revoke mutate_tx check_permission require_target revoke_named delete_sessions write_audit
    insert_audit is_permitted is_entitled require_permission require_workforce get_current_actor
    parse_authenticated_session find_user_by_id find_permission_keys ◌>>=◌
two_revoked = refl

revoke-IsAdminRevocation_example : IsAdminRevocation session "c1" customer none 2 tables all_revoked
revoke-IsAdminRevocation_example =
    revoke-IsAdminRevocation session "c1" customer none tables all_revoked 2 two_revoked

revoke-keeps_others_example :
    keep_where (is_session_of "w1") all_revoked.sessions
    ≡ keep_where (is_session_of "w1") tables.sessions
revoke-keeps_others_example =
    revoke-keeps_others session "c1" "w1" customer none tables all_revoked 2 two_revoked refl
