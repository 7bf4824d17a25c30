-- ===== src/Access/Tests.antt =====
-- Requests to the access service, and the theorems applied to them.
use ai_agent_platform.Access.Model.{AuthoritativeUser, verified, owner, OrganizationStatus}
use ai_agent_platform.Access.Session.{
  Value, text, object, end, property, parse_authenticated_session,
}
use ai_agent_platform.Access.Repository.{
  Tables, find_user_by_id, find_customer_organizations, find_permission_keys,
}
use ai_agent_platform.Access.Service.{
  customer_of, workforce_of, require_customer, require_permission, get_current_actor,
}
use ai_agent_platform.Access.Guards.{require_console_page, redirected}
use ai_agent_platform.Access.Entitlement.{is_entitled}
use ai_agent_platform.Access.Guarantees.{require_permission_iff}
use ai_agent_platform.Access.Customers.{require_customer_iff}
use ai_agent_platform.Identity.{workforce_scope, Realm, customer, workforce, UserStatus, active}
use ai_agent_platform.Base.{none, String, false, ◌≡◌, refl, [], ◌∷◌, ok}

abbrev session_of : String → String → Value
session_of user_id realm = object (
    property "user" (object (property "id" (text user_id) end)) (
      property "session"
        (object (property "userId" (text user_id) (property "realm" (text realm) end))) end))

abbrev get_session : Realm → Value
get_session customer = session_of "c1" "customer"
get_session workforce = session_of "w1" "workforce"

abbrev reader : AuthoritativeUser
reader = record {
  id = "c1";
  realm = customer;
  status = active;
  display_name = "Reader";
  email_verification_status = verified;
  must_change_password = false;
}

abbrev editor : AuthoritativeUser
editor = record {
  id = "w1";
  realm = workforce;
  status = active;
  display_name = "Editor";
  email_verification_status = verified;
  must_change_password = false;
}

abbrev tables : Tables
tables = record {
  users = reader ∷ editor ∷ [];
  organizations =
      record {
        id = "o1";
        legal_name = "Acme";
        legal_name_key = "acme";
        status = OrganizationStatus.active;
      }
      ∷ [];
  memberships =
      record {
        id = "m1";
        user_id = "c1";
        organization_id = "o1";
        role = owner;
        assigned_by = none;
        created_at = 3;
      }
      ∷ [];
  user_roles = record { user_id = "w1"; role_id = "r1"; assigned_by = none } ∷ [];
  roles = record { id = "r1"; name = "editor"; realm_scope = workforce_scope } ∷ [];
  role_permissions =
      record { role_id = "r1"; permission_id = "p2" }
      ∷ record { role_id = "r1"; permission_id = "p1" }
      ∷ [];
  permissions =
      record { id = "p1"; key = "admin:docs" } ∷ record { id = "p2"; key = "admin:users" } ∷ [];
}

editor-keys : find_permission_keys tables "w1" workforce ≡ "admin:docs" ∷ "admin:users" ∷ []
unfolding find_permission_keys
editor-keys = refl

-- A pending account is sent to the onboarding page.
abbrev pending_tables : Tables
pending_tables = record tables { users = record reader { status = UserStatus.pending_review } ∷ [] }

pending-redirected :
    require_console_page get_session pending_tables ≡ redirected "/console/onboarding"
unfolding require_console_page require_customer get_current_actor parse_authenticated_session
    find_user_by_id find_customer_organizations
pending-redirected = refl

require_permission_iff_example :
    require_permission get_session tables "admin:docs" ≡ ok (workforce_of tables editor)
unfolding parse_authenticated_session find_user_by_id is_entitled
require_permission_iff_example =
    (require_permission_iff get_session tables "admin:docs" (workforce_of tables editor)).1 (
      editor,
      record {
        signed_in = record {
          session = record { user_id = "w1"; realm = workforce };
          parsed = refl;
          same_realm = refl;
          stored = refl;
          user_realm = refl;
          usable = refl;
        };
        active = refl;
        actor = refl;
      },
      refl,
      refl,
    )

require_customer_iff_example :
    require_customer get_session tables false ≡ ok (customer_of tables reader)
unfolding parse_authenticated_session find_user_by_id find_customer_organizations
require_customer_iff_example =
    (require_customer_iff get_session tables false (customer_of tables reader)).1 (
      reader,
      record {
        session = record { user_id = "c1"; realm = customer };
        parsed = refl;
        same_realm = refl;
        stored = refl;
        user_realm = refl;
        usable = refl;
      },
      refl,
      refl,
    )
