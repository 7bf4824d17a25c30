-- ===== src/Access/Service.antt =====
-- apps/web/src/server/auth/access.ts and workspace-route-guards.ts: the access service and the
-- guards of the workspaces' pages. `get_session` is what the authentication library of a realm
-- returns for the headers of the request.
use ai_agent_platform.Base.{
  String, Bool, true, false, ◌&&◌, not, Option, none, some, ltb, ◌==◌, str_eq, if◌then◌else◌, List,
  [], ◌∷◌, any, sort_by, distinct, length, ok, err,
}
use ai_agent_platform.Identity.{
  Realm, customer, workforce, realm_eq, is_active, is_disabled, onboarding, can_enter_application,
}
use ai_agent_platform.Access.Model.{
  AuthoritativeUser, CustomerOrganization, CustomerActor, WorkforceActor, Actor, customer_actor,
  workforce_actor, AuthenticatedSession, AuthAccessErrorCode, Access, session_required,
  realm_mismatch, account_disabled, account_not_active, permission_denied, password_change_required,
  organization_required, organization_ambiguous, organization_not_active, OrganizationStatus,
}
use ai_agent_platform.Access.Session.{Value, parse_authenticated_session}
use ai_agent_platform.Access.Repository.{
  Tables, find_user_by_id, find_customer_organizations, find_permission_keys, str_leb,
}

abbrev pub unauthorized : {A : Type 0} → AuthAccessErrorCode → Access A
unauthorized code = err (record { code = code; status = 401 })

abbrev pub forbidden : {A : Type 0} → AuthAccessErrorCode → Access A
forbidden code = err (record { code = code; status = 403 })

abbrev pub only : List CustomerOrganization → Option CustomerOrganization
only [] = none
only (o ∷ []) = some o
only (o ∷ p ∷ rest) = none

abbrev pub customer_of : Tables → AuthoritativeUser → CustomerActor
customer_of t user =
    let organizations = find_customer_organizations t user.id in
    record {
      user_id = user.id;
      status = user.status;
      display_name = user.display_name;
      email_verification_status = user.email_verification_status;
      organization = only organizations;
      organization_membership_count = length organizations;
    }

abbrev pub workforce_of : Tables → AuthoritativeUser → WorkforceActor
workforce_of t user = record {
  user_id = user.id;
  display_name = user.display_name;
  must_change_password = user.must_change_password;
  permissions = sort_by str_leb (distinct (find_permission_keys t user.id workforce));
}

abbrev pub actor_in : Realm → Tables → AuthoritativeUser → Access (Option Actor)
actor_in customer t user = ok (some (customer_actor (customer_of t user)))
actor_in workforce t user =
    if is_active user.status
    then ok (some (workforce_actor (workforce_of t user)))
    else forbidden account_not_active

abbrev pub actor_of_user : Realm → Tables → Option AuthoritativeUser → Access (Option Actor)
actor_of_user realm t none = unauthorized session_required
actor_of_user realm t (some user) =
    if not (realm_eq user.realm realm)
    then forbidden realm_mismatch
    else if is_disabled user.status
    then forbidden account_disabled
    else actor_in realm t user

abbrev pub actor_of_session : Realm → Tables → Option AuthenticatedSession → Access (Option Actor)
actor_of_session realm t none = ok none
actor_of_session realm t (some session) =
    if not (realm_eq session.realm realm)
    then forbidden realm_mismatch
    else actor_of_user realm t (find_user_by_id t session.user_id)

unfoldable pub get_current_actor : (Realm → Value) → Tables → Realm → Access (Option Actor)
get_current_actor get_session t realm =
    actor_of_session realm t (parse_authenticated_session (get_session realm))

abbrev pub is_active_organization : OrganizationStatus → Bool
is_active_organization OrganizationStatus.active = true
is_active_organization _ = false

abbrev pub has_active_organization : Option CustomerOrganization → Bool
has_active_organization none = false
has_active_organization (some o) = is_active_organization o.status

abbrev pub check_customer : Bool → CustomerActor → Access CustomerActor
check_customer onboarding_allowed actor =
    if is_active actor.status
    then (if actor.organization_membership_count == 0
        then forbidden organization_required
        else if ltb 1 actor.organization_membership_count
        then forbidden organization_ambiguous
        else if not (has_active_organization actor.organization)
        then forbidden organization_not_active
        else ok actor)
    else if onboarding_allowed && can_enter_application customer actor.status onboarding
    then ok actor
    else forbidden account_not_active

abbrev pub customer_result : Bool → Access (Option Actor) → Access CustomerActor
customer_result onboarding_allowed (err e) = err e
customer_result onboarding_allowed (ok none) = unauthorized session_required
customer_result onboarding_allowed (ok (some (workforce_actor a))) = forbidden realm_mismatch
customer_result onboarding_allowed (ok (some (customer_actor a))) =
    check_customer onboarding_allowed a

unfoldable pub require_customer : (Realm → Value) → Tables → Bool → Access CustomerActor
require_customer get_session t onboarding_allowed =
    customer_result onboarding_allowed (get_current_actor get_session t customer)

-- `setup_flow` says that the option is "change-password".
abbrev pub workforce_result : Bool → Access (Option Actor) → Access WorkforceActor
workforce_result setup_flow (err e) = err e
workforce_result setup_flow (ok none) = unauthorized session_required
workforce_result setup_flow (ok (some (customer_actor a))) = forbidden realm_mismatch
workforce_result setup_flow (ok (some (workforce_actor a))) =
    if a.must_change_password && not setup_flow then forbidden password_change_required else ok a

unfoldable pub require_workforce : (Realm → Value) → Tables → Bool → Access WorkforceActor
require_workforce get_session t setup_flow =
    workforce_result setup_flow (get_current_actor get_session t workforce)

abbrev pub permission_result : String → Access WorkforceActor → Access WorkforceActor
permission_result permission (err e) = err e
permission_result permission (ok a) =
    if any (str_eq permission) a.permissions then ok a else forbidden permission_denied

unfoldable pub require_permission : (Realm → Value) → Tables → String → Access WorkforceActor
require_permission get_session t permission =
    permission_result permission (require_workforce get_session t false)
