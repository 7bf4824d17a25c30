-- ===== src/Access/Dto.antt =====
-- apps/web/src/server/auth/access.ts: what the service tells of an actor and of an error.
use ai_agent_platform.Base.{String, Bool, Option, none, some, List, distinct, sort_by}
use ai_agent_platform.Identity.{UserStatus}
use ai_agent_platform.Access.Model.{
  EmailVerificationStatus, OrganizationStatus, OrganizationRole, CustomerOrganization,
  CustomerActor, WorkforceActor, AuthAccessErrorCode, AuthAccessError, session_required,
  realm_mismatch, account_disabled, account_not_active, permission_denied, password_change_required,
  organization_required, organization_ambiguous, organization_not_active,
}
use ai_agent_platform.Access.Repository.{str_leb}

pub record CustomerOrganizationDto : Type 0 where
  pub legal_name : String
  pub status : OrganizationStatus
  pub role : OrganizationRole

-- The realm is always "customer".
pub record CustomerSessionDto : Type 0 where
  pub status : UserStatus
  pub display_name : String
  pub email_verification_status : EmailVerificationStatus
  pub organization : Option CustomerOrganizationDto

-- The realm is always "workforce", and the status "active".
pub record StaffSessionDto : Type 0 where
  pub display_name : String
  pub must_change_password : Bool
  pub permissions : List String

abbrev organization_dto : Option CustomerOrganization → Option CustomerOrganizationDto
organization_dto none = none
organization_dto (some o) =
    some (record { legal_name = o.legal_name; status = o.status; role = o.role })

unfoldable pub to_customer_session_dto : CustomerActor → CustomerSessionDto
to_customer_session_dto actor = record {
  status = actor.status;
  display_name = actor.display_name;
  email_verification_status = actor.email_verification_status;
  organization = organization_dto actor.organization;
}

unfoldable pub to_staff_session_dto : WorkforceActor → StaffSessionDto
to_staff_session_dto actor = record {
  display_name = actor.display_name;
  must_change_password = actor.must_change_password;
  permissions = sort_by str_leb (distinct actor.permissions);
}

abbrev pub access_messages : AuthAccessErrorCode → String
access_messages session_required = "Authentication required"
access_messages realm_mismatch = "This session cannot access this area"
access_messages account_disabled = "This account is disabled"
access_messages account_not_active = "This account is not active"
access_messages permission_denied = "Permission denied"
access_messages password_change_required = "Password change required"
access_messages organization_required = "An active organization is required"
access_messages organization_ambiguous = "Organization membership is ambiguous"
access_messages organization_not_active = "This organization is not active"

abbrev pub auth_access_error_body : AuthAccessError → AuthAccessErrorCode × String
auth_access_error_body error = (error.code, access_messages error.code)
