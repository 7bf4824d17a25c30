-- ===== src/Access/Model.antt =====
-- apps/web/src/server/auth/access.ts: accounts, actors and the errors of access.
use ai_agent_platform.Base.{ℕ, String, Bool, Option, List, Result}
use ai_agent_platform.Identity.{Realm, UserStatus}

pub data EmailVerificationStatus : Type 0 where
  unverified pending verified : EmailVerificationStatus

pub data OrganizationStatus : Type 0 where
  pending_review active disabled rejected : OrganizationStatus

pub data OrganizationRole : Type 0 where
  owner admin member : OrganizationRole

pub record AuthoritativeUser : Type 0 where
  pub id : String
  pub realm : Realm
  pub status : UserStatus
  pub display_name : String
  pub email_verification_status : EmailVerificationStatus
  pub must_change_password : Bool

pub record CustomerOrganization : Type 0 where
  pub organization_id : String
  pub legal_name : String
  pub status : OrganizationStatus
  pub role : OrganizationRole

pub record CustomerActor : Type 0 where
  pub user_id : String
  pub status : UserStatus
  pub display_name : String
  pub email_verification_status : EmailVerificationStatus
  pub organization : Option CustomerOrganization
  pub organization_membership_count : ℕ

-- The status of a workforce actor is always "active".
pub record WorkforceActor : Type 0 where
  pub user_id : String
  pub display_name : String
  pub must_change_password : Bool
  pub permissions : List String

pub data Actor : Type 0 where
  customer_actor : CustomerActor → Actor
  workforce_actor : WorkforceActor → Actor

pub record AuthenticatedSession : Type 0 where
  pub user_id : String
  pub realm : Realm

pub data AuthAccessErrorCode : Type 0 where
  session_required realm_mismatch account_disabled account_not_active : AuthAccessErrorCode
  permission_denied password_change_required organization_required : AuthAccessErrorCode
  organization_ambiguous organization_not_active : AuthAccessErrorCode

pub record AuthAccessError : Type 0 where
  pub code : AuthAccessErrorCode
  pub status : ℕ

abbrev pub Access : Type 0 → Type 0
Access A = Result AuthAccessError A
