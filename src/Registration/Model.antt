-- ===== src/Registration/Model.antt =====
-- apps/web/src/server/registration/service.ts and database-errors.ts: inputs, statuses and errors.
use ai_agent_platform.Base.{
  ℕ, String, Bool, false, Option, none, some, List, any, str_eq, Tx, if◌then◌else◌,
}
use ai_agent_platform.Identity.{Realm, UserStatus}
use ai_agent_platform.Directory.{Tables, RegistrationStatus}

pub data PublicStatus : Type 0 where
  pending_review active rejected : PublicStatus

pub data RegistrationErrorCode : Type 0 where
  validation_failed not_accepted submission_failed rate_limited : RegistrationErrorCode
  already_reviewed not_found organization_invalid : RegistrationErrorCode
  permission_denied review_failed : RegistrationErrorCode

-- What is thrown: an error of registration with the field it is about, a violated constraint of the
-- database with its name, or another error.
pub data Failure : Type 0 where
  registration_error : RegistrationErrorCode → Option String → Failure
  violation : String → Failure
  error : String → Failure

abbrev pub RegistrationTx : Type 0 → Type 0
RegistrationTx A = Tx Tables Failure A

abbrev pub refused : RegistrationErrorCode → Failure
refused code = registration_error code none

unfoldable pub map_public_status : PublicStatus → RegistrationStatus
map_public_status PublicStatus.pending_review = RegistrationStatus.pending_review
map_public_status PublicStatus.active = RegistrationStatus.approved
map_public_status PublicStatus.rejected = RegistrationStatus.rejected

-- The text of a status in the database.
abbrev pub status_text : RegistrationStatus → String
status_text RegistrationStatus.pending_review = "pending_review"
status_text RegistrationStatus.approved = "approved"
status_text RegistrationStatus.rejected = "rejected"
status_text RegistrationStatus.cancelled = "cancelled"

unfoldable pub map_database_status : String → Option PublicStatus
map_database_status s =
    if str_eq s "pending_review"
    then some PublicStatus.pending_review
    else if str_eq s "approved"
    then some active
    else if str_eq s "rejected"
    then some PublicStatus.rejected
    else none

-- `matchesPostgresConstraint(error, "23505", constraints)`.
unfoldable pub matches_constraint : List String → Failure → Bool
matches_constraint names (violation name) = any (str_eq name) names
matches_constraint names (registration_error code field) = false
matches_constraint names (error message) = false

pub data OrganizationDecision : Type 0 where
  create : String → OrganizationDecision
  link : String → OrganizationDecision

pub data CustomerRole : Type 0 where
  customer_admin customer_member : CustomerRole

abbrev pub role_name : CustomerRole → String
role_name customer_admin = "customer_admin"
role_name customer_member = "customer_member"

pub record ReviewDecision : Type 0 where
  pub request_id : String
  pub organization : OrganizationDecision
  pub initial_role : Option CustomerRole
  pub review_note : Option String

pub record SubmitInput : Type 0 where
  pub applicant_name : String
  pub email : String
  pub password : String
  pub company_name : String
  pub accepted_terms : Bool

pub record Context : Type 0 where
  pub ip_address : Option String
  pub user_agent : Option String

pub record RegistrationActor : Type 0 where
  pub user_id : String
  pub realm : Realm
  pub status : UserStatus
  pub permissions : List String

pub record Organization : Type 0 where
  pub id : String
  pub member_count : ℕ
