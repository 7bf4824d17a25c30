-- ===== src/Workforce/Model.antt =====
-- apps/web/src/server/admin/users.ts: roles, errors and the accounts that the service reads.
use ai_agent_platform.Base.{
  String, Bool, true, false, ◌||◌, Option, none, some, str_eq, if◌then◌else◌, Tx,
}
use ai_agent_platform.Identity.{Realm, UserStatus}
use ai_agent_platform.Access.Model.{AuthAccessError}
use ai_agent_platform.Directory.{Tables}

pub data WorkforceRole : Type 0 where
  employee content_operator support_operator admin super_admin : WorkforceRole

abbrev pub role_name : WorkforceRole → String
role_name employee = "employee"
role_name content_operator = "content_operator"
role_name support_operator = "support_operator"
role_name admin = "admin"
role_name super_admin = "super_admin"

-- `isWorkforceRole`, with the role that the text names.
unfoldable pub parse_role : String → Option WorkforceRole
parse_role s =
    if str_eq s "employee"
    then some employee
    else if str_eq s "content_operator"
    then some content_operator
    else if str_eq s "support_operator"
    then some support_operator
    else if str_eq s "admin"
    then some admin
    else if str_eq s "super_admin"
    then some super_admin
    else none

abbrev pub is_admin : WorkforceRole → Bool
is_admin admin = true
is_admin _ = false

abbrev pub is_super_admin : WorkforceRole → Bool
is_super_admin super_admin = true
is_super_admin _ = false

abbrev pub role_eq : WorkforceRole → WorkforceRole → Bool
role_eq a b = str_eq (role_name a) (role_name b)

-- `role === "admin" || role === "super_admin"`.
abbrev pub is_privileged : WorkforceRole → Bool
is_privileged r = is_admin r || is_super_admin r

pub record WorkforceTarget : Type 0 where
  pub id : String
  pub realm : Realm
  pub status : UserStatus
  pub role : Option WorkforceRole

pub data WorkforceMutationErrorCode : Type 0 where
  permission_denied role_invalid super_admin_required : WorkforceMutationErrorCode
  self_mutation_forbidden last_super_admin last_role : WorkforceMutationErrorCode
  role_already_assigned role_not_assigned target_realm_invalid : WorkforceMutationErrorCode
  target_not_found reactivation_invalid : WorkforceMutationErrorCode

-- What an operation throws: the service's error, the access service's, another error with its
-- message, or a violated unique index.
pub data Failure : Type 0 where
  workforce_error : WorkforceMutationErrorCode → Failure
  access_error : AuthAccessError → Failure
  error : String → Failure
  unique_violation : String → Failure

abbrev pub WorkforceTx : Type 0 → Type 0
WorkforceTx A = Tx Tables Failure A
