-- ===== src/Access/Guards.antt =====
-- apps/web/src/server/auth/workspace-route-guards.ts: the guards of the workspaces' pages.
use ai_agent_platform.Base.{if◌then◌else◌, String, Bool, true, false, ok, err}
use ai_agent_platform.Identity.{Realm}
use ai_agent_platform.Access.Model.{
  AuthAccessErrorCode, AuthAccessError, Access, CustomerActor, WorkforceActor, session_required,
  realm_mismatch, account_disabled, account_not_active, password_change_required,
}
use ai_agent_platform.Access.Session.{Value}
use ai_agent_platform.Access.Repository.{Tables}
use ai_agent_platform.Access.Service.{require_customer, require_workforce}

-- The page goes on, redirects, or throws.
pub data Guarded (A : Type 0) : Type 0 where
  entered : A → Guarded A
  redirected : String → Guarded A
  failed : AuthAccessError → Guarded A

abbrev pub is_login_error : AuthAccessErrorCode → Bool
is_login_error session_required = true
is_login_error realm_mismatch = true
is_login_error account_disabled = true
is_login_error account_not_active = true
is_login_error _ = false

abbrev pub to_login : {A : Type 0} → String → AuthAccessError → Guarded A
to_login path e = if is_login_error e.code then redirected path else failed e

abbrev pub guarded : {A : Type 0} → (AuthAccessError → Guarded A) → Access A → Guarded A
guarded handle (ok a) = entered a
guarded handle (err e) = handle e

abbrev pub console_login : String
console_login = "/login?returnTo=%2Fconsole"

unfoldable pub require_console_shell : (Realm → Value) → Tables → Guarded CustomerActor
require_console_shell get_session t =
    guarded (to_login console_login) (require_customer get_session t true)

abbrev is_password_error : AuthAccessErrorCode → Bool
is_password_error password_change_required = true
is_password_error _ = false

abbrev admin_error : AuthAccessError → Guarded WorkforceActor
admin_error e =
    if is_password_error e.code
    then redirected "/staff/change-password?returnTo=%2Fadmin"
    else to_login "/staff/login?returnTo=%2Fadmin" e

unfoldable pub require_admin_shell : (Realm → Value) → Tables → Guarded WorkforceActor
require_admin_shell get_session t = guarded admin_error (require_workforce get_session t false)

abbrev is_inactive_error : AuthAccessErrorCode → Bool
is_inactive_error account_not_active = true
is_inactive_error _ = false

abbrev page_error : AuthAccessError → Guarded CustomerActor
page_error e =
    if is_inactive_error e.code then redirected "/console/onboarding" else to_login console_login e

unfoldable pub require_console_page : (Realm → Value) → Tables → Guarded CustomerActor
require_console_page get_session t = guarded page_error (require_customer get_session t false)
