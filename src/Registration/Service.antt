-- ===== src/Registration/Service.antt =====
-- apps/web/src/server/registration/service.ts: `createRegistrationService`. The limiter is an
-- argument, with the state `L` that it keeps; so are the password hash and the database's `lower`.
use ai_agent_platform.Base.{
  truthy, String, Bool, not, ◌&&◌, Option, none, some, List, [], ◌∷◌, any, str_eq, ◌==◌,
  if◌then◌else◌, ok, err, Result, ◌>>=◌, ◌>>◌, return, throw_if, transaction,
}
use ai_agent_platform.Identity.{Realm, customer, workforce, is_workforce, is_active, UserStatus}
use ai_agent_platform.Access.Model.{OrganizationRole}
use ai_agent_platform.Access.Repository.{MembershipRow}
use ai_agent_platform.Directory.{text_metadata, Tables, RegistrationRow, AuditRow}
use ai_agent_platform.Registration.Audit.{append_audit}
use ai_agent_platform.Registration.Model.{
  Failure, refused, RegistrationTx, OrganizationDecision, create, link, CustomerRole,
  customer_admin, customer_member, role_name, ReviewDecision, SubmitInput, Context,
  RegistrationActor, Organization, not_found, already_reviewed, organization_invalid,
  permission_denied, not_accepted, matches_constraint,
}
use ai_agent_platform.Registration.Validation.{
  Unicode, Submission, organization_values, validate_submission, normalized_review_note, invalid,
}
use ai_agent_platform.Registration.Repository.{
  Drawn, applicant, create_user_and_credential, create_request, assert_active_workforce_permission,
  lock_request, is_pending, create_or_find_organization, find_active_organization,
  find_customer_role, add_membership_and_role, review, approved_row, rejected_row, rethrow,
}

abbrev pub audit_row :
    String → Realm → String → String → List (String × String) → Context → AuditRow
audit_row event realm user_id request_id metadata context = record {
  actor_realm = realm;
  actor_user_id = user_id;
  action = event;
  target_type = "registration";
  target_id = request_id;
  metadata = text_metadata metadata;
  ip_address = truthy context.ip_address;
  user_agent = truthy context.user_agent;
}

-- `assertReadPermission`.
unfoldable pub can_review : RegistrationActor → Bool
can_review actor =
    is_workforce actor.realm
    && (is_active actor.status && any (str_eq "admin:registrations") actor.permissions)

abbrev pub pending_found : Option RegistrationRow → RegistrationTx RegistrationRow
pending_found none t = err (refused not_found)
pending_found (some r) t =
    if not (is_pending r.status) then err (refused already_reviewed) else ok (r, t)

-- The request that is locked, which nobody has reviewed.
unfoldable pub require_pending : String → RegistrationTx RegistrationRow
require_pending id = do request ← lock_request id; pending_found request

abbrev pub organization_found : Option Organization → RegistrationTx Organization
organization_found none t = err (refused organization_invalid)
organization_found (some o) t = ok (o, t)

abbrev pub lift : {A : Type 0} → Result Failure A → RegistrationTx A
lift (ok a) t = ok (a, t)
lift (err e) t = err e

module _ (unicode : Unicode) where
  abbrev pub find_organization : Drawn → OrganizationDecision → RegistrationTx (Option Organization)
  find_organization drawn (create legal_name) =
      lift (organization_values unicode legal_name) >>= create_or_find_organization drawn
  find_organization drawn (link id) = find_active_organization id

  unfoldable pub choose_organization : Drawn → OrganizationDecision → RegistrationTx Organization
  choose_organization drawn decision = do
    found ← find_organization drawn decision
    organization_found found

abbrev or_member : Option CustomerRole → CustomerRole
or_member none = customer_member
or_member (some role) = role

-- The first member of an organization is its administrator.
abbrev pub role_for : Organization → Option CustomerRole → CustomerRole
role_for organization initial =
    if organization.member_count == 0 then customer_admin else or_member initial

abbrev pub membership_role : CustomerRole → OrganizationRole
membership_role customer_admin = OrganizationRole.admin
membership_role customer_member = OrganizationRole.member

unfoldable pub approve_request_and_activate_user :
    Drawn → String → String → String → String → Option String → RegistrationTx Bool
approve_request_and_activate_user drawn request_id user_id organization_id reviewer note =
    review (approved_row organization_id reviewer note drawn.now) UserStatus.active request_id
      user_id

unfoldable pub reject_request_and_user :
    Drawn → String → String → String → String → RegistrationTx Bool
reject_request_and_user drawn request_id user_id reviewer note =
    review (rejected_row reviewer note drawn.now) UserStatus.rejected request_id user_id

abbrev pub new_membership :
    Drawn → Organization → RegistrationRow → CustomerRole → String → MembershipRow
new_membership drawn organization request role actor = record {
  id = drawn.membership_id;
  user_id = request.user_id;
  organization_id = organization.id;
  role = membership_role role;
  assigned_by = some actor;
  created_at = drawn.now;
}

unfoldable pub approve_tx :
    Unicode → Drawn → ReviewDecision → Option String → Context → String → RegistrationTx (Unit {0})
approve_tx unicode drawn decision note context actor = do
  assert_active_workforce_permission actor "admin:registrations"
  request ← require_pending decision.request_id
  organization ← choose_organization unicode drawn decision.organization
  let role = role_for organization decision.initial_role
  role_id ← find_customer_role role
  add_membership_and_role (new_membership drawn organization request role actor) role_id
  updated ←
      approve_request_and_activate_user drawn request.id request.user_id organization.id actor note
  throw_if (not updated) (refused already_reviewed)
  append_audit (
      audit_row "registration.approved" workforce actor request.id (("role", role_name role) ∷ [])
        context)

unfoldable pub reject_tx : Drawn → String → String → Context → String → RegistrationTx (Unit {0})
reject_tx drawn request_id note context actor = do
  assert_active_workforce_permission actor "admin:registrations"
  request ← require_pending request_id
  updated ← reject_request_and_user drawn request_id request.user_id actor note
  throw_if (not updated) (refused already_reviewed)
  append_audit (
      audit_row "registration.rejected" workforce actor request.id (("category", "other") ∷ [])
        context)

abbrev pub with_note :
    {A : Type 0}
    → Result Failure (Option String)
    → (Option String → Tables → Result Failure A × Tables)
    → Tables
    → Result Failure A × Tables
with_note (err e) work t = (err e, t)
with_note (ok note) work t = work note t

-- A review wants an actor with the permission.
abbrev pub reviewing :
    {A : Type 0}
    → RegistrationActor
    → (Tables → Result Failure A × Tables)
    → Tables
    → Result Failure A × Tables
reviewing actor work t = if can_review actor then work t else (err (refused permission_denied), t)

unfoldable pub approve_registration :
    Unicode
    → Drawn
    → ReviewDecision
    → RegistrationActor
    → Context
    → Tables
    → Result Failure (Unit {0}) × Tables
unfolding can_review approve_tx
approve_registration unicode drawn decision actor context = reviewing actor (
    with_note (normalized_review_note decision.review_note)
      λ note. transaction (approve_tx unicode drawn decision note context actor.user_id))

unfoldable pub reject_with :
    Drawn
    → String
    → RegistrationActor
    → Context
    → Option String
    → Tables
    → Result Failure (Unit {0}) × Tables
unfolding reject_tx
reject_with drawn request_id actor context none t = (invalid "reviewNote", t)
reject_with drawn request_id actor context (some note) t =
    transaction (reject_tx drawn request_id note context actor.user_id) t

unfoldable pub reject_registration :
    Drawn
    → String
    → RegistrationActor
    → String
    → Context
    → Tables
    → Result Failure (Unit {0}) × Tables
unfolding can_review reject_with
reject_registration drawn request_id actor review_note context = reviewing actor (
    with_note (normalized_review_note (some review_note))
      (reject_with drawn request_id actor context))

pub record Submitted : Type 0 where
  pub request_id : String
  pub user_id : String
  pub email : String

unfoldable pub submit_tx :
    (String → String) → Drawn → Submission → String → Context → RegistrationTx Submitted
submit_tx lower drawn input password_hash context = do
  user_id ←
      create_user_and_credential lower (applicant drawn.user_id input.applicant_name input.email)
        password_hash
  request_id ← create_request drawn user_id input.company_name
  append_audit (
      audit_row "registration.submitted" customer user_id request_id
        (("source", "self_service") ∷ []) context)
  return (record { request_id = request_id; user_id = user_id; email = input.email })

-- An address that is taken is not accepted.
abbrev pub submission_error : Failure → Failure
submission_error e =
    if matches_constraint ("users_email_lower_unique" ∷ []) e then refused not_accepted else e

abbrev pub caught : {A : Type 0} → Result Failure A × Tables → Result Failure A × Tables
caught p = (rethrow submission_error p.0, p.1)

module _ {L : Type 0} (consume : String → Option String → L → Result Failure (Unit {0}) × L)
    (unicode : Unicode) (lower hash_password : String → String) where
  unfoldable pub admitted :
      Drawn
      → Submission
      → Context
      → Result Failure (Unit {0}) × L
      → Tables
      → Result Failure Submitted × L × Tables
  unfolding submit_tx matches_constraint
  admitted drawn input context (err e, l) t = (err e, l, t)
  admitted drawn input context (ok _, l) t =
      let (result, u) =
        caught
          (transaction (submit_tx lower drawn input (hash_password input.password) context) t) in
      (result, l, u)

  unfoldable pub validated :
      Drawn
      → Context
      → Result Failure Submission
      → L
      → Tables
      → Result Failure Submitted × L × Tables
  unfolding admitted
  validated drawn context (err e) l t = (err e, l, t)
  validated drawn context (ok input) l t =
      admitted drawn input context (consume input.email (truthy context.ip_address) l) t

  unfoldable pub submit_registration :
      Drawn → SubmitInput → Context → L → Tables → Result Failure Submitted × L × Tables
  unfolding validated
  submit_registration drawn input context =
      validated drawn context (validate_submission unicode input)
