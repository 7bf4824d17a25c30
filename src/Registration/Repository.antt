-- ===== src/Registration/Repository.antt =====
-- apps/web/src/server/registration/repository.ts: the statements of a transaction. What the database
-- draws for a new row (ids, instants) is an argument.
use ai_agent_platform.Base.{
  ℕ, String, Bool, true, false, not, ◌&&◌, Option, none, some, [], ◌∷◌, ◌++◌, any, str_eq,
  find_first, update_where, count_where, ◌==◌, if◌then◌else◌, ok, err, Result, ◌>>◌, return,
}
use ai_agent_platform.Identity.{
  customer, customer_scope, RoleScope, is_customer, UserStatus, is_pending_review,
}
use ai_agent_platform.Access.Model.{unverified, OrganizationStatus}
use ai_agent_platform.Access.Repository.{OrganizationRow, MembershipRow, RoleRow}
use ai_agent_platform.Access.Service.{is_active_organization}
use ai_agent_platform.Directory.{
  is_permitted, Tables, UserRow, RegistrationRow, RegistrationStatus, is_user, insert_user,
  insert_account, insert_link,
}
use ai_agent_platform.Registration.Model.{
  Failure, violation, refused, RegistrationTx, already_reviewed, organization_invalid,
  permission_denied, CustomerRole, role_name, Organization, matches_constraint,
}
use ai_agent_platform.Registration.Validation.{OrganizationValues}

-- What the database draws in a transaction.
pub record Drawn : Type 0 where
  pub user_id : String
  pub request_id : String
  pub organization_id : String
  pub membership_id : String
  pub now : ℕ

abbrev pub applicant : String → String → String → UserRow
applicant id name email = record {
  id = id;
  name = name;
  email = email;
  username = none;
  display_username = none;
  realm = customer;
  status = UserStatus.pending_review;
  email_verified = false;
  email_verification_status = unverified;
  must_change_password = false;
}

unfoldable pub create_user_and_credential :
    (String → String) → UserRow → String → RegistrationTx String
create_user_and_credential lower u password_hash = do
  insert_user violation lower u
  insert_account (violation "accounts_provider_id_account_id_unique") (record {
    account_id = u.id;
    provider_id = "credential";
    user_id = u.id;
    password = password_hash;
  })
  return u.id

abbrev pub new_request : Drawn → String → String → RegistrationRow
new_request drawn user_id company_name = record {
  id = drawn.request_id;
  user_id = user_id;
  company_name = company_name;
  status = RegistrationStatus.pending_review;
  organization_id = none;
  reviewer_user_id = none;
  review_note = none;
  reviewed_at = none;
  created_at = drawn.now;
}

unfoldable pub create_request : Drawn → String → String → RegistrationTx String
create_request drawn user_id company_name t = ok (
  drawn.request_id,
  record t { registrations = t.registrations ++ new_request drawn user_id company_name ∷ [] },
)

unfoldable pub assert_active_workforce_permission : String → String → RegistrationTx (Unit {0})
unfolding is_permitted
assert_active_workforce_permission user_id permission t =
    if not (is_permitted t user_id permission) then err (refused permission_denied) else ok (tt, t)

abbrev pub is_request : String → RegistrationRow → Bool
is_request id r = str_eq r.id id

unfoldable pub lock_request : String → RegistrationTx (Option RegistrationRow)
lock_request id t = ok (find_first (is_request id) t.registrations, t)

abbrev pub is_member_of : String → MembershipRow → Bool
is_member_of organization_id m = str_eq m.organization_id organization_id

abbrev pub with_members : Tables → Option OrganizationRow → Option Organization
with_members t none = none
with_members t (some o) =
    some (record { id = o.id; member_count = count_where (is_member_of o.id) t.memberships })

unfoldable pub find_active_organization : String → RegistrationTx (Option Organization)
find_active_organization id t = ok (
  with_members t (
      find_first (λ (o : OrganizationRow). str_eq o.id id && is_active_organization o.status)
        t.organizations),
  t,
)

abbrev pub has_key : String → OrganizationRow → Bool
has_key key o = str_eq o.legal_name_key key

abbrev pub new_organization : Drawn → OrganizationValues → OrganizationRow
new_organization drawn values = record {
  id = drawn.organization_id;
  legal_name = values.legal_name;
  legal_name_key = values.legal_name_key;
  status = OrganizationStatus.active;
}

abbrev pub lock_found : Option OrganizationRow → RegistrationTx (Option Organization)
lock_found none t = ok (none, t)
lock_found (some o) t = find_active_organization o.id t

-- `INSERT … ON CONFLICT (legal_name_key) DO NOTHING`, and the row that was there.
unfoldable pub create_or_find_organization :
    Drawn → OrganizationValues → RegistrationTx (Option Organization)
create_or_find_organization drawn values t =
    if any (has_key values.legal_name_key) t.organizations
    then lock_found
        (find_first
          (λ (o : OrganizationRow).
            has_key values.legal_name_key o && is_active_organization o.status)
          t.organizations)
        t
    else find_active_organization drawn.organization_id
        (record t { organizations = t.organizations ++ new_organization drawn values ∷ [] })

abbrev pub is_customer_scope : RoleScope → Bool
is_customer_scope customer_scope = true
is_customer_scope _ = false

abbrev pub is_customer_role : CustomerRole → RoleRow → Bool
is_customer_role role r = str_eq r.name (role_name role) && is_customer_scope r.realm_scope

abbrev pub role_found : Option RoleRow → RegistrationTx String
role_found none t = err (refused organization_invalid)
role_found (some r) t = ok (r.id, t)

unfoldable pub find_customer_role : CustomerRole → RegistrationTx String
find_customer_role role t = role_found (find_first (is_customer_role role) t.roles) t

abbrev pub is_membership : String → String → MembershipRow → Bool
is_membership organization_id user_id m =
    str_eq m.organization_id organization_id && str_eq m.user_id user_id

-- Inserting a membership: `organization_memberships_organization_id_user_id_unique`.
unfoldable pub insert_membership : MembershipRow → RegistrationTx (Unit {0})
insert_membership m t =
    if any (is_membership m.organization_id m.user_id) t.memberships
    then err (violation "organization_memberships_organization_id_user_id_unique")
    else ok (tt, record t { memberships = t.memberships ++ m ∷ [] })

-- `rethrowReviewWriteConflict`.
abbrev pub review_conflict : Failure → Failure
review_conflict e =
    if matches_constraint
      ("organization_memberships_organization_id_user_id_unique"
        ∷ "user_roles_user_id_role_id_unique" ∷ [])
      e
    then refused already_reviewed
    else e

abbrev pub rethrow : {A : Type 0} → (Failure → Failure) → Result Failure A → Result Failure A
rethrow f (ok a) = ok a
rethrow f (err e) = err (f e)

unfoldable pub add_membership_and_role : MembershipRow → String → RegistrationTx (Unit {0})
unfolding matches_constraint
add_membership_and_role m role_id t = rethrow review_conflict (
    (do
      insert_membership m
      insert_link (violation "user_roles_user_id_role_id_unique")
          (record { user_id = m.user_id; role_id = role_id; assigned_by = m.assigned_by }))
      t)

abbrev pub is_pending : RegistrationStatus → Bool
is_pending RegistrationStatus.pending_review = true
is_pending _ = false

abbrev pub is_pending_request : String → RegistrationRow → Bool
is_pending_request id r = is_request id r && is_pending r.status

abbrev pub is_pending_customer : String → UserRow → Bool
is_pending_customer id u = is_user id u && (is_customer u.realm && is_pending_review u.status)

-- The updates of the request and of its user, each of which must have changed one row.
abbrev pub reviewed :
    (RegistrationRow → RegistrationRow) → UserStatus → String → String → Tables → Tables
reviewed f status request_id user_id t = record t {
  registrations = update_where (is_pending_request request_id) f t.registrations;
  users =
      update_where (is_pending_customer user_id) (λ (u : UserRow). record u { status = status })
        t.users;
}

abbrev pub review :
    (RegistrationRow → RegistrationRow) → UserStatus → String → String → RegistrationTx Bool
review f status request_id user_id t =
    if not (count_where (is_pending_request request_id) t.registrations == 1)
    then ok (
      false,
      record t { registrations = update_where (is_pending_request request_id) f t.registrations },
    )
    else ok (
      count_where (is_pending_customer user_id) t.users == 1,
      reviewed f status request_id user_id t,
    )

-- A column that is not set keeps its value.
abbrev pub or_kept : Option String → Option String → Option String
or_kept none old = old
or_kept (some s) old = some s

abbrev pub approved_row : String → String → Option String → ℕ → RegistrationRow → RegistrationRow
approved_row organization_id reviewer note now r = record r {
  status = RegistrationStatus.approved;
  organization_id = some organization_id;
  reviewer_user_id = some reviewer;
  review_note = or_kept note r.review_note;
  reviewed_at = some now;
}

abbrev pub rejected_row : String → String → ℕ → RegistrationRow → RegistrationRow
rejected_row reviewer note now r = record r {
  status = RegistrationStatus.rejected;
  reviewer_user_id = some reviewer;
  review_note = some note;
  reviewed_at = some now;
}
