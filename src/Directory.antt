-- ===== src/Directory.antt =====
-- The tables of packages/database/src/schema (identity.ts, authorization.ts, organizations.ts,
-- registrations.ts and audit.ts) that the services of accounts write, and what the access service
-- sees of them.
pub mod Links
pub mod Acting
use ai_agent_platform.Base.{
  ◌||◌, ◌&&◌, String, ℕ, Bool, true, false, Option, none, some, List, [], ◌∷◌, ◌++◌, map, any,
  str_eq, find_first, keep_where, Tx, ok, err, if◌then◌else◌, Result,
}
use ai_agent_platform.Identity.{workforce, is_workforce, is_active, Realm, UserStatus}
use ai_agent_platform.Access.Entitlement.{is_entitled}
use ai_agent_platform.Access.Model.{EmailVerificationStatus, AuthoritativeUser}
use ai_agent_platform.Access.Repository
use ai_agent_platform.Access.Repository.{
  OrganizationRow, MembershipRow, UserRoleRow, RoleRow, RolePermissionRow, PermissionRow,
}

pub record UserRow : Type 0 where
  pub id : String
  pub name : String
  pub email : String
  pub username : Option String
  pub display_username : Option String
  pub realm : Realm
  pub status : UserStatus
  pub email_verified : Bool
  pub email_verification_status : EmailVerificationStatus
  pub must_change_password : Bool

pub record AccountRow : Type 0 where
  pub account_id : String
  pub provider_id : String
  pub user_id : String
  pub password : String

pub record SessionRow : Type 0 where
  pub id : String
  pub user_id : String
  pub realm : Realm
  pub created_at : ℕ
  pub expires_at : ℕ
  pub ip_address : Option String
  pub user_agent : Option String

pub data RegistrationStatus : Type 0 where
  pending_review approved rejected cancelled : RegistrationStatus

pub record RegistrationRow : Type 0 where
  pub id : String
  pub user_id : String
  pub company_name : String
  pub status : RegistrationStatus
  pub organization_id : Option String
  pub reviewer_user_id : Option String
  pub review_note : Option String
  pub reviewed_at : Option ℕ
  pub created_at : ℕ

pub data MetadataValue : Type 0 where
  text_value : String → MetadataValue
  number_value : ℕ → MetadataValue

pub record AuditRow : Type 0 where
  pub actor_realm : Realm
  pub actor_user_id : String
  pub action : String
  pub target_type : String
  pub target_id : String
  pub metadata : List (String × MetadataValue)
  pub ip_address : Option String
  pub user_agent : Option String

pub record Tables : Type 0 where
  pub users : List UserRow
  pub accounts : List AccountRow
  pub sessions : List SessionRow
  pub organizations : List OrganizationRow
  pub memberships : List MembershipRow
  pub user_roles : List UserRoleRow
  pub roles : List RoleRow
  pub role_permissions : List RolePermissionRow
  pub permissions : List PermissionRow
  pub registrations : List RegistrationRow
  pub audit : List AuditRow

-- The columns that the access service selects.
abbrev pub authoritative : UserRow → AuthoritativeUser
authoritative u = record {
  id = u.id;
  realm = u.realm;
  status = u.status;
  display_name = u.name;
  email_verification_status = u.email_verification_status;
  must_change_password = u.must_change_password;
}

abbrev pub access_view : Tables → Repository.Tables
access_view t = record {
  users = map authoritative t.users;
  organizations = t.organizations;
  memberships = t.memberships;
  user_roles = t.user_roles;
  roles = t.roles;
  role_permissions = t.role_permissions;
  permissions = t.permissions;
}

abbrev pub text_metadata : List (String × String) → List (String × MetadataValue)
text_metadata [] = []
text_metadata ((key, value) ∷ rest) = (key, text_value value) ∷ text_metadata rest

abbrev pub is_user : String → UserRow → Bool
is_user id u = str_eq u.id id

-- Whether an active user of the workforce has a role of the workforce with the permission.
unfoldable pub is_permitted : Tables → String → String → Bool
unfolding is_entitled
is_permitted t user_id permission =
    any (λ (u : UserRow). is_user user_id u && (is_workforce u.realm && is_active u.status)) t.users
    && is_entitled (access_view t) user_id workforce permission

abbrev pub is_link_of : String → UserRoleRow → Bool
is_link_of user_id l = str_eq l.user_id user_id

abbrev pub is_session_of : String → SessionRow → Bool
is_session_of user_id s = str_eq s.user_id user_id

-- The index on `lower(email)`; `lower` is the database's.
abbrev pub same_email : (String → String) → UserRow → UserRow → Bool
same_email lower u v = str_eq (lower v.email) (lower u.email)

abbrev pub same_username : (String → String) → Option String → Option String → Bool
same_username lower none n = false
same_username lower (some m) none = false
same_username lower (some m) (some n) = str_eq (lower m) (lower n)

-- Inserting a user; `violation` is the error for the index that refuses.
unfoldable pub insert_user :
    {E : Type 0} → (String → E) → (String → String) → UserRow → Tx Tables E (Unit {0})
insert_user violation lower u t =
    if any (is_user u.id) t.users
    then err (violation "users_pkey")
    else if any (same_email lower u) t.users
    then err (violation "users_email_lower_unique")
    else if any (λ v. same_username lower v.username u.username) t.users
    then err (violation "users_username_lower_unique")
    else ok (tt, record t { users = t.users ++ u ∷ [] })

-- Inserting a role of a user: `user_roles_user_id_role_id_unique`.
unfoldable pub insert_link : {E : Type 0} → E → UserRoleRow → Tx Tables E (Unit {0})
insert_link violation l t =
    if any (λ (k : UserRoleRow). str_eq k.user_id l.user_id && str_eq k.role_id l.role_id)
      t.user_roles
    then err violation
    else ok (tt, record t { user_roles = t.user_roles ++ l ∷ [] })

unfoldable pub insert_audit : {E : Type 0} → AuditRow → Tx Tables E (Unit {0})
insert_audit a t = ok (tt, record t { audit = t.audit ++ a ∷ [] })

-- Inserting an account: `accounts_provider_id_account_id_unique`.
unfoldable pub insert_account : {E : Type 0} → E → AccountRow → Tx Tables E (Unit {0})
insert_account violation a t =
    if any
      (λ (b : AccountRow). str_eq b.provider_id a.provider_id && str_eq b.account_id a.account_id)
      t.accounts
    then err violation
    else ok (tt, record t { accounts = t.accounts ++ a ∷ [] })
