-- ===== src/Access/Repository.antt =====
-- apps/web/src/server/auth/access.ts: the queries of the service, over the tables that they read.
use Prim.Native.Nat.{Ordering}
use Prim.Native.String.{compare}
use ai_agent_platform.Base.{
  ℕ, String, Bool, true, false, ◌&&◌, ◌||◌, Option, ltb, ◌==◌, str_eq, List, map, join, sort_by,
  distinct, keep_where, find_first, take,
}
use ai_agent_platform.Identity.{Realm, RoleScope, in_scope}
use ai_agent_platform.Access.Model.{
  AuthoritativeUser, CustomerOrganization, OrganizationStatus, OrganizationRole,
}

pub record OrganizationRow : Type 0 where
  pub id : String
  pub legal_name : String
  pub legal_name_key : String
  pub status : OrganizationStatus

pub record MembershipRow : Type 0 where
  pub id : String
  pub user_id : String
  pub organization_id : String
  pub role : OrganizationRole
  pub assigned_by : Option String
  pub created_at : ℕ

pub record UserRoleRow : Type 0 where
  pub user_id : String
  pub role_id : String
  pub assigned_by : Option String

pub record RoleRow : Type 0 where
  pub id : String
  pub name : String
  pub realm_scope : RoleScope

pub record RolePermissionRow : Type 0 where
  pub role_id : String
  pub permission_id : String

pub record PermissionRow : Type 0 where
  pub id : String
  pub key : String

-- A row of the table of users has the columns that the code selects.
pub record Tables : Type 0 where
  pub users : List AuthoritativeUser
  pub organizations : List OrganizationRow
  pub memberships : List MembershipRow
  pub user_roles : List UserRoleRow
  pub roles : List RoleRow
  pub role_permissions : List RolePermissionRow
  pub permissions : List PermissionRow

-- The order of texts.
abbrev pub str_leb : String → String → Bool
str_leb s t = elim (compare s t) [ Ordering.gt ↦ false | _ ↦ true ]

unfoldable pub find_user_by_id : Tables → String → Option AuthoritativeUser
find_user_by_id t user_id = find_first (λ (u : AuthoritativeUser). str_eq u.id user_id) t.users

abbrev joined_before : MembershipRow → MembershipRow → Bool
joined_before a b =
    ltb a.created_at b.created_at || (a.created_at == b.created_at && str_leb a.id b.id)

abbrev organization_of : MembershipRow → OrganizationRow → CustomerOrganization
organization_of m o = record {
  organization_id = o.id;
  legal_name = o.legal_name;
  status = o.status;
  role = m.role;
}

abbrev pub organizations_of : Tables → MembershipRow → List CustomerOrganization
organizations_of t m =
    map (organization_of m)
      (keep_where (λ (o : OrganizationRow). str_eq m.organization_id o.id) t.organizations)

unfoldable pub find_customer_organizations : Tables → String → List CustomerOrganization
find_customer_organizations t user_id = take 2 (
    join (organizations_of t) (
      sort_by joined_before
        (keep_where (λ (m : MembershipRow). str_eq m.user_id user_id) t.memberships)))

-- The keys of the permissions that a row of the joined tables leads to.
abbrev pub keys_of_permission : Tables → RolePermissionRow → List String
keys_of_permission t link =
    map (λ (p : PermissionRow). p.key)
      (keep_where (λ (p : PermissionRow). str_eq link.permission_id p.id) t.permissions)

abbrev pub keys_of_role : Tables → RoleRow → List String
keys_of_role t role =
    join (keys_of_permission t)
      (keep_where (λ (l : RolePermissionRow). str_eq role.id l.role_id) t.role_permissions)

abbrev pub keys_of_user_role : Tables → Realm → UserRoleRow → List String
keys_of_user_role t realm link =
    join (keys_of_role t) (
      keep_where (λ (r : RoleRow). str_eq link.role_id r.id && in_scope r.realm_scope realm)
        t.roles)

unfoldable pub find_permission_keys : Tables → String → Realm → List String
find_permission_keys t user_id realm = sort_by str_leb (
    distinct (
      join (keys_of_user_role t realm)
        (keep_where (λ (l : UserRoleRow). str_eq l.user_id user_id) t.user_roles)))
