-- ===== src/Roles/Holders.antt =====
-- admin/roles.ts: the roles that an account holds, and the keys that a request names.
use ai_agent_platform.Base.{
  any-distinct, is_empty, trim, distinct, map, any-sort_by, Bool-cases, inl, inr, sym, [], ◌∷◌,
  ◌&&◌, &&-eq-true, eq_iff, arith, join, member_of_any, any-join, any-keep_where, any-map, String,
  Bool, true, false, not, ◌≡◌, refl, ap, ◌∙◌, none, some, List, any, str_eq, keep_where,
  if◌then◌else◌,
}
use ai_agent_platform.Identity.{
  is_workforce, is_active, workforce, in_scope, RoleScope, customer_scope, workforce_scope,
  global_scope,
}
use mathlib.Core.List.{Memᴰ}
use ai_agent_platform.Access.Repository.{RoleRow, UserRoleRow, str_leb}
use ai_agent_platform.Directory.{UserRow, is_user, Tables, is_link_of}
use ai_agent_platform.Roles.Service.{
  normalized, is_super_admin, find_actor_role, names_of, role_names, resolve_privileged_actor_role,
  super_admin, admin,
}

pub scope_of : (s : RoleScope) → in_scope s workforce ≡ true → s ≡ workforce_scope
scope_of customer_scope h = cc
scope_of workforce_scope h = refl
scope_of global_scope h = cc

any_if :
    (b : Bool) (names : List String) (name : String)
    → any (str_eq name) (if b then names else []) ≡ true
    → any (str_eq name) names ≡ true
any_if true names name h = h
any_if false names name h = cc

resolved :
    (names : List String)
    → is_super_admin (resolve_privileged_actor_role names) ≡ true
    → any (str_eq "super_admin") names ≡ true
unfolding resolve_privileged_actor_role
resolved names h = split (any (str_eq "super_admin") names) (any (str_eq "admin") names) h
  where
    split :
        (a b : Bool)
        → is_super_admin (if a then some super_admin else if b then some admin else none) ≡ true
        → a ≡ true
    split true b k = refl
    split false true k = cc
    split false false k = cc

pub super_admin_name :
    (t : Tables) (user_id : String)
    → is_super_admin (find_actor_role t user_id) ≡ true
    → any (str_eq "super_admin") (role_names t user_id) ≡ true
unfolding find_actor_role
super_admin_name t user_id h = resolved (role_names t user_id) h

-- The account is linked to a role of the name, of the workforce.
pub record IsHolder (t : Tables) (user_id name : String) : Type 0 where
  pub row : UserRoleRow
  pub linked : Memᴰ row t.user_roles
  pub own : row.user_id ≡ user_id
  pub role : RoleRow
  pub listed : Memᴰ role t.roles
  pub same_role : role.id ≡ row.role_id
  pub same_name : role.name ≡ name
  pub of_workforce : role.realm_scope ≡ workforce_scope

pub role_names-IsHolder :
    (t : Tables) (user_id name : String)
    → any (str_eq name) (role_names t user_id) ≡ true
    → IsHolder t user_id name
unfolding role_names
role_names-IsHolder t user_id name h =
    let names = join (names_of t) (keep_where (is_link_of user_id) t.user_roles) in
    let among : any (str_eq name) names ≡ true =
      any_if
        (any (λ (u : UserRow). is_user user_id u && (is_workforce u.realm && is_active u.status))
          t.users)
        names name h in
    let (row, linked, e) =
      member_of_any (λ l. is_link_of user_id l && any (str_eq name) (names_of t l)) t.user_roles
        (sym (
            any-join (str_eq name) (names_of t) (keep_where (is_link_of user_id) t.user_roles)
            ∙ any-keep_where (λ l. any (str_eq name) (names_of t l)) (is_link_of user_id)
                t.user_roles)
          ∙ among) in
    let (own, named) = &&-eq-true (is_link_of user_id row) (any (str_eq name) (names_of t row)) e in
    let of_link = λ (r : RoleRow). str_eq r.id row.role_id && in_scope r.realm_scope workforce in
    let (role, listed, g) =
      member_of_any (λ (r : RoleRow). of_link r && str_eq name r.name) t.roles
        (sym (
            any-map (str_eq name) (λ (r : RoleRow). r.name) (keep_where of_link t.roles)
            ∙ any-keep_where (λ (r : RoleRow). str_eq name r.name) of_link t.roles)
          ∙ named) in
    record {
      row = row;
      linked = linked;
      own = ground (arith, own, eq_iff row.user_id user_id);
      role = role;
      listed = listed;
      same_role = ground (arith, g, eq_iff role.id row.role_id);
      same_name = ground (arith, g, eq_iff name role.name);
      of_workforce = scope_of role.realm_scope (ground (arith, g));
    }

kept_key :
    (key : String) (xs : List String)
    → is_empty key ≡ false
    → any (λ k. not (is_empty k) && str_eq key k) xs ≡ any (str_eq key) xs
kept_key key [] e = refl
kept_key key (x ∷ xs) e = elim (Bool-cases (str_eq key x)) [
  | inl same ↦
      let full : is_empty x ≡ false = ap is_empty (sym ((eq_iff key x).0 same)) ∙ e in
      ground (arith, full, same)
  | inr other ↦ ground (arith, other, kept_key key xs e)
]

-- The keys that are asked for are those that a text of the request has but for its blanks.
pub any-normalized :
    (key : String) (keys : List String)
    → is_empty key ≡ false
    → any (str_eq key) (normalized keys) ≡ any (λ k. str_eq key (trim k)) keys
unfolding normalized
any-normalized key keys e =
    any-sort_by (str_eq key) str_leb (keep_where (λ k. not (is_empty k)) (distinct (map trim keys)))
    ∙ any-keep_where (str_eq key) (λ k. not (is_empty k)) (distinct (map trim keys))
    ∙ kept_key key (distinct (map trim keys)) e
    ∙ any-distinct key (map trim keys)
    ∙ any-map (str_eq key) trim keys
