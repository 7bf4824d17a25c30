-- ===== src/Access/Entitlement.antt =====
-- Which permissions the tables give a user, as a condition on the rows.
use ai_agent_platform.Base.{
  keep_where, String, Bool, ◌&&◌, ◌≡◌, ◌∙◌, ap, str_eq, List, any, any-join, any-keep_where,
  any-map, any_cong, any-sort_by, any-distinct,
}
use ai_agent_platform.Identity.{Realm, in_scope}
use ai_agent_platform.Access.Repository.{
  Tables, UserRoleRow, RoleRow, RolePermissionRow, PermissionRow, find_permission_keys,
  keys_of_permission, keys_of_role, keys_of_user_role, str_leb,
}

-- `EXISTS` over the joined tables: a role of the realm that the user has carries the permission.
unfoldable pub is_entitled : Tables → String → Realm → String → Bool
is_entitled t user_id realm key =
    any
      (λ (l : UserRoleRow).
        str_eq l.user_id user_id
        && any
            (λ (r : RoleRow).
              (str_eq l.role_id r.id && in_scope r.realm_scope realm)
              && any
                  (λ (rp : RolePermissionRow).
                    str_eq r.id rp.role_id
                    && any (λ (p : PermissionRow). str_eq rp.permission_id p.id && str_eq key p.key)
                        t.permissions)
                  t.role_permissions)
            t.roles)
      t.user_roles

module _ {A : Type 0} (q : A → Bool) (p p' : A → Bool) (xs : List A) where
  any-keep_where_cong : ((x : A) → p x ≡ p' x) → any p (keep_where q xs) ≡ any (λ x. q x && p' x) xs
  any-keep_where_cong h = any-keep_where p q xs ∙ any_cong _ _ xs (λ x. ap (λ b. q x && b) (h x))

-- The keys that the query returns are those that the user is entitled to.
pub find_permission_keys-is_entitled :
    (t : Tables) (user_id : String) (realm : Realm) (key : String)
    → any (str_eq key) (find_permission_keys t user_id realm) ≡ is_entitled t user_id realm key
unfolding find_permission_keys is_entitled
find_permission_keys-is_entitled t user_id realm key =
    any-sort_by (str_eq key) str_leb _
    ∙ any-distinct key _
    ∙ any-join (str_eq key) (keys_of_user_role t realm) _
    ∙ any-keep_where_cong _ _ _ t.user_roles λ l.
      any-join (str_eq key) (keys_of_role t) _
      ∙ any-keep_where_cong _ _ _ t.roles λ r.
        any-join (str_eq key) (keys_of_permission t) _
        ∙ any-keep_where_cong _ _ _ t.role_permissions λ rp.
          any-map (str_eq key) (λ (p : PermissionRow). p.key) _ ∙ any-keep_where _ _ t.permissions
