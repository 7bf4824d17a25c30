-- ===== src/Roles/Links.antt =====
-- The links of a role after its permissions were replaced.
use ai_agent_platform.Directory.Links.{keep_where-append_other, keep_where-delete_other}
use ai_agent_platform.Base.{
  keep_where, String, Bool, true, false, not, ◌&&◌, ◌||◌, ◌≡◌, refl, sym, ap, ◌∙◌, List, [], ◌∷◌,
  ◌++◌, any, any-append, str_eq, eq_iff, arith, delete_where, Bool-cases, inl, inr,
}
use ai_agent_platform.Access.Repository.{RolePermissionRow}
use ai_agent_platform.Directory.{Tables}
use ai_agent_platform.Roles.Service.{is_grant, is_dropped, insert_grants, granted}

module _ (role_id permission_id : String) where
  any-grant_row :
      (id : String) (links : List RolePermissionRow)
      → any
          (is_grant role_id permission_id)
          (links ++ record { role_id = role_id; permission_id = id } ∷ [])
        ≡ (any (is_grant role_id permission_id) links || str_eq id permission_id)
  any-grant_row id links =
      any-append (is_grant role_id permission_id) links
        (record { role_id = role_id; permission_id = id } ∷ [])
      ∙ ground (arith, eq_iff role_id role_id)

  any-kept_row :
      (id : String) (links : List RolePermissionRow)
      → any (is_grant role_id id) links ≡ true
      → any (is_grant role_id permission_id) links
        ≡ (any (is_grant role_id permission_id) links || str_eq id permission_id)
  any-kept_row id links h = elim (Bool-cases (str_eq id permission_id)) [
    | inl e ↦
        let same : id ≡ permission_id = (eq_iff id permission_id).0 e in
        let g : any (is_grant role_id permission_id) links ≡ true =
          ap (λ k. any (is_grant role_id k) links) (sym same) ∙ h in
        ground (arith, g)
    | inr e ↦ ground (arith, e)
  ]

  -- After the insertion a permission is granted if it was, or if its id was inserted.
  any-insert_grants :
      (ids : List String) (links : List RolePermissionRow)
      → any (is_grant role_id permission_id) (insert_grants role_id ids links)
        ≡ (any (is_grant role_id permission_id) links || any (str_eq permission_id) ids)
  any-insert_grants [] links = ground arith
  any-insert_grants (id ∷ ids) links = elim (Bool-cases (any (is_grant role_id id) links)) [
    | inl e ↦ rw e (
        any-insert_grants ids links
        ∙ ground (arith, any-kept_row id links e, eq_iff id permission_id, eq_iff permission_id id))
    | inr e ↦ rw e (
        any-insert_grants ids (links ++ record { role_id = role_id; permission_id = id } ∷ [])
        ∙ ground (arith, any-grant_row id links, eq_iff id permission_id, eq_iff permission_id id))
  ]

  dropped_grant :
      (ids : List String) (l : RolePermissionRow)
      → is_grant role_id permission_id l ≡ true
      → is_dropped role_id ids l ≡ not (any (str_eq permission_id) ids)
  dropped_grant ids l h =
      let r : str_eq l.role_id role_id ≡ true = ground (arith, h) in
      let p : str_eq l.permission_id permission_id ≡ true = ground (arith, h) in
      let same : l.permission_id ≡ permission_id = (eq_iff l.permission_id permission_id).0 p in
      rw r (ap (λ k. not (any (str_eq k) ids)) same)

  any-delete_dropped :
      (ids : List String) (links : List RolePermissionRow)
      → any (is_grant role_id permission_id) (delete_where (is_dropped role_id ids) links)
        ≡ (any (is_grant role_id permission_id) links && any (str_eq permission_id) ids)
  any-delete_dropped ids [] = refl
  any-delete_dropped ids (l ∷ links) =
      ground (arith, any-delete_dropped ids links, dropped_grant ids l)

  -- After the replacement a role has a permission exactly if its id was asked for.
  pub any-granted :
      (ids : List String) (t : Tables)
      → any (is_grant role_id permission_id) (granted role_id ids t).role_permissions
        ≡ any (str_eq permission_id) ids
  any-granted ids t =
      any-insert_grants ids (delete_where (is_dropped role_id ids) t.role_permissions)
      ∙ ground (arith, any-delete_dropped ids t.role_permissions)

abbrev pub is_of_role : String → RolePermissionRow → Bool
is_of_role id l = str_eq l.role_id id

module _ (role_id other : String) (d : str_eq role_id other ≡ false) where
  insert_grants-other :
      (ids : List String) (links : List RolePermissionRow)
      → keep_where (is_of_role other) (insert_grants role_id ids links)
        ≡ keep_where (is_of_role other) links
  insert_grants-other [] links = refl
  insert_grants-other (id ∷ ids) links = elim (Bool-cases (any (is_grant role_id id) links)) [
    | inl e ↦ rw e (insert_grants-other ids links)
    | inr e ↦ rw e (
        insert_grants-other ids (links ++ record { role_id = role_id; permission_id = id } ∷ [])
        ∙ keep_where-append_other (is_of_role other) links
            (record { role_id = role_id; permission_id = id }) d)
  ]

  dropped_other :
      (ids : List String) (l : RolePermissionRow)
      → is_dropped role_id ids l ≡ true
      → is_of_role other l ≡ false
  dropped_other ids l h =
      ground (arith, eq_iff l.role_id role_id, eq_iff l.role_id other, eq_iff role_id other)

  -- The links of another role are those that it had.
  pub granted-other :
      (ids : List String) (t : Tables)
      → keep_where (is_of_role other) (granted role_id ids t).role_permissions
        ≡ keep_where (is_of_role other) t.role_permissions
  granted-other ids t =
      insert_grants-other ids (delete_where (is_dropped role_id ids) t.role_permissions)
      ∙ keep_where-delete_other (is_of_role other) (is_dropped role_id ids) t.role_permissions
          (dropped_other ids)
