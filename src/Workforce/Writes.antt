-- ===== src/Workforce/Writes.antt =====
-- The statements of the service write the rows of one user only.
use mathlib.Core.Path.{subst}
use ai_agent_platform.Base.{
  &&-eq-true, String, Bool, true, false, ◌≡◌, refl, ap, ◌∙◌, [], ◌∷◌, ◌++◌, find_first,
  find_first-append_other, find_first-update_other, str_eq, eq_iff, arith, ok, err, Result,
  if◌then◌else◌, any, Option, none, some, ◌&&◌, delete_where, update_where,
}
use ai_agent_platform.Identity.{UserStatus}
use ai_agent_platform.Access.Repository.{RoleRow, UserRoleRow}
use ai_agent_platform.Directory.{
  same_email, same_username, Tables, UserRow, AuditRow, AccountRow, is_user, is_link_of,
  insert_user, insert_account, insert_link, insert_audit,
}
use ai_agent_platform.Directory.Links.{keep_where-delete_other, keep_where-append_other}
use ai_agent_platform.Workforce.Model.{unique_violation, WorkforceRole, Failure}
use ai_agent_platform.Workforce.Repository.{
  link, assign_only_role, add_role_link, remove_role_link, set_status, replace_password,
  revoke_sessions, create_workforce_identity, is_workforce_role,
}
use ai_agent_platform.Workforce.Scope.{IsConfined-trans, IsConfined, Confined, Confined-bind}

module _ (target : String) where
  -- What a text other than the target is other than.
  other_text :
      (id key : String)
      → str_eq id target ≡ false
      → str_eq key target ≡ true
      → str_eq key id ≡ false
  other_text id key d h = ground (arith, eq_iff key target, eq_iff key id, eq_iff id target)

  -- Rows of users changed at the target's id, which stays.
  updated_users :
      (f : UserRow → UserRow) (t : Tables)
      → ((u : UserRow) → (f u).id ≡ u.id)
      → IsConfined target t (record t { users = update_where (is_user target) f t.users })
  updated_users f t keeps = record {
    user_other = λ id d.
        find_first-update_other (is_user id) (is_user target) f t.users (λ u h.
          (other_text id u.id d h, ap (λ k. str_eq k id) (keeps u) ∙ other_text id u.id d h));
    links_other = λ id d. refl;
    same_roles = refl;
  }

  deleted_links :
      (q : UserRoleRow → Bool) (t : Tables)
      → ((l : UserRoleRow) → q l ≡ true → is_link_of target l ≡ true)
      → IsConfined target t (record t { user_roles = delete_where q t.user_roles })
  deleted_links q t own = record {
    user_other = λ id d. refl;
    links_other = λ id d.
        keep_where-delete_other (is_link_of id) q t.user_roles
          (λ l h. other_text id l.user_id d (own l h));
    same_roles = refl;
  }

  inserted_link :
      (l : UserRoleRow) (t : Tables)
      → is_link_of target l ≡ true
      → IsConfined target t (record t { user_roles = t.user_roles ++ l ∷ [] })
  inserted_link l t own = record {
    user_other = λ id d. refl;
    links_other = λ id d.
        keep_where-append_other (is_link_of id) t.user_roles l (other_text id l.user_id d own);
    same_roles = refl;
  }

  own_text : str_eq target target ≡ true
  own_text = (eq_iff target target).1 refl

  same_tables :
      {A : Type 0} {a b : A} {t u : Tables}
      → (let x : Result Failure (A × Tables) = ok (a, t) in x ≡ ok (b, u))
      → t ≡ u
  same_tables e = cc

  pub set_status-Confined : (status : UserStatus) → Confined target (set_status target status)
  unfolding set_status
  set_status-Confined status = record {
    at = λ t h.
        subst (IsConfined target t) (same_tables h)
          (updated_users (λ u. record u { status = status }) t (λ u. refl));
  }

  pub replace_password-Confined : (hash : String) → Confined target (replace_password target hash)
  unfolding replace_password
  replace_password-Confined hash = record {
    at = λ t h. subst (IsConfined target t) (same_tables h) (
        let w = updated_users (λ u. record u { must_change_password = true }) t (λ u. refl) in
        record {
          user_other = w.user_other;
          links_other = w.links_other;
          same_roles = w.same_roles;
        });
  }

  pub revoke_sessions-Confined : Confined target (revoke_sessions target)
  unfolding revoke_sessions
  revoke_sessions-Confined = record {
    at = λ t h.
        subst (IsConfined target t) (same_tables h)
          (record { user_other = λ id d. refl; links_other = λ id d. refl; same_roles = refl });
  }

  pub insert_audit-Confined : (a : AuditRow) → Confined target (insert_audit a)
  unfolding insert_audit
  insert_audit-Confined a = record {
    at = λ t h.
        subst (IsConfined target t) (same_tables h)
          (record { user_other = λ id d. refl; links_other = λ id d. refl; same_roles = refl });
  }

  -- A statement on the role that is found.
  with_role_found :
      {u : Tables} (f : RoleRow → Result Failure (Unit {0} × Tables)) (e : Failure) (t : Tables)
      (o : Option RoleRow)
      → ((r : RoleRow) → f r ≡ ok (tt, u) → IsConfined target t u)
      → (elim o [ none ↦ err e | some r ↦ f r ]) ≡ ok (tt, u)
      → IsConfined target t u
  with_role_found f e t none k h = cc
  with_role_found f e t (some r) k h = k r h

  -- A statement that a unique index may refuse.
  refused_or :
      {u v : Tables} (b : Bool) (e : Failure) (t : Tables)
      → IsConfined target t v
      → (let x : Result Failure (Unit {0} × Tables) = if b then err e else ok (tt, v) in
          x ≡ ok (tt, u))
      → IsConfined target t u
  refused_or true e t w h = cc
  refused_or false e t w h = subst (IsConfined target t) (same_tables h) w

  pub assign_only_role-Confined :
      (role : WorkforceRole) (by : String) → Confined target (assign_only_role target role by)
  unfolding assign_only_role
  assign_only_role-Confined role by = record {
    at = λ t h.
        with_role_found _ _ t (find_first (is_workforce_role role) t.roles)
          (λ r k. subst (IsConfined target t) (same_tables k) (
            IsConfined-trans (deleted_links (is_link_of target) t (λ l q. q)) (
              inserted_link (link target r by)
                (record t { user_roles = delete_where (is_link_of target) t.user_roles })
                own_text)))
          h;
  }

  pub add_role_link-Confined :
      (role : WorkforceRole) (by : String) → Confined target (add_role_link target role by)
  unfolding add_role_link insert_link
  add_role_link-Confined role by = record {
    at = λ t h.
        with_role_found _ _ t (find_first (is_workforce_role role) t.roles)
          (λ r k. refused_or _ _ t (inserted_link (link target r by) t own_text) k) h;
  }

  pub remove_role_link-Confined :
      (role : WorkforceRole) → Confined target (remove_role_link target role)
  unfolding remove_role_link
  remove_role_link-Confined role = record {
    at = λ t h.
        with_role_found _ _ t (find_first (is_workforce_role role) t.roles)
          (λ r k. subst (IsConfined target t) (same_tables k) (
            deleted_links (λ l. is_link_of target l && str_eq l.role_id r.id) t
              (λ l q. (&&-eq-true (is_link_of target l) (str_eq l.role_id r.id) q).0)))
          h;
  }

  refused_thrice :
      {u v : Tables} (a b c : Bool) (e : String → Failure) (t : Tables)
      → IsConfined target t v
      → (let x : Result Failure (Unit {0} × Tables) =
            if a
            then err (e "users_pkey")
            else if b
            then err (e "users_email_lower_unique")
            else if c
            then err (e "users_username_lower_unique")
            else ok (tt, v) in
          x ≡ ok (tt, u))
      → IsConfined target t u
  refused_thrice true b c e t w h = cc
  refused_thrice false true c e t w h = cc
  refused_thrice false false c e t w h = refused_or c _ t w h

  insert_user-Confined :
      (e : String → Failure) (lower : String → String) (u : UserRow)
      → str_eq u.id target ≡ true
      → Confined target (insert_user e lower u)
  unfolding insert_user
  insert_user-Confined e lower u own = record {
    at = λ t h.
        refused_thrice (any (is_user u.id) t.users) (any (same_email lower u) t.users)
          (any (λ v. same_username lower v.username u.username) t.users) e t
          (record {
            user_other =
                λ id d. find_first-append_other (is_user id) t.users u (other_text id u.id d own);
            links_other = λ id d. refl;
            same_roles = refl;
          })
          h;
  }

  insert_account-Confined : (e : Failure) (a : AccountRow) → Confined target (insert_account e a)
  unfolding insert_account
  insert_account-Confined e a = record {
    at = λ t h.
        refused_or _ _ t
          (record { user_other = λ id d. refl; links_other = λ id d. refl; same_roles = refl }) h;
  }

  pub create_workforce_identity-Confined :
      (lower : String → String) (u : UserRow) (hash : String)
      → str_eq u.id target ≡ true
      → Confined target (create_workforce_identity lower u hash)
  unfolding create_workforce_identity
  create_workforce_identity-Confined lower u hash own =
      Confined-bind _ _ (insert_user-Confined unique_violation lower u own)
        (λ _. insert_account-Confined (unique_violation "accounts_provider_id_account_id_unique") _)
