-- ===== src/Roles/Guards.antt =====
-- Who replaces the permissions of a role, and with what.
use ai_agent_platform.Directory.Acting.{with_actor-ok, insert_audit-ok}
use ai_agent_platform.Base.{
  is_empty, trim, [], ◌∷◌, ◌++◌, ==_iff, eq_iff, arith, String, Bool, true, false, not, ◌≡◌, refl,
  ap, ◌∙◌, Option, none, some, List, any, str_eq, length, ◌==◌, find_first, if◌then◌else◌, ok, err,
  Result, ◌>>=◌, ◌>>◌, >>=-elim, throw_if, throw_if-then,
}
use ai_agent_platform.Identity.{Realm, workforce, in_scope, workforce_scope}
use ai_agent_platform.Access.Session.{Value}
use ai_agent_platform.Access.Model.{WorkforceActor}
use ai_agent_platform.Access.Repository.{RoleRow}
use ai_agent_platform.Access.Service.{require_permission}
use ai_agent_platform.Directory.{number_value, Tables, access_view, is_permitted}
use ai_agent_platform.Roles.Holders.{
  scope_of, IsHolder, super_admin_name, role_names-IsHolder, any-normalized,
}
use ai_agent_platform.Roles.Service.{
  access_error, Failure, RoleTx, role_error, permission_denied, realm_invalid, super_admin_required,
  normalized, is_super_admin, find_actor_role, role_found, lock_role, check_actor, delegates,
  lacks_baseline, requested, ids_of, granted, replace_role_permissions, replace_tx,
  replace_permissions, audit_row,
}

module _ {A : Type 0} {r : A × Tables} where
  check_actor-then :
      (user_id : String) (k : RoleTx A) (t : Tables)
      → (check_actor user_id >> k) t ≡ ok r
      → (is_permitted t user_id "admin:roles" ≡ true)
        × (is_super_admin (find_actor_role t user_id) ≡ true)
        × (k t ≡ ok r)
  unfolding check_actor ◌>>=◌
  check_actor-then user_id k t h =
      split (is_permitted t user_id "admin:roles") (is_super_admin (find_actor_role t user_id)) h
    where
      split :
          (a b : Bool)
          → ((λ (s : Tables).
                  if not a
                  then err (role_error permission_denied)
                  else throw_if (not b) (role_error super_admin_required) s)
                >> k)
              t
            ≡ ok r
          → (a ≡ true) × (b ≡ true) × (k t ≡ ok r)
      split true true e = (refl, refl, e)
      split true false e = cc
      split false b e = cc

  lock_role-then :
      (id : String) (f : RoleRow → RoleTx A) (t : Tables)
      → (lock_role id >>= f) t ≡ ok r
      → (role : RoleRow) × (find_first (λ (x : RoleRow). str_eq x.id id) t.roles ≡ some role)
        × (in_scope role.realm_scope workforce ≡ true)
        × (f role t ≡ ok r)
  unfolding lock_role ◌>>=◌
  lock_role-then id f t h = split (find_first (λ (x : RoleRow). str_eq x.id id) t.roles) refl h
    where
      branch :
          (x : RoleRow) (b : Bool)
          → find_first (λ (x : RoleRow). str_eq x.id id) t.roles ≡ some x
          → in_scope x.realm_scope workforce ≡ b
          → ((λ (s : Tables).
                  let y : Result Failure (RoleRow × Tables) =
                    if not b then err (role_error realm_invalid) else ok (x, s) in
                  y)
                >>= f)
              t
            ≡ ok r
          → (role : RoleRow) × (find_first (λ (x : RoleRow). str_eq x.id id) t.roles ≡ some role)
            × (in_scope role.realm_scope workforce ≡ true)
            × (f role t ≡ ok r)
      branch x true e w k = (x, e, w, k)
      branch x false e w k = cc

      split :
          (o : Option RoleRow)
          → find_first (λ (x : RoleRow). str_eq x.id id) t.roles ≡ o
          → (role_found o >>= f) t ≡ ok r
          → (role : RoleRow) × (find_first (λ (x : RoleRow). str_eq x.id id) t.roles ≡ some role)
            × (in_scope role.realm_scope workforce ≡ true)
            × (f role t ≡ ok r)
      split none e k = cc
      split (some x) e k = branch x (in_scope x.realm_scope workforce) e refl k

replaced :
    (role_id : String) (keys : List String) (t : Tables) {u : Tables}
    → replace_role_permissions role_id keys t ≡ ok (tt, u)
    → ((length (requested keys t) == length keys) ≡ true)
      × (u ≡ granted role_id (ids_of (requested keys t)) t)
unfolding replace_role_permissions
replaced role_id keys t {u} h = split (length (requested keys t) == length keys) h
  where
    split :
        (b : Bool)
        → (let x : Result Failure (Unit {0} × Tables) =
              if not b
              then err (role_error permission_denied)
              else ok (tt, granted role_id (ids_of (requested keys t)) t) in
            x ≡ ok (tt, u))
        → (b ≡ true) × (u ≡ granted role_id (ids_of (requested keys t)) t)
    split true e = (refl, cc)
    split false e = cc

-- A replacement of the permissions of a role by the keys, by the account `actor`.
pub record IsReplacement (actor role_id : String) (keys : List String) (t u : Tables) : Type 0 where
  pub permitted : is_permitted t actor "admin:roles" ≡ true
  pub by_super_admin : IsHolder t actor "super_admin"
  pub role : RoleRow
  pub found : find_first (λ (x : RoleRow). str_eq x.id role_id) t.roles ≡ some role
  pub of_workforce : role.realm_scope ≡ workforce_scope
  pub kept_back : any (str_eq "admin:docs:delete") keys ≡ true → role.name ≡ "super_admin"
  pub baseline :
      role.name ≡ "super_admin"
      → (any (str_eq "admin:roles") keys ≡ true) × (any (str_eq "admin:docs:delete") keys ≡ true)
  pub all_known : length (requested keys t) ≡ length keys
  pub role_permissions :
      u.role_permissions ≡ (granted role_id (ids_of (requested keys t)) t).role_permissions
  pub audit :
      u.audit
      ≡ t.audit
        ++ record {
          actor_realm = workforce;
          actor_user_id = actor;
          action = "role.permissions_changed";
          target_type = "role";
          target_id = role_id;
          metadata = ("permissionCount", number_value (length keys)) ∷ [];
          ip_address = none;
          user_agent = none;
        }
          ∷ []

replace_tx-IsReplacement :
    (role_id : String) (keys : List String) (actor : String) (t : Tables) {u : Tables}
    → replace_tx role_id keys actor t ≡ ok (tt, u)
    → IsReplacement actor role_id keys t u
unfolding replace_tx
replace_tx-IsReplacement role_id keys actor t {u} h =
    let (p, s, h1) = check_actor-then actor _ t h in
    let (role, found, scope, h2) = lock_role-then role_id _ t h1 in
    let (d, h3) = throw_if-then (delegates role keys) _ _ t h2 in
    let (l, h4) = throw_if-then (lacks_baseline role keys) _ _ t h3 in
    >>=-elim (replace_role_permissions role_id keys) _ t h4 λ x v q k.
      let (known, e) = replaced role_id keys t q in
      let f = insert_audit-ok _ v k in
      record {
        permitted = p;
        by_super_admin = role_names-IsHolder t actor "super_admin" (super_admin_name t actor s);
        role = role;
        found = found;
        of_workforce = scope_of role.realm_scope scope;
        kept_back = λ wanted. ground (arith, d, eq_iff role.name "super_admin");
        baseline = λ named. (
          ground (arith, l, eq_iff role.name "super_admin"),
          ground (arith, l, eq_iff role.name "super_admin"),
        );
        all_known = (==_iff _ _).0 known;
        role_permissions = ap Tables.role_permissions f ∙ ap Tables.role_permissions e;
        audit =
            ap Tables.audit f ∙ ap (λ (w : Tables). w.audit ++ audit_row actor role_id keys ∷ []) e;
      }

-- The replacement of a request: its actor is the one that the access service names for the session.
pub record IsReplaced (get_session : Realm → Value) (role_id : String) (keys : List String)
    (t u : Tables) : Type 0 where
  pub actor : WorkforceActor
  pub signed_in : require_permission get_session (access_view t) "admin:roles" ≡ ok actor
  pub asked :
      (key : String)
      → is_empty key ≡ false
      → any (str_eq key) (normalized keys) ≡ any (λ k. str_eq key (trim k)) keys
  pub replacement : IsReplacement actor.user_id role_id (normalized keys) t u

-- The permissions of a role are replaced only by the account of the session, which holds the role
-- super_admin and the permission admin:roles, and only of a role of the workforce, by the keys that
-- the request has but for blanks around them; admin:docs:delete
-- is given to the role super_admin alone, which is always given it and admin:roles; and one audit
-- event in the name of that account is appended.
pub replace_permissions-IsReplaced :
    (get_session : Realm → Value) (role_id : String) (keys : List String) (t u : Tables)
    → replace_permissions get_session role_id keys t ≡ (ok tt, u)
    → IsReplaced get_session role_id keys t u
unfolding replace_permissions
replace_permissions-IsReplaced get_session role_id keys t u h =
    let (actor, signed_in, k) =
      with_actor-ok access_error (require_permission get_session (access_view t) "admin:roles")
        (replace_tx role_id (normalized keys)) t h in
    record {
      actor = actor;
      signed_in = signed_in;
      asked = λ key e. any-normalized key keys e;
      replacement = replace_tx-IsReplacement role_id (normalized keys) actor.user_id t k;
    }
