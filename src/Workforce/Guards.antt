-- ===== src/Workforce/Guards.antt =====
-- What the checks at the beginning of an operation establish for the rest of it.
use ai_agent_platform.Identity.{is_workforce}
use mathlib.Core.Path.{subst}
use ai_agent_platform.Base.{
  return, leb, String, Bool, true, false, not, ◌&&◌, ◌||◌, ◌≡◌, refl, sym, ap, ◌∙◌, List, str_eq,
  eq_iff, ok, err, ◌>>=◌, ◌>>◌, >>=-elim, Result, if◌then◌else◌, any, Option, none, some, throw_if,
  throw_if-then, not-eq-false, find_first-holds, find_first,
}
use ai_agent_platform.Directory.{Tables, UserRow, is_user}
use ai_agent_platform.Workforce.Model.{
  target_realm_invalid, last_super_admin, super_admin_required, self_mutation_forbidden,
  permission_denied, workforce_error, WorkforceRole, admin, super_admin, WorkforceTx,
  WorkforceTarget, Failure, is_admin, is_super_admin, is_privileged,
}
use ai_agent_platform.Workforce.Repository.{
  target_of, count_active_super_admins, find_target, list_roles, has_permission, find_user,
  targeted,
}
use ai_agent_platform.Workforce.Service.{
  authorize, check_permission, authoritative_actor_role, is_acting, actor_roles, target_found,
  require_target, protect_administrative_target, check_grant, manage, assigned_roles,
  check_last_super_admin,
}

-- An account that may act: an active one of the workforce.
abbrev pub is_active_workforce : Tables → String → Bool
is_active_workforce t id = is_acting (find_target t id)

abbrev pub has_super_admin : Tables → String → Bool
has_super_admin t id = any is_super_admin (list_roles t id)

abbrev pub has_privilege : Tables → String → Bool
has_privilege t id = any is_privileged (list_roles t id)

-- The actor may act, holds the permission and an administrative role.
pub record IsAuthorized (actor : String) (permission : String) (t : Tables) (role : WorkforceRole)
    : Type 0 where
  pub permitted : has_permission t actor permission ≡ true
  pub acting : is_active_workforce t actor ≡ true
  pub role_super : is_super_admin role ≡ has_super_admin t actor

acting_role :
    (actor : String) (permission : String) (t : Tables) (o : Option WorkforceTarget)
    {role : WorkforceRole} {u : Tables}
    → find_target t actor ≡ o
    → has_permission t actor permission ≡ true
    → (let x : Result Failure (WorkforceRole × Tables) =
          if not (is_acting o)
            || (not (any is_admin (actor_roles t actor o))
                && not (any is_super_admin (actor_roles t actor o)))
          then err (workforce_error permission_denied)
          else ok (if any is_super_admin (actor_roles t actor o) then super_admin else admin, t) in
        x ≡ ok (role, u))
    → IsAuthorized actor permission t role × (u ≡ t)
acting_role actor permission t none e p h = cc
acting_role actor permission t (some a) {role} {u} e p h =
    branch (is_acting (some a)) (any is_admin (list_roles t actor)) (has_super_admin t actor)
      (ap is_acting e) refl h
  where
    branch :
        (x y z : Bool)
        → is_active_workforce t actor ≡ x
        → has_super_admin t actor ≡ z
        → (let v : Result Failure (WorkforceRole × Tables) =
              if not x || (not y && not z)
              then err (workforce_error permission_denied)
              else ok (if z then super_admin else admin, t) in
            v ≡ ok (role, u))
        → IsAuthorized actor permission t role × (u ≡ t)
    branch false y z f g k = cc
    branch true false false f g k = cc
    branch true true false f g k = (record { permitted = p; acting = f; role_super = cc }, cc)
    branch true true true f g k = (record { permitted = p; acting = f; role_super = cc }, cc)
    branch true false true f g k = (record { permitted = p; acting = f; role_super = cc }, cc)

permitted_then :
    (actor permission : String) (t : Tables) {r : WorkforceRole × Tables}
    → authorize actor permission t ≡ ok r
    → (throw_if (not (has_permission t actor permission)) (workforce_error permission_denied)
          >> authoritative_actor_role actor)
        t
      ≡ ok r
unfolding authorize check_permission ◌>>=◌
permitted_then actor permission t h = h

acting_then :
    (actor : String) (t : Tables) {role : WorkforceRole} {u : Tables}
    → authoritative_actor_role actor t ≡ ok (role, u)
    → (let o = find_target t actor in
        let x : Result Failure (WorkforceRole × Tables) =
          if not (is_acting o)
            || (not (any is_admin (actor_roles t actor o))
                && not (any is_super_admin (actor_roles t actor o)))
          then err (workforce_error permission_denied)
          else ok (if any is_super_admin (actor_roles t actor o) then super_admin else admin, t) in
        x ≡ ok (role, u))
unfolding authoritative_actor_role
acting_then actor t h = h

module _ {A : Type 0} {r : A × Tables} where
  pub authorize-then :
      (actor permission : String) (f : WorkforceRole → WorkforceTx A) (t : Tables)
      → (authorize actor permission >>= f) t ≡ ok r
      → (role : WorkforceRole) × IsAuthorized actor permission t role × (f role t ≡ ok r)
  unfolding authorize
  authorize-then actor permission f t h = >>=-elim (authorize actor permission) f t h λ role u p q.
      let (allowed, k) =
        throw_if-then _ _ (authoritative_actor_role actor) t
          (permitted_then actor permission t p) in
      let (w, e) =
        acting_role actor permission t (find_target t actor) refl (not-eq-false _ allowed)
          (acting_then actor t k) in
      (role, w, subst (λ v. f role v ≡ ok r) e q)

-- The account of the workforce that an operation is about.
pub record IsTarget (id : String) (t : Tables) (target : WorkforceTarget) : Type 0 where
  pub found : find_target t id ≡ some target
  pub of_workforce : is_workforce target.realm ≡ true
  pub same_id : target.id ≡ id

found_id :
    (t : Tables) (id : String) (o : Option UserRow) {target : WorkforceTarget}
    → find_first (is_user id) t.users ≡ o
    → targeted t o ≡ some target
    → target.id ≡ id
found_id t id none e h = cc
found_id t id (some u) {target} e h =
    let x : WorkforceTarget = target_of t u in
    let e2 : x ≡ target = cc in
    ap WorkforceTarget.id (sym e2) ∙ (eq_iff u.id id).0 (find_first-holds (is_user id) t.users u e)

target_found-IsTarget :
    (id : String) (t : Tables) (o : Option WorkforceTarget) {target : WorkforceTarget} {u : Tables}
    → find_target t id ≡ o
    → target_found o t ≡ ok (target, u)
    → IsTarget id t target × (u ≡ t)
target_found-IsTarget id t none e h = cc
target_found-IsTarget id t (some a) {target} {u} e h = split (is_workforce a.realm) refl h
  where
    split :
        (x : Bool)
        → is_workforce a.realm ≡ x
        → (let v : Result Failure (WorkforceTarget × Tables) =
              if not x then err (workforce_error target_realm_invalid) else ok (a, t) in
            v ≡ ok (target, u))
        → IsTarget id t target × (u ≡ t)
    split true w k =
        let same : a ≡ target = cc in
        (
          subst (IsTarget id t) same (record {
            found = e;
            of_workforce = w;
            same_id = found_id t id (find_user t id) {target = a} refl (unfold find_target in e);
          }),
          cc,
        )
    split false w k = cc

module _ {A : Type 0} {r : A × Tables} where
  pub require_target-then :
      (id : String) (f : WorkforceTarget → WorkforceTx A) (t : Tables)
      → (require_target id >>= f) t ≡ ok r
      → (target : WorkforceTarget) × IsTarget id t target × (f target t ≡ ok r)
  unfolding require_target
  require_target-then id f t h = >>=-elim (require_target id) f t h λ a u p q.
      let (w, e) = target_found-IsTarget id t (find_target t id) refl p in
      (a, w, subst (λ v. f a v ≡ ok r) e q)

  pub protect-then :
      (actor : String) (role : WorkforceRole) (target : WorkforceTarget) (k : WorkforceTx A)
      (t : Tables)
      → (protect_administrative_target actor role target >> k) t ≡ ok r
      → (str_eq actor target.id ≡ false)
        × ((not (is_super_admin role) && has_privilege t target.id) ≡ false)
        × (k t ≡ ok r)
  unfolding protect_administrative_target ◌>>=◌
  protect-then actor role target k t h =
      split (str_eq actor target.id) (not (is_super_admin role) && has_privilege t target.id) h
    where
      split :
          (x y : Bool)
          → ((λ (s : Tables).
                  if x
                  then err (workforce_error self_mutation_forbidden)
                  else throw_if y (workforce_error super_admin_required) s)
                >> k)
              t
            ≡ ok r
          → (x ≡ false) × (y ≡ false) × (k t ≡ ok r)
      split true y e = cc
      split false true e = cc
      split false false e = (refl, refl, e)

  pub check_grant-then :
      (actor_role role : WorkforceRole) (k : WorkforceTx A) (t : Tables)
      → (check_grant actor_role role >> k) t ≡ ok r
      → ((is_privileged role && not (is_super_admin actor_role)) ≡ false) × (k t ≡ ok r)
  unfolding check_grant
  check_grant-then actor_role role k t h = throw_if-then _ _ k t h

  pub check_last_super_admin-then :
      (loses : Bool) (k : WorkforceTx A) (t : Tables)
      → (check_last_super_admin loses >> k) t ≡ ok r
      → ((loses && leb (count_active_super_admins t) 1) ≡ false) × (k t ≡ ok r)
  unfolding check_last_super_admin ◌>>=◌
  check_last_super_admin-then loses k t h =
      throw_if-then (loses && leb (count_active_super_admins t) 1)
        (workforce_error last_super_admin) k t h

  pub assigned_roles-then :
      (id : String) (f : List WorkforceRole → WorkforceTx A) (t : Tables)
      → (assigned_roles id >>= f) t ≡ ok r
      → f (list_roles t id) t ≡ ok r
  unfolding assigned_roles ◌>>=◌
  assigned_roles-then id f t h = h

manage-eq-ok :
    (actor : String) (role : WorkforceRole) (id : String) (t : Tables) {a : WorkforceTarget}
    {u : Tables}
    → manage actor role id t ≡ ok (a, u)
    → IsTarget id t a
      × (str_eq actor a.id ≡ false)
      × ((not (is_super_admin role) && has_privilege t a.id) ≡ false)
      × (u ≡ t)
unfolding manage
manage-eq-ok actor role id t {a} {u} h =
    let (target, w, p) =
      require_target-then id (λ b. protect_administrative_target actor role b >> return b) t h in
    let (d, k, q) = protect-then actor role target (return target) t p in
    let same : target ≡ a = cc in
    (
      subst (IsTarget id t) same w,
      subst (λ (b : WorkforceTarget). str_eq actor b.id ≡ false) same d,
      subst (λ (b : WorkforceTarget). (not (is_super_admin role) && has_privilege t b.id) ≡ false)
          same k,
      cc,
    )

module _ {A : Type 0} {r : A × Tables} where
  pub manage-then :
      (actor : String) (role : WorkforceRole) (id : String) (f : WorkforceTarget → WorkforceTx A)
      (t : Tables)
      → (manage actor role id >>= f) t ≡ ok r
      → (target : WorkforceTarget) × IsTarget id t target
        × (str_eq actor target.id ≡ false)
        × ((not (is_super_admin role) && has_privilege t target.id) ≡ false)
        × (f target t ≡ ok r)
  manage-then actor role id f t h = >>=-elim (manage actor role id) f t h λ a u p q.
      let (w, d, k, e) = manage-eq-ok actor role id t p in
      (a, w, d, k, subst (λ v. f a v ≡ ok r) e q)
