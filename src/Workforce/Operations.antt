-- ===== src/Workforce/Operations.antt =====
-- What a successful operation of the service implies: who acted, and what was left alone.
use mathlib.Core.Path.{subst}
use ai_agent_platform.Base.{
  return, eq_iff, if◌then◌else◌, Result, delete_where, String, Bool, true, false, not, ◌&&◌, ◌≡◌,
  refl, ap, List, keep_where, str_eq, ok, err, ◌>>=◌, ◌>>◌, >>=-elim, any, throw_if-then, [], ◌∷◌,
}
use ai_agent_platform.Identity.{active, disabled}
use ai_agent_platform.Directory.{insert_user, UserRow, insert_audit, is_user, Tables, is_session_of}
use ai_agent_platform.Directory.Links.{keep_where-delete_self}
use ai_agent_platform.Workforce.Model.{
  unique_violation, Failure, WorkforceRole, WorkforceTx, WorkforceTarget, is_privileged,
  is_super_admin,
}
use ai_agent_platform.Workforce.Repository.{create_workforce_identity, revoke_sessions}
use ai_agent_platform.Workforce.Service.{
  new_user, only_role, write_update, set_role_tx, add_role_tx, remove_role_tx, disable_user_tx,
  reactivate_user_tx, replace_temporary_password_tx, create_user_tx, Texts, CreateInput,
}
use ai_agent_platform.Workforce.Scope.{IsConfined-refl, IsConfined, Confined, Confined-bind}
use ai_agent_platform.Workforce.Writes
use ai_agent_platform.Workforce.Guards.{
  IsAuthorized, authorize-then, manage-then, check_grant-then, check_last_super_admin-then,
  assigned_roles-then, require_target-then, protect-then, is_active_workforce, has_super_admin,
  has_privilege, IsTarget,
}

-- The actor may act, and may change the target, which is another account.
pub record IsManaged (actor target : String) (t u : Tables) : Type 0 where
  pub acting : is_active_workforce t actor ≡ true
  pub differs : str_eq actor target ≡ false
  pub protected : (not (has_super_admin t actor) && has_privilege t target) ≡ false
  pub confined : IsConfined target t u

-- A privileged role is granted or taken by a super administrator only.
abbrev pub IsGrant : String → WorkforceRole → Tables → Type 0
IsGrant actor role t = (is_privileged role && not (has_super_admin t actor)) ≡ false

abbrev pub IsSignedOut : String → Tables → Type 0
IsSignedOut id u = keep_where (is_session_of id) u.sessions ≡ []

managed :
    {actor permission target : String} {t u : Tables} {role : WorkforceRole} {a : WorkforceTarget}
    → IsAuthorized actor permission t role
    → IsTarget target t a
    → str_eq actor a.id ≡ false
    → (not (is_super_admin role) && has_privilege t a.id) ≡ false
    → IsConfined target t u
    → IsManaged actor target t u
managed {actor} {permission} {target} {t} {u} {role} {a} w g d p c = record {
  acting = w.acting;
  differs = subst (λ id. str_eq actor id ≡ false) g.same_id d;
  protected =
      subst (λ id. (not (has_super_admin t actor) && has_privilege t id) ≡ false) g.same_id
        (subst (λ b. (not b && has_privilege t a.id) ≡ false) w.role_super p);
  confined = c;
}

write_update-Confined :
    (actor target : String) (m : List (String × String))
    → Confined target (write_update actor target m)
unfolding write_update
write_update-Confined actor target m = Writes.insert_audit-Confined target _

emptied :
    (actor target : String) (metadata : List (String × String)) (t : Tables) {u : Tables}
    → (revoke_sessions target >> write_update actor target metadata) t ≡ ok (tt, u)
    → IsSignedOut target u
unfolding ◌>>=◌ revoke_sessions write_update insert_audit
emptied actor target metadata t {u} h =
    let e : delete_where (is_session_of target) t.sessions ≡ u.sessions = sessions_of h in
    subst (λ l. keep_where (is_session_of target) l ≡ []) e
      (keep_where-delete_self (is_session_of target) t.sessions)
  where
    sessions_of :
        {v w : Tables}
        → (let x : Result Failure (Unit {0} × Tables) = ok (tt, v) in x ≡ ok (tt, w))
        → v.sessions ≡ w.sessions
    sessions_of {v} {w} k = let same : v ≡ w = cc in ap Tables.sessions same

-- The end of most operations: a write, and every session of the target deleted.
revoked_after :
    (actor target : String) (metadata : List (String × String)) (m : WorkforceTx (Unit {0}))
    (t : Tables) {u : Tables}
    → Confined target m
    → (m >> (revoke_sessions target >> write_update actor target metadata)) t ≡ ok (tt, u)
    → IsConfined target t u × IsSignedOut target u
revoked_after actor target metadata m t {u} c h = (
  (Confined-bind _ _ c (λ _.
        Confined-bind _ _ (Writes.revoke_sessions-Confined target)
          (λ _. write_update-Confined actor target metadata))).at
      t h,
  >>=-elim m _ t h λ x v p q. emptied actor target metadata v q,
)

only_role-then :
    {r : Unit {0} × Tables} (rs : List WorkforceRole) (f : WorkforceRole → WorkforceTx (Unit {0}))
    (t : Tables)
    → (only_role rs >>= f) t ≡ ok r
    → (role : WorkforceRole) × (f role t ≡ ok r)
unfolding ◌>>=◌
only_role-then [] f t h = cc
only_role-then (x ∷ []) f t h = (x, h)
only_role-then (x ∷ y ∷ rest) f t h = cc

pub set_role_tx-IsManaged :
    (target : String) (role : WorkforceRole) (actor : String) (t : Tables) {u : Tables}
    → set_role_tx target role actor t ≡ ok (tt, u)
    → IsManaged actor target t u × IsGrant actor role t × IsSignedOut target u
unfolding set_role_tx
set_role_tx-IsManaged target role actor t h =
    let (actor_role, w, h1) = authorize-then _ _ _ t h in
    let (g, h2) = check_grant-then _ _ _ t h1 in
    let (a, k, h3) = require_target-then _ _ t h2 in
    let (_, h4) = throw_if-then _ _ _ t h3 in
    let (d, p, h5) = protect-then _ _ _ _ t h4 in
    let (_, h7) = check_last_super_admin-then _ _ t (assigned_roles-then _ _ t h5) in
    let (_, h8) = only_role-then _ _ t h7 in
    let (c, o) =
      revoked_after actor target _ _ t (Writes.assign_only_role-Confined target role actor) h8 in
    (managed w k d p c, subst (λ b. (is_privileged role && not b) ≡ false) w.role_super g, o)

pub add_role_tx-IsManaged :
    (target : String) (role : WorkforceRole) (actor : String) (t : Tables) {u : Tables}
    → add_role_tx target role actor t ≡ ok (tt, u)
    → IsManaged actor target t u × IsGrant actor role t × IsSignedOut target u
unfolding add_role_tx
add_role_tx-IsManaged target role actor t h =
    let (actor_role, w, h1) = authorize-then _ _ _ t h in
    let (a, k, d, p, h2) = manage-then _ _ _ _ t h1 in
    let (g, h3) = check_grant-then _ _ _ t h2 in
    let (_, h4) = throw_if-then _ _ _ t (assigned_roles-then _ _ t h3) in
    let (c, o) =
      revoked_after actor target _ _ t (Writes.add_role_link-Confined target role actor) h4 in
    (managed w k d p c, subst (λ b. (is_privileged role && not b) ≡ false) w.role_super g, o)

pub remove_role_tx-IsManaged :
    (target : String) (role : WorkforceRole) (actor : String) (t : Tables) {u : Tables}
    → remove_role_tx target role actor t ≡ ok (tt, u)
    → IsManaged actor target t u × IsGrant actor role t × IsSignedOut target u
unfolding remove_role_tx
remove_role_tx-IsManaged target role actor t h =
    let (actor_role, w, h1) = authorize-then _ _ _ t h in
    let (a, k, d, p, h2) = manage-then _ _ _ _ t h1 in
    let (g, h3) = check_grant-then _ _ _ t h2 in
    let (_, h4) = throw_if-then _ _ _ t (assigned_roles-then _ _ t h3) in
    let (_, h5) = throw_if-then _ _ _ t h4 in
    let (_, h6) = check_last_super_admin-then _ _ t h5 in
    let (c, o) =
      revoked_after actor target _ _ t (Writes.remove_role_link-Confined target role) h6 in
    (managed w k d p c, subst (λ b. (is_privileged role && not b) ≡ false) w.role_super g, o)

pub disable_user_tx-IsManaged :
    (target actor : String) (t : Tables) {u : Tables}
    → disable_user_tx target actor t ≡ ok (tt, u)
    → IsManaged actor target t u × IsSignedOut target u
unfolding disable_user_tx
disable_user_tx-IsManaged target actor t h =
    let (actor_role, w, h1) = authorize-then _ _ _ t h in
    let (a, k, d, p, h2) = manage-then _ _ _ _ t h1 in
    let (_, h3) = check_last_super_admin-then _ _ t (assigned_roles-then _ _ t h2) in
    let (c, o) = revoked_after actor target _ _ t (Writes.set_status-Confined target disabled) h3 in
    (managed w k d p c, o)

pub replace_temporary_password_tx-IsManaged :
    (target hash actor : String) (t : Tables) {u : Tables}
    → replace_temporary_password_tx target hash actor t ≡ ok (tt, u)
    → IsManaged actor target t u × IsSignedOut target u
unfolding replace_temporary_password_tx
replace_temporary_password_tx-IsManaged target hash actor t h =
    let (actor_role, w, h1) = authorize-then _ _ _ t h in
    let (a, k, d, p, h2) = manage-then _ _ _ _ t h1 in
    let (c, o) =
      revoked_after actor target _ _ t (Writes.replace_password-Confined target hash) h2 in
    (managed w k d p c, o)

pub reactivate_user_tx-IsManaged :
    (target actor : String) (t : Tables) {u : Tables}
    → reactivate_user_tx target actor t ≡ ok (tt, u)
    → IsManaged actor target t u
unfolding reactivate_user_tx
reactivate_user_tx-IsManaged target actor t h =
    let (actor_role, w, h1) = authorize-then _ _ _ t h in
    let (a, k, h2) = require_target-then _ _ t h1 in
    let (_, h3) = throw_if-then _ _ _ t h2 in
    let (d, p, h4) = protect-then _ _ _ _ t h3 in
    managed w k d p (
      (Confined-bind _ _ (Writes.set_status-Confined target active)
          (λ _. write_update-Confined actor target _)).at
        t h4)

-- An identity is created under an id that no user has.
create_workforce_identity-absent :
    (lower : String → String) (u : UserRow) (hash : String) (t : Tables) {r : Unit {0} × Tables}
    → create_workforce_identity lower u hash t ≡ ok r
    → any (is_user u.id) t.users ≡ false
unfolding create_workforce_identity insert_user
create_workforce_identity-absent lower u hash t h =
    >>=-elim _ _ t h λ x v p q. not_refused (any (is_user u.id) t.users) _ p
  where
    not_refused :
        (b : Bool) (k : Result Failure (Unit {0} × Tables)) {r : Unit {0} × Tables}
        → (let x : Result Failure (Unit {0} × Tables) =
              if b then err (unique_violation "users_pkey") else k in
            x ≡ ok r)
        → b ≡ false
    not_refused true k e = cc
    not_refused false k e = refl

return-Confined : {A : Type 0} (target : String) (a : A) → Confined target (return a)
return-Confined {A} target a = record {
  at = λ t {a = b} {u} h.
      let same : t ≡ u = cc in subst (IsConfined target t) same (IsConfined-refl target t);
}

pub create_user_tx-IsManaged :
    (texts : Texts) (fresh : String) (input : CreateInput) (role : WorkforceRole) (actor : String)
    (t : Tables) {id : String} {u : Tables}
    → create_user_tx texts fresh input role actor t ≡ ok (id, u)
    → IsConfined fresh t u
      × IsGrant actor role t
      × (is_active_workforce t actor ≡ true)
      × (any (is_user fresh) t.users ≡ false)
unfolding create_user_tx
create_user_tx-IsManaged texts fresh input role actor t h =
    let (actor_role, w, h1) = authorize-then _ _ _ t h in
    let (g, h2) = check_grant-then _ _ _ t h1 in
    (
      (Confined-bind _ _
            (Writes.create_workforce_identity-Confined fresh texts.lower
              (new_user texts fresh input) _ own)
            (λ _. Confined-bind _ _ (Writes.assign_only_role-Confined fresh role actor) (λ _.
              Confined-bind _ _ (Writes.insert_audit-Confined fresh _)
                (λ _. return-Confined fresh fresh)))).at
          t h2,
      subst (λ b. (is_privileged role && not b) ≡ false) w.role_super g,
      w.acting,
      >>=-elim _ _ t h2 λ x v p q.
          create_workforce_identity-absent texts.lower (new_user texts fresh input) _ t p,
    )
  where
    own : str_eq fresh fresh ≡ true
    own = (eq_iff fresh fresh).1 refl
