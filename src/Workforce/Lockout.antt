-- ===== src/Workforce/Lockout.antt =====
-- A disabled account is signed out, and its session is worth nothing to the access service.
use ai_agent_platform.Directory.Acting.{with_actor-ok}
use ai_agent_platform.Base.{
  String, Bool, true, ◌≡◌, refl, sym, ap, ◌∙◌, List, [], ◌∷◌, map, find_first,
  find_first-update_self, update_where, str_eq, arith, ok, Result, ◌>>=◌, ◌>>◌, Option, none, some,
}
use ai_agent_platform.Identity.{customer, Realm, workforce, realm_eq, disabled, is_workforce}
use ai_agent_platform.Access.Model.{AuthenticatedSession, AuthoritativeUser, account_disabled}
use ai_agent_platform.Access.Session.{Value, parse_authenticated_session}
use ai_agent_platform.Access.Repository.{find_user_by_id}
use ai_agent_platform.Access.Service.{
  require_workforce, get_current_actor, forbidden, require_permission,
}
use ai_agent_platform.Directory.{Tables, UserRow, is_user, authoritative, access_view, insert_audit}
use ai_agent_platform.Workforce.Model.{access_error, WorkforceTarget, Failure}
use ai_agent_platform.Workforce.Repository.{
  find_target, find_user, targeted, set_status, revoke_sessions,
}
use ai_agent_platform.Workforce.Service.{Texts, disable_user, disable_user_tx, write_update}
use ai_agent_platform.Workforce.Guards.{
  IsTarget, authorize-then, manage-then, check_last_super_admin-then, assigned_roles-then,
}
use ai_agent_platform.Workforce.Operations.{IsSignedOut, disable_user_tx-IsManaged}

find_first-map :
    (id : String) (us : List UserRow) (x : UserRow)
    → find_first (is_user id) us ≡ some x
    → find_first (λ (u : AuthoritativeUser). str_eq u.id id) (map authoritative us)
      ≡ some (authoritative x)
find_first-map id [] x h = cc
find_first-map id (u ∷ us) x h = ground (arith, find_first-map id us x)

-- The row of an account that is found, with its realm.
found_row :
    (t : Tables) (o : Option UserRow) {a : WorkforceTarget}
    → targeted t o ≡ some a
    → is_workforce a.realm ≡ true
    → (x : UserRow) × (o ≡ some x) × (is_workforce x.realm ≡ true)
found_row t none h w = cc
found_row t (some x) {a} h w = (x, refl, cc)

target_row :
    (t : Tables) (id : String) {a : WorkforceTarget}
    → IsTarget id t a
    → (x : UserRow) × (find_user t id ≡ some x) × (is_workforce x.realm ≡ true)
unfolding find_target
target_row t id k = found_row t (find_user t id) k.found k.of_workforce

disabled_users :
    (id actor : String) (m : List (String × String)) (t : Tables) {u : Tables}
    → (set_status id disabled >> (revoke_sessions id >> write_update actor id m)) t ≡ ok (tt, u)
    → update_where (is_user id) (λ (x : UserRow). record x { status = disabled }) t.users ≡ u.users
unfolding ◌>>=◌ set_status revoke_sessions write_update insert_audit
disabled_users id actor m t h = users_of h
  where
    users_of :
        {v w : Tables}
        → (let x : Result Failure (Unit {0} × Tables) = ok (tt, v) in x ≡ ok (tt, w))
        → v.users ≡ w.users
    users_of {v} {w} k = let same : v ≡ w = cc in ap Tables.users same

disable_user_tx-row :
    (id actor : String) (t : Tables) {u : Tables}
    → disable_user_tx id actor t ≡ ok (tt, u)
    → (x : UserRow) × (find_user u id ≡ some (record x { status = disabled }))
      × (is_workforce x.realm ≡ true)
unfolding disable_user_tx
disable_user_tx-row id actor t h =
    let (role, w, h1) = authorize-then _ _ _ t h in
    let (a, k, d, p, h2) = manage-then _ _ _ _ t h1 in
    let (_, h3) = check_last_super_admin-then _ _ t (assigned_roles-then _ _ t h2) in
    let (x, f, r) = target_row t id k in
    (
      x,
      ap (find_first (is_user id)) (sym (disabled_users id actor _ t h3))
          ∙ find_first-update_self (is_user id) (λ (x : UserRow). record x { status = disabled })
              t.users x (λ y q. q) f,
      r,
    )

realm_of : (r : Realm) → is_workforce r ≡ true → realm_eq r workforce ≡ true
realm_of customer h = cc
realm_of workforce h = refl

-- A session of a disabled account of the workforce.
refused_session :
    (get_session : Realm → Value) (setup_flow : Bool) (u : Tables) (s : AuthenticatedSession)
    (x : UserRow)
    → parse_authenticated_session (get_session workforce) ≡ some s
    → realm_eq s.realm workforce ≡ true
    → find_user u s.user_id ≡ some (record x { status = disabled })
    → is_workforce x.realm ≡ true
    → require_workforce get_session (access_view u) setup_flow ≡ forbidden account_disabled
unfolding require_workforce get_current_actor find_user_by_id
refused_session get_session setup_flow u s x p r f w =
    let g : find_first (λ (v : AuthoritativeUser). str_eq v.id s.user_id)
          (map authoritative u.users)
        ≡ some (authoritative (record x { status = disabled })) =
      find_first-map s.user_id u.users (record x { status = disabled }) f in
    rw (p, r, g, realm_of x.realm w) refl

-- When an account has been disabled, it has no sessions, and the access service answers any
-- session of its with `account_disabled`, in the password setup too.
pub disable_user-locks_out :
    (texts : Texts) (session get_session : Realm → Value) (setup_flow : Bool) (id : String)
    (t u : Tables) (s : AuthenticatedSession)
    → disable_user texts session id t ≡ (ok tt, u)
    → parse_authenticated_session (get_session workforce) ≡ some s
    → realm_eq s.realm workforce ≡ true
    → s.user_id ≡ id
    → IsSignedOut id u
      × (require_workforce get_session (access_view u) setup_flow ≡ forbidden account_disabled)
unfolding disable_user
disable_user-locks_out texts session get_session setup_flow id t u s h p r e =
    let (actor, _, q) =
      with_actor-ok access_error (require_permission session (access_view t) "admin:users")
        (disable_user_tx id) t h in
    let (x, f, w) = disable_user_tx-row id actor.user_id t q in
    (
      (disable_user_tx-IsManaged id actor.user_id t q).1,
      refused_session get_session setup_flow u s x p r (ap (find_user u) e ∙ f) w,
    )
