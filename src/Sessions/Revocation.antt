-- ===== src/Sessions/Revocation.antt =====
-- The revocations of admin/sessions.ts by administrators: what they remove, and what they leave.
use ai_agent_platform.Sessions.Selection.{
  revocation_event, IsRevoked, IsNamed, named, named_iff, audited, deleted,
}
use ai_agent_platform.Directory.Links.{keep_where-delete_other}
use mathlib.Core.Path.{subst}
use ai_agent_platform.Access.Service.{require_permission}
use ai_agent_platform.Access.Session.{Value}
use ai_agent_platform.Access.Model.{WorkforceActor}
use ai_agent_platform.Directory.Acting.{with_actor-ok}
use ai_agent_platform.Base.{
  eq_iff, keep_where, truthy, str_eq, ℕ, String, Bool, true, false, not, ◌&&◌, ◌≡◌, refl, sym, ap,
  ◌∙◌, Option, none, some, [], ◌∷◌, ◌++◌, ◌==◌, arith, find_first, delete_where, count_where, ok,
  err, Result, ◌>>=◌, ◌>>◌, >>=-elim, throw_if-then, if◌then◌else◌, is_some, not-eq-false,
}
use ai_agent_platform.Identity.{workforce, Realm, realm_eq, realm_eq_iff}
use ai_agent_platform.Directory.{
  access_view, Tables, UserRow, SessionRow, is_user, is_session_of, is_permitted,
}
use ai_agent_platform.Sessions.Service.{
  access_error, revoke, mutate_tx, SessionErrorCode, Failure, SessionTx, session_error,
  realm_invalid, delete_sessions, or_user, audit_row, write_audit, target_found, require_target,
  check_permission, is_one, revoke_named,
}

permitted_then :
    {A : Type 0} {r : A × Tables} (user_id : String) (k : SessionTx A) (t : Tables)
    → (check_permission user_id >> k) t ≡ ok r
    → (is_permitted t user_id "admin:users" ≡ true) × (k t ≡ ok r)
unfolding check_permission ◌>>=◌
permitted_then user_id k t h =
    let (p, q) =
      throw_if-then (not (is_permitted t user_id "admin:users"))
        (session_error SessionErrorCode.permission_denied) k t h in
    (not-eq-false _ p, q)

target_then :
    {A : Type 0} {r : A × Tables} (user_id : String) (realm : Realm) (k : SessionTx A) (t : Tables)
    → (require_target user_id realm >> k) t ≡ ok r
    → (x : UserRow) × (find_first (is_user user_id) t.users ≡ some x)
      × (realm_eq x.realm realm ≡ true)
      × (k t ≡ ok r)
unfolding require_target ◌>>=◌
target_then {A} {r} user_id realm k t h = split (find_first (is_user user_id) t.users) refl h
  where
    branch :
        (x : UserRow) (b : Bool)
        → find_first (is_user user_id) t.users ≡ some x
        → realm_eq x.realm realm ≡ b
        → ((λ (s : Tables).
                let y : Result Failure (Unit {0} × Tables) =
                  if not b then err (session_error realm_invalid) else ok (tt, s) in
                y)
              >> k)
            t
          ≡ ok r
        → (x : UserRow) × (find_first (is_user user_id) t.users ≡ some x)
          × (realm_eq x.realm realm ≡ true)
          × (k t ≡ ok r)
    branch x true f w e = (x, f, w, e)
    branch x false f w e = cc

    split :
        (o : Option UserRow)
        → find_first (is_user user_id) t.users ≡ o
        → (target_found realm o >> k) t ≡ ok r
        → (x : UserRow) × (find_first (is_user user_id) t.users ≡ some x)
          × (realm_eq x.realm realm ≡ true)
          × (k t ≡ ok r)
    split none e w = cc
    split (some x) e w = branch x (realm_eq x.realm realm) e refl w

named_revoked :
    (user_id : String) (session_id : Option String) (t : Tables) {n : ℕ} {u : Tables}
    → revoke_named user_id session_id t ≡ ok (n, u)
    → (is_some session_id && (n == 0)) ≡ false
    → (n ≡ count_where (named user_id session_id) t.sessions)
      × (u ≡ record t { sessions = delete_where (named user_id session_id) t.sessions })
unfolding revoke_named
named_revoked user_id none t h k = deleted (is_session_of user_id) t h
named_revoked user_id (some session_id) t {n} {u} h k =
    >>=-elim (delete_sessions (is_one user_id session_id)) _ t h λ m v p q.
      let (counted, e) = deleted (is_one user_id session_id) t p in
      let same : v ≡ u = cc in
      let outcome : (if m == 1 then 1 else 0) ≡ n = cc in
      (ground (arith, outcome, counted), sym same ∙ e)

-- A revocation by the account `actor`: about whom, and what it removed.
pub record IsRevocation (actor target : String) (realm : Realm) (session_id : Option String)
    (revoked : ℕ) (t u : Tables) : Type 0 where
  pub permitted : is_permitted t actor "admin:users" ≡ true
  pub user : UserRow
  pub found : find_first (is_user target) t.users ≡ some user
  pub same_realm : user.realm ≡ realm
  pub removed :
      IsRevoked
        (IsNamed target session_id)
        revoked
        (revocation_event workforce actor (or_user target session_id) revoked)
        t
        u

mutate_tx-IsRevocation :
    (target : String) (realm : Realm) (session_id : Option String) (actor : String) (t : Tables)
    {n : ℕ} {u : Tables}
    → mutate_tx target realm session_id actor t ≡ ok (n, u)
    → IsRevocation actor target realm session_id n t u
unfolding mutate_tx
mutate_tx-IsRevocation target realm session_id actor t {n} {u} h =
    let (permitted, h1) = permitted_then actor _ t h in
    let (user, found, same_realm, h2) = target_then target realm _ t h1 in
    >>=-elim (revoke_named target (truthy session_id)) _ t h2 λ m v p q.
      let (some_revoked, q1) = throw_if-then (is_some (truthy session_id) && (m == 0)) _ _ v q in
      let (counted, e) = named_revoked target (truthy session_id) t p some_revoked in
      >>=-elim (write_audit workforce actor target session_id m) _ v q1 λ x w p2 q2.
        let f = audited workforce actor target session_id m v p2 in
        let last : w ≡ u = cc in
        let answer : m ≡ n = cc in
        subst (λ k. IsRevocation actor target realm session_id k t u) answer
          (record {
            permitted = permitted;
            user = user;
            found = found;
            same_realm = (realm_eq_iff user.realm realm).0 same_realm;
            removed = record {
              selected = named target (truthy session_id);
              selects = named_iff target session_id;
              sessions =
                  ap Tables.sessions (sym last) ∙ ap Tables.sessions f ∙ ap Tables.sessions e;
              counted = counted;
              audit =
                  ap Tables.audit (sym last)
                  ∙ ap Tables.audit f
                  ∙ (λ i. (e i).audit ++ audit_row workforce actor target session_id m ∷ []);
              users = ap Tables.users (sym last) ∙ ap Tables.users f ∙ ap Tables.users e;
            };
          })

-- The revocation of a request: its actor is the one that the access service names for the session.
pub record IsAdminRevocation (get_session : Realm → Value) (target : String) (realm : Realm)
    (session_id : Option String) (revoked : ℕ) (t u : Tables) : Type 0 where
  pub actor : WorkforceActor
  pub signed_in : require_permission get_session (access_view t) "admin:users" ≡ ok actor
  pub revocation : IsRevocation actor.user_id target realm session_id revoked t u

-- A revocation by an administrator is made by the account of the session, which holds the permission
-- admin:users, about a user of the realm that was expected; it removes the user's session of the id
-- that is given, or all of the user's when none is given or it is empty, answers their number, and
-- audits it in the name of that account.
pub revoke-IsAdminRevocation :
    (get_session : Realm → Value) (target : String) (realm : Realm) (session_id : Option String)
    (t u : Tables) (n : ℕ)
    → revoke get_session target realm session_id t ≡ (ok n, u)
    → IsAdminRevocation get_session target realm session_id n t u
unfolding revoke
revoke-IsAdminRevocation get_session target realm session_id t u n h =
    let (actor, signed_in, k) =
      with_actor-ok access_error (require_permission get_session (access_view t) "admin:users")
        (mutate_tx target realm session_id) t h in
    record {
      actor = actor;
      signed_in = signed_in;
      revocation = mutate_tx-IsRevocation target realm session_id actor.user_id t k;
    }

removed_own :
    (target other : String) (session_id : Option String) (s : SessionRow)
    → str_eq other target ≡ false
    → IsNamed target session_id s
    → is_session_of other s ≡ false
removed_own target other session_id s d (own, _) =
    ground (arith, own, eq_iff s.user_id other, eq_iff other target)

-- A revocation by an administrator leaves the sessions of every other user as they are.
pub revoke-keeps_others :
    (get_session : Realm → Value) (target other : String) (realm : Realm)
    (session_id : Option String) (t u : Tables) (n : ℕ)
    → revoke get_session target realm session_id t ≡ (ok n, u)
    → str_eq other target ≡ false
    → keep_where (is_session_of other) u.sessions ≡ keep_where (is_session_of other) t.sessions
revoke-keeps_others get_session target other realm session_id t u n h d =
    let v =
      (revoke-IsAdminRevocation get_session target realm session_id t u n h).revocation.removed in
    ap (keep_where (is_session_of other)) v.sessions
    ∙ keep_where-delete_other (is_session_of other) v.selected t.sessions
        (λ s k. removed_own target other session_id s d ((v.selects s).0 k))
