-- ===== src/Access/Guarantees.antt =====
-- Who gets through the access service.
use ai_agent_platform.Base.{
  not-eq-false, String, Bool, true, false, not, ◌&&◌, ◌≡◌, ◌↔◌, ◌∙◌, ap, refl, sym, str_eq, any,
  Option, none, some, Result, ok, err, any-sort_by, any-distinct, arith, if◌then◌else◌,
}
use ai_agent_platform.Identity.{Realm, workforce, realm_eq, is_active, is_disabled}
use ai_agent_platform.Access.Model.{
  AuthoritativeUser, WorkforceActor, Actor, customer_actor, workforce_actor, AuthenticatedSession,
  Access,
}
use ai_agent_platform.Access.Session.{Value, parse_authenticated_session}
use ai_agent_platform.Access.Repository.{Tables, find_user_by_id, str_leb}
use ai_agent_platform.Access.Entitlement.{is_entitled, find_permission_keys-is_entitled}
use ai_agent_platform.Access.Service.{
  actor_of_session, actor_of_user, actor_in, workforce_of, get_current_actor, require_permission,
  require_workforce, permission_result, workforce_result,
}

-- The session of the realm is of a stored account of that realm that is not disabled, nor, in the
-- workforce, waiting or rejected.
pub record IsSignedIn (get_session : Realm → Value) (t : Tables) (realm : Realm)
    (user : AuthoritativeUser) : Type 0 where
  pub session : AuthenticatedSession
  pub parsed : parse_authenticated_session (get_session realm) ≡ some session
  pub same_realm : realm_eq session.realm realm ≡ true
  pub stored : find_user_by_id t session.user_id ≡ some user
  pub user_realm : realm_eq user.realm realm ≡ true
  pub usable : is_disabled user.status ≡ false

module _ {E A : Type 0} where
  pub ok-injective : {a b : A} → (let x : Result E A = ok a in x ≡ ok b) → a ≡ b
  ok-injective e = cc

  -- A refusal, and what it leaves when it is not made.
  pub passed :
      (b : Bool) (x : Result E A) (e : E) {a : A}
      → (if b then err e else x) ≡ ok a
      → (b ≡ false) × (x ≡ ok a)
  passed true x e h = cc
  passed false x e h = (refl, h)

  pub accepted :
      (b : Bool) (x : Result E A) (e : E) {a : A}
      → (if b then x else err e) ≡ ok a
      → (b ≡ true) × (x ≡ ok a)
  accepted true x e h = (refl, h)
  accepted false x e h = cc

module _ (get_session : Realm → Value) (t : Tables) (realm : Realm) where
  pub signed_in :
      {actor : Actor}
      → get_current_actor get_session t realm ≡ ok (some actor)
      → (user : AuthoritativeUser) × IsSignedIn get_session t realm user
        × (actor_in realm t user ≡ ok (some actor))
  unfolding get_current_actor
  signed_in {actor} h = of_session (parse_authenticated_session (get_session realm)) refl h
    where
      of_user :
          (s : AuthenticatedSession) (u : Option AuthoritativeUser)
          → parse_authenticated_session (get_session realm) ≡ some s
          → realm_eq s.realm realm ≡ true
          → find_user_by_id t s.user_id ≡ u
          → actor_of_user realm t u ≡ ok (some actor)
          → (user : AuthoritativeUser) × IsSignedIn get_session t realm user
            × (actor_in realm t user ≡ ok (some actor))
      of_user s none p q f k = cc
      of_user s (some user) p q f k =
          let (same, k) = passed (not (realm_eq user.realm realm)) _ _ k in
          let (usable, k) = passed (is_disabled user.status) _ _ k in
          (
            user,
            record {
              session = s;
              parsed = p;
              same_realm = q;
              stored = f;
              user_realm = not-eq-false _ same;
              usable = usable;
            },
            k,
          )

      of_session :
          (o : Option AuthenticatedSession)
          → parse_authenticated_session (get_session realm) ≡ o
          → actor_of_session realm t o ≡ ok (some actor)
          → (user : AuthoritativeUser) × IsSignedIn get_session t realm user
            × (actor_in realm t user ≡ ok (some actor))
      of_session none p k = cc
      of_session (some s) p k =
          let (same, k) = passed (not (realm_eq s.realm realm)) _ _ k in
          of_user s (find_user_by_id t s.user_id) p (not-eq-false _ same) refl k

  pub IsSignedIn-actor :
      {user : AuthoritativeUser}
      → IsSignedIn get_session t realm user
      → get_current_actor get_session t realm ≡ actor_in realm t user
  unfolding get_current_actor
  IsSignedIn-actor w =
      ap (actor_of_session realm t) w.parsed
      ∙ rw (w.same_realm, w.stored, w.user_realm, w.usable) refl

actor-injective :
    {a b : WorkforceActor}
    → (let x : Access (Option Actor) = ok (some (workforce_actor a)) in
        x ≡ ok (some (workforce_actor b)))
    → a ≡ b
actor-injective e = cc

-- The workforce account that a request comes from, and its actor.
pub record IsStaff (get_session : Realm → Value) (t : Tables) (a : WorkforceActor)
    (user : AuthoritativeUser) : Type 0 where
  pub signed_in : IsSignedIn get_session t workforce user
  pub active : is_active user.status ≡ true
  pub actor : a ≡ workforce_of t user

module _ (get_session : Realm → Value) (t : Tables) where
  staff :
      (setup_flow : Bool) {a : WorkforceActor}
      → require_workforce get_session t setup_flow ≡ ok a
      → (user : AuthoritativeUser) × IsStaff get_session t a user
        × ((user.must_change_password && not setup_flow) ≡ false)
  unfolding require_workforce
  staff setup_flow {a} h = split (get_current_actor get_session t workforce) refl h
    where
      split :
          (r : Access (Option Actor))
          → get_current_actor get_session t workforce ≡ r
          → workforce_result setup_flow r ≡ ok a
          → (user : AuthoritativeUser) × IsStaff get_session t a user
            × ((user.must_change_password && not setup_flow) ≡ false)
      split (err e) p k = cc
      split (ok none) p k = cc
      split (ok (some (customer_actor c))) p k = cc
      split (ok (some (workforce_actor b))) p k =
          let (user, w, q) = signed_in get_session t workforce p in
          let (is_active, q) = accepted (is_active user.status) _ _ q in
          let (allowed, k) = passed (b.must_change_password && not setup_flow) _ _ k in
          let e : b ≡ a = ok-injective k in
          let f : b ≡ workforce_of t user = sym (actor-injective q) in
          (
            user,
            record { signed_in = w; active = is_active; actor = sym e ∙ f },
            ap (λ (x : WorkforceActor). x.must_change_password && not setup_flow) (sym f) ∙ allowed,
          )

  IsStaff-result :
      (setup_flow : Bool) {a : WorkforceActor} {user : AuthoritativeUser}
      → IsStaff get_session t a user
      → (user.must_change_password && not setup_flow) ≡ false
      → require_workforce get_session t setup_flow ≡ ok a
  unfolding require_workforce
  IsStaff-result setup_flow {user} w allowed =
      ap (workforce_result setup_flow) (IsSignedIn-actor get_session t workforce w.signed_in)
      ∙ rw w.active (rw allowed (ap ok (sym w.actor)))

  entitled :
      (permission : String) (user : AuthoritativeUser)
      → any (str_eq permission) (workforce_of t user).permissions
        ≡ is_entitled t user.id workforce permission
  entitled permission user =
      any-sort_by (str_eq permission) str_leb _
      ∙ any-distinct permission _
      ∙ find_permission_keys-is_entitled t user.id workforce permission

  permitted :
      (permission : String) {a : WorkforceActor}
      → require_permission get_session t permission ≡ ok a
      → (user : AuthoritativeUser) × IsStaff get_session t a user
        × (user.must_change_password ≡ false)
        × (is_entitled t user.id workforce permission ≡ true)
  unfolding require_permission
  permitted permission {a} h = split (require_workforce get_session t false) refl h
    where
      split :
          (r : Access WorkforceActor)
          → require_workforce get_session t false ≡ r
          → permission_result permission r ≡ ok a
          → (user : AuthoritativeUser) × IsStaff get_session t a user
            × (user.must_change_password ≡ false)
            × (is_entitled t user.id workforce permission ≡ true)
      split (err e) p k = cc
      split (ok b) p k =
          let (holds, k) = accepted (any (str_eq permission) b.permissions) _ _ k in
          let (user, w, allowed) = staff false (p ∙ k) in
          (
            user,
            w,
            ground arith,
            sym (entitled permission user)
                ∙ sym (
                    ap (λ (x : WorkforceActor). any (str_eq permission) x.permissions)
                      (ok-injective k ∙ w.actor))
                ∙ holds,
          )

  IsStaff-permission :
      (permission : String) {a : WorkforceActor} {user : AuthoritativeUser}
      → IsStaff get_session t a user
      → user.must_change_password ≡ false
      → is_entitled t user.id workforce permission ≡ true
      → require_permission get_session t permission ≡ ok a
  unfolding require_permission
  IsStaff-permission permission {a} {user} w settled holds =
      ap (permission_result permission) (IsStaff-result false w (ground arith))
      ∙ rw
          (ap (λ (x : WorkforceActor). any (str_eq permission) x.permissions) w.actor
            ∙ entitled permission user
            ∙ holds)
          refl

  -- A permission is granted exactly to the active workforce account that the workforce session is
  -- of, if that account need not change its password and a workforce role of it carries the
  -- permission; the result is the actor of that account.
  pub require_permission_iff :
      (permission : String) (a : WorkforceActor)
      → (require_permission get_session t permission ≡ ok a) ↔ (
          (user : AuthoritativeUser) × IsStaff get_session t a user
          × (user.must_change_password ≡ false)
          × (is_entitled t user.id workforce permission ≡ true))
  require_permission_iff permission a = (
    permitted permission,
    λ (user, w, settled, holds). IsStaff-permission permission w settled holds,
  )
