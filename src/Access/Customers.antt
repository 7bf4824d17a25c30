-- ===== src/Access/Customers.antt =====
-- Which customers get through the access service.
use ai_agent_platform.Access.Model.{
  AuthoritativeUser, CustomerActor, CustomerOrganization, Actor, customer_actor, workforce_actor,
  Access,
}
use ai_agent_platform.Access.Session.{Value}
use ai_agent_platform.Access.Repository.{Tables, find_customer_organizations}
use ai_agent_platform.Access.Service.{
  only, check_customer, customer_of, customer_result, require_customer, get_current_actor,
  is_active_organization,
}
use ai_agent_platform.Access.Guarantees.{IsSignedIn, signed_in, IsSignedIn-actor, ok-injective}
use ai_agent_platform.Identity.{
  Realm, customer, UserStatus, is_active, is_pending_review, is_rejected, can_enter_application,
}
use ai_agent_platform.Base.{
  Bool, true, false, ◌&&◌, ◌||◌, ◌≡◌, ◌↔◌, ◌∙◌, ap, refl, sym, List, [], ◌∷◌, Option, some, none,
  ok, err, length, arith,
}

-- One organization, and that one active.
abbrev pub has_one_active : List CustomerOrganization → Bool
has_one_active [] = false
has_one_active (o ∷ []) = is_active_organization o.status
has_one_active (o ∷ p ∷ rest) = false

abbrev pub may_enter : Bool → UserStatus → List CustomerOrganization → Bool
may_enter onboarding_allowed status organizations =
    is_active status && has_one_active organizations
    || onboarding_allowed && (is_pending_review status || is_rejected status)

abbrev with_organizations : AuthoritativeUser → List CustomerOrganization → CustomerActor
with_organizations user organizations = record {
  user_id = user.id;
  status = user.status;
  display_name = user.display_name;
  email_verification_status = user.email_verification_status;
  organization = only organizations;
  organization_membership_count = length organizations;
}

abbrev is_ok : {A : Type 0} → Access A → Bool
is_ok (ok a) = true
is_ok (err e) = false

module _ (onboarding_allowed : Bool) (user : AuthoritativeUser) where
  passes :
      (organizations : List CustomerOrganization)
      → may_enter onboarding_allowed user.status organizations ≡ true
      → check_customer onboarding_allowed (with_organizations user organizations)
        ≡ ok (with_organizations user organizations)
  unfolding can_enter_application
  passes [] h = ground arith
  passes (o ∷ []) h = ground arith
  passes (o ∷ p ∷ rest) h = ground arith

  checked :
      (organizations : List CustomerOrganization) {a : CustomerActor}
      → check_customer onboarding_allowed (with_organizations user organizations) ≡ ok a
      → may_enter onboarding_allowed user.status organizations ≡ true
  unfolding can_enter_application
  checked [] h = ground arith
  checked (o ∷ []) h = ground arith
  checked (o ∷ p ∷ rest) h = ground arith

module _ (get_session : Realm → Value) (t : Tables) where
  entered :
      (onboarding_allowed : Bool) {a : CustomerActor}
      → require_customer get_session t onboarding_allowed ≡ ok a
      → (user : AuthoritativeUser) × IsSignedIn get_session t customer user
        × (a ≡ customer_of t user)
        × (may_enter onboarding_allowed user.status (find_customer_organizations t user.id) ≡ true)
  unfolding require_customer
  entered onboarding_allowed {a} h = split (get_current_actor get_session t customer) refl h
    where
      same :
          {b c : CustomerActor}
          → (let x : Access (Option Actor) = ok (some (customer_actor b)) in
              x ≡ ok (some (customer_actor c)))
          → b ≡ c
      same e = cc

      split :
          (r : Access (Option Actor))
          → get_current_actor get_session t customer ≡ r
          → customer_result onboarding_allowed r ≡ ok a
          → (user : AuthoritativeUser) × IsSignedIn get_session t customer user
            × (a ≡ customer_of t user)
            × (may_enter onboarding_allowed user.status (find_customer_organizations t user.id)
                ≡ true)
      split (err e) p k = cc
      split (ok none) p k = cc
      split (ok (some (workforce_actor c))) p k = cc
      split (ok (some (customer_actor b))) p k =
          let (user, w, q) = signed_in get_session t customer p in
          let e : customer_of t user ≡ b = same q in
          let c : check_customer onboarding_allowed (customer_of t user) ≡ ok a =
            ap (check_customer onboarding_allowed) e ∙ k in
          let may = checked onboarding_allowed user (find_customer_organizations t user.id) c in
          (
            user,
            w,
            ok-injective (
                sym c ∙ passes onboarding_allowed user (find_customer_organizations t user.id) may),
            may,
          )

  -- The customers' area admits exactly the signed-in customer account that is active and belongs to
  -- one organization, an active one; or, where onboarding is allowed, one that waits for its review
  -- or was rejected. The result is the actor of that account.
  pub require_customer_iff :
      (onboarding_allowed : Bool) (a : CustomerActor)
      → (require_customer get_session t onboarding_allowed ≡ ok a) ↔ (
          (user : AuthoritativeUser) × IsSignedIn get_session t customer user
          × (a ≡ customer_of t user)
          × (may_enter onboarding_allowed user.status (find_customer_organizations t user.id)
              ≡ true))
  unfolding require_customer
  require_customer_iff onboarding_allowed a = (
    entered onboarding_allowed,
    λ (user, w, e, may).
        ap (customer_result onboarding_allowed) (IsSignedIn-actor get_session t customer w)
        ∙ passes onboarding_allowed user (find_customer_organizations t user.id) may
        ∙ ap ok (sym e),
  )
