-- ===== src/Registration/Choices.antt =====
-- What the steps of an approval after the request is locked leave for the rest.
use mathlib.Core.Path.{subst}
use ai_agent_platform.Base.{
  String, Bool, true, false, not, ◌&&◌, ◌≡◌, refl, sym, ap, ◌∙◌, List, [], ◌∷◌, ◌++◌, any,
  find_first, count_where, ◌==◌, ==_iff, Option, none, some, Result, ok, err, ◌>>=◌, ◌>>◌, >>=-elim,
  throw_if, if◌then◌else◌, update_where,
}
use ai_agent_platform.Identity.{UserStatus}
use ai_agent_platform.Access.Repository.{OrganizationRow, RoleRow, MembershipRow, UserRoleRow}
use ai_agent_platform.Access.Service.{is_active_organization}
use ai_agent_platform.Directory.{Tables, RegistrationRow, insert_link}
use ai_agent_platform.Registration.Model.{
  Failure, RegistrationTx, OrganizationDecision, create, link, Organization, CustomerRole,
  violation,
}
use ai_agent_platform.Registration.Validation.{Unicode, OrganizationValues, organization_values}
use ai_agent_platform.Registration.Repository.{
  has_key, new_organization, Drawn, find_customer_role, role_found, add_membership_and_role,
  insert_membership, is_membership, review, reviewed, is_pending_request, is_pending_customer,
  find_active_organization, create_or_find_organization, lock_found, rethrow, review_conflict,
}
use ai_agent_platform.Registration.Service.{
  choose_organization, find_organization, organization_found, lift,
}

-- Only organizations have changed.
abbrev pub IsFrame : Tables → Tables → Type 0
IsFrame t u = (rows : List OrganizationRow) × (u ≡ record t { organizations = rows })

find_active_organization-same :
    (id : String) (t : Tables) {o : Option Organization} {u : Tables}
    → find_active_organization id t ≡ ok (o, u)
    → u ≡ t
unfolding find_active_organization
find_active_organization-same id t h = cc

lock_found-same :
    (found : Option OrganizationRow) (t : Tables) {o : Option Organization} {u : Tables}
    → lock_found found t ≡ ok (o, u)
    → u ≡ t
lock_found-same none t h = cc
lock_found-same (some x) t h = find_active_organization-same x.id t h

create_or_find_organization-IsFrame :
    (drawn : Drawn) (values : OrganizationValues) (t : Tables) {o : Option Organization}
    {u : Tables}
    → create_or_find_organization drawn values t ≡ ok (o, u)
    → IsFrame t u
unfolding create_or_find_organization
create_or_find_organization-IsFrame drawn values t {o} {u} h =
    split (any (has_key values.legal_name_key) t.organizations) h
  where
    split :
        (b : Bool)
        → (if b
            then lock_found
                (find_first
                  (λ (o : OrganizationRow).
                    has_key values.legal_name_key o && is_active_organization o.status)
                  t.organizations)
                t
            else find_active_organization drawn.organization_id (record t {
              organizations = t.organizations ++ new_organization drawn values ∷ [];
            }))
          ≡ ok (o, u)
        → IsFrame t u
    split true e = (t.organizations, lock_found-same _ t e)
    split false e = (
      t.organizations ++ new_organization drawn values ∷ [],
      find_active_organization-same drawn.organization_id _ e,
    )

lift-same :
    {A : Type 0} (r : Result Failure A) (t : Tables) {a : A} {u : Tables}
    → lift r t ≡ ok (a, u)
    → u ≡ t
lift-same (ok a) t h = cc
lift-same (err e) t h = cc

find_organization-IsFrame :
    (unicode : Unicode) (drawn : Drawn) (decision : OrganizationDecision) (t : Tables)
    {o : Option Organization} {u : Tables}
    → find_organization unicode drawn decision t ≡ ok (o, u)
    → IsFrame t u
find_organization-IsFrame unicode drawn (create name) t {o} {u} h =
    >>=-elim (lift (organization_values unicode name)) (create_or_find_organization drawn) t h
      λ v s p q. create_or_find_organization-IsFrame drawn v t (
        subst (λ x. create_or_find_organization drawn v x ≡ ok (o, u))
          (lift-same (organization_values unicode name) t p) q)
find_organization-IsFrame unicode drawn (link id) t h =
    (t.organizations, find_active_organization-same id t h)

organization_found-same :
    (o : Option Organization) (t : Tables) {x : Organization} {u : Tables}
    → organization_found o t ≡ ok (x, u)
    → (o ≡ some x) × (u ≡ t)
organization_found-same none t h = cc
organization_found-same (some y) t h = (cc, cc)

role_found-same :
    (o : Option RoleRow) (t : Tables) {x : String} {u : Tables} → role_found o t ≡ ok (x, u) → u ≡ t
role_found-same none t h = cc
role_found-same (some y) t h = cc

rethrow-ok :
    {A : Type 0} (f : Failure → Failure) (x : Result Failure A) {a : A}
    → rethrow f x ≡ ok a
    → x ≡ ok a
rethrow-ok f (ok b) h = h
rethrow-ok f (err e) h = cc

-- A statement that a unique index did not refuse.
inserted :
    (b : Bool) (e : Failure) (v : Tables) {u : Tables}
    → (let x : Result Failure (Unit {0} × Tables) = if b then err e else ok (tt, v) in
        x ≡ ok (tt, u))
    → (b ≡ false) × (u ≡ v)
inserted true e v h = cc
inserted false e v h = (refl, cc)

added :
    (m : MembershipRow) (role_id : String) (t : Tables) {u : Tables}
    → add_membership_and_role m role_id t ≡ ok (tt, u)
    → (any (is_membership m.organization_id m.user_id) t.memberships ≡ false)
      × (u ≡ record t {
        memberships = t.memberships ++ m ∷ [];
        user_roles =
            t.user_roles
            ++ record { user_id = m.user_id; role_id = role_id; assigned_by = m.assigned_by } ∷ [];
      })
unfolding add_membership_and_role insert_membership insert_link
added m role_id t h =
    let l : UserRoleRow = record {
      user_id = m.user_id;
      role_id = role_id;
      assigned_by = m.assigned_by;
    } in
    >>=-elim (insert_membership m)
      (λ _. insert_link (violation "user_roles_user_id_role_id_unique") l) t
      (rethrow-ok review_conflict _ h)
      λ x s p q.
        let (absent, same) = inserted _ _ (record t { memberships = t.memberships ++ m ∷ [] }) p in
        let (_, last) = inserted _ _ (record s { user_roles = s.user_roles ++ l ∷ [] }) q in
        (absent, last ∙ ap (λ (v : Tables). record v { user_roles = v.user_roles ++ l ∷ [] }) same)

module _ {A : Type 0} {r : A × Tables} where
  pub choose_organization-then :
      (unicode : Unicode) (drawn : Drawn) (decision : OrganizationDecision)
      (f : Organization → RegistrationTx A) (t : Tables)
      → (choose_organization unicode drawn decision >>= f) t ≡ ok r
      → (o : Organization) × (s : Tables) × IsFrame t s
        × (find_organization unicode drawn decision t ≡ ok (some o, s))
        × (f o s ≡ ok r)
  unfolding choose_organization
  choose_organization-then unicode drawn decision f t h =
      >>=-elim (choose_organization unicode drawn decision) f t h λ o s p q.
        >>=-elim (find_organization unicode drawn decision) organization_found t p λ found v p1 p2.
          let (e, same) = organization_found-same found v p2 in
          let found_in : find_organization unicode drawn decision t ≡ ok (some o, s) =
            p1 ∙ (λ i. ok (e i, sym same i)) in
          (o, s, find_organization-IsFrame unicode drawn decision t found_in, found_in, q)

  pub find_customer_role-then :
      (role : CustomerRole) (f : String → RegistrationTx A) (t : Tables)
      → (find_customer_role role >>= f) t ≡ ok r
      → (id : String) × (f id t ≡ ok r)
  unfolding find_customer_role
  find_customer_role-then role f t h =
      >>=-elim (find_customer_role role) f t h
        λ id s p q. (id, subst (λ x. f id x ≡ ok r) (role_found-same _ t p) q)

  -- A membership and a role that were not there.
  pub add_membership_and_role-then :
      (m : MembershipRow) (role_id : String) (k : RegistrationTx A) (t : Tables)
      → (add_membership_and_role m role_id >> k) t ≡ ok r
      → (any (is_membership m.organization_id m.user_id) t.memberships ≡ false)
        × (k (record t {
          memberships = t.memberships ++ m ∷ [];
          user_roles =
              t.user_roles
              ++ record { user_id = m.user_id; role_id = role_id; assigned_by = m.assigned_by }
                ∷ [];
        })
            ≡ ok r)
  add_membership_and_role-then m role_id k t h =
      >>=-elim (add_membership_and_role m role_id) _ t h λ x s p q.
        let (absent, same) = added m role_id t p in (absent, subst (λ v. k v ≡ ok r) same q)

  -- A review that changed a request and its user.
  pub review-then :
      (f : RegistrationRow → RegistrationRow) (status : UserStatus) (request_id user_id : String)
      (e : Failure) (k : RegistrationTx A) (t : Tables)
      → (review f status request_id user_id >>= λ updated. (throw_if (not updated) e >> k)) t ≡ ok r
      → (count_where (is_pending_customer user_id) t.users ≡ 1)
        × (k (reviewed f status request_id user_id t) ≡ ok r)
  unfolding ◌>>=◌
  review-then f status request_id user_id e k t h =
      split (count_where (is_pending_request request_id) t.registrations == 1)
        (count_where (is_pending_customer user_id) t.users == 1) refl h
    where
      split :
          (a b : Bool)
          → (count_where (is_pending_customer user_id) t.users == 1) ≡ b
          → ((λ (s : Tables).
                  let x : Result Failure (Bool × Tables) =
                    if not a
                    then ok (
                      false,
                      record t {
                        registrations =
                            update_where (is_pending_request request_id) f t.registrations;
                      },
                    )
                    else ok (b, reviewed f status request_id user_id t) in
                  x)
                >>= λ updated. (throw_if (not updated) e >> k))
              t
            ≡ ok r
          → (count_where (is_pending_customer user_id) t.users ≡ 1)
            × (k (reviewed f status request_id user_id t) ≡ ok r)
      split true true w l = ((==_iff _ 1).0 w, l)
      split true false w l = cc
      split false b w l = cc
