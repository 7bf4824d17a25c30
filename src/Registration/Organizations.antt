-- ===== src/Registration/Organizations.antt =====
-- The organization that a decision of registration/service.ts names, as the review finds or makes it.
use mathlib.Core.List.{Memᴰ}
use mathlib.Core.Path.{subst}
use ai_agent_platform.Base.{
  str_eq, ℕ, zero, suc, ◌==◌, ==_iff, String, Bool, true, false, ◌&&◌, &&-eq-true, ◌≡◌, refl, sym,
  ap, ◌∙◌, List, [], ◌∷◌, ◌++◌, any, find_first, find_first-holds, count_where, eq_iff, arith,
  Option, none, some, Result, ok, err, >>=-elim, if◌then◌else◌, Bool-cases, inl, inr,
}
use ai_agent_platform.Access.Model.{OrganizationStatus, OrganizationRole}
use ai_agent_platform.Access.Repository.{OrganizationRow}
use ai_agent_platform.Access.Service.{is_active_organization}
use ai_agent_platform.Directory.{Tables}
use ai_agent_platform.Registration.Model.{
  Failure, OrganizationDecision, create, link, Organization, CustomerRole, customer_admin,
  customer_member,
}
use ai_agent_platform.Registration.Validation.{Unicode, OrganizationValues, organization_values}
use ai_agent_platform.Registration.Repository.{
  has_key, new_organization, Drawn, is_member_of, with_members, find_active_organization,
  create_or_find_organization, lock_found,
}
use ai_agent_platform.Registration.Service.{find_organization, lift, role_for, membership_role}

-- The organization is the one that is linked, or one of the name that is given.
abbrev pub IsDecided : Unicode → OrganizationDecision → OrganizationRow → Type 0
IsDecided unicode (link id) row = row.id ≡ id
IsDecided unicode (create name) row =
    (v : OrganizationValues) × (organization_values unicode name ≡ ok v)
    × (row.legal_name_key ≡ v.legal_name_key)

-- `o` is an active organization of the decision, with the members that it had before.
pub record IsChosen (unicode : Unicode) (decision : OrganizationDecision) (o : Organization)
    (t u : Tables) : Type 0 where
  pub row : OrganizationRow
  pub listed : Memᴰ row u.organizations
  pub same_id : row.id ≡ o.id
  pub is_active : row.status ≡ OrganizationStatus.active
  pub decided : IsDecided unicode decision row
  pub counted : o.member_count ≡ count_where (is_member_of o.id) t.memberships

-- The role of a new member: the first one administers, and any other is what the decision says, a
-- plain member if it says nothing.
abbrev pub IsRole : ℕ → Option CustomerRole → OrganizationRole → Type 0
IsRole zero initial role = role ≡ OrganizationRole.admin
IsRole (suc _) (some customer_admin) role = role ≡ OrganizationRole.admin
IsRole (suc _) (some customer_member) role = role ≡ OrganizationRole.member
IsRole (suc _) none role = role ≡ OrganizationRole.member

later : (n : ℕ) → (suc n == 0) ≡ false
later n = ground (arith, ==_iff (suc n) 0)

role_for-member_count :
    (id : String) (n : ℕ) (initial : Option CustomerRole)
    → IsRole n initial (membership_role (role_for (record { id = id; member_count = n }) initial))
role_for-member_count id zero initial = refl
role_for-member_count id (suc n) (some customer_admin) = rw (later n) refl
role_for-member_count id (suc n) (some customer_member) = rw (later n) refl
role_for-member_count id (suc n) none = rw (later n) refl

pub role_for-IsRole :
    (o : Organization) (initial : Option CustomerRole)
    → IsRole o.member_count initial (membership_role (role_for o initial))
role_for-IsRole o initial = role_for-member_count o.id o.member_count initial

find_first-listed :
    {A : Type 0} (p : A → Bool) (xs : List A) (y : A) → find_first p xs ≡ some y → Memᴰ y xs
find_first-listed p [] y h = cc
find_first-listed p (x ∷ xs) y h = elim (Bool-cases (p x)) [
  | inl e ↦ Memᴰ.head (same y x (rw e at h))
  | inr e ↦ Memᴰ.tail (find_first-listed p xs y (rw e at h))
]
  where
    same : {A : Type 0} (y x : A) → some x ≡ some y → y ≡ x
    same y x e = cc

active_status :
    (s : OrganizationStatus) → is_active_organization s ≡ true → s ≡ OrganizationStatus.active
active_status OrganizationStatus.active h = refl
active_status _ h = cc

listed_last : {A : Type 0} (xs : List A) (y : A) → Memᴰ y (xs ++ y ∷ [])
listed_last [] y = Memᴰ.head refl
listed_last (x ∷ xs) y = Memᴰ.tail (listed_last xs y)

-- The answer to a search by an id.
record IsFound (id : String) (o : Organization) (t u : Tables) : Type 0 where
  row : OrganizationRow
  listed : Memᴰ row t.organizations
  same_id : row.id ≡ id
  is_active : row.status ≡ OrganizationStatus.active
  answered : o.id ≡ id
  counted : o.member_count ≡ count_where (is_member_of o.id) t.memberships
  unchanged : u ≡ t

find_active_organization-IsFound :
    (id : String) (t : Tables) {o : Organization} {u : Tables}
    → find_active_organization id t ≡ ok (some o, u)
    → IsFound id o t u
unfolding find_active_organization
find_active_organization-IsFound id t {o} {u} h =
    split
      (find_first (λ (x : OrganizationRow). str_eq x.id id && is_active_organization x.status)
        t.organizations)
      refl h
  where
    split :
        (f : Option OrganizationRow)
        → find_first
            (λ (x : OrganizationRow). str_eq x.id id && is_active_organization x.status)
            t.organizations
          ≡ f
        → (let r : Result Failure (Option Organization × Tables) = ok (with_members t f, t) in
            r ≡ ok (some o, u))
        → IsFound id o t u
    split none e k = cc
    split (some x) e k =
        let (own, on) = &&-eq-true (str_eq x.id id) (is_active_organization x.status) (
          find_first-holds
            (λ (x : OrganizationRow). str_eq x.id id && is_active_organization x.status)
            t.organizations x e) in
        let at : x.id ≡ id = (eq_iff x.id id).0 own in
        let found : some o
            ≡ some (record {
              id = x.id;
              member_count = count_where (is_member_of x.id) t.memberships;
            }) =
          cc in
        let same_id : o.id ≡ x.id = ap id_of found in
        record {
          row = x;
          listed = find_first-listed _ t.organizations x e;
          same_id = at;
          is_active = active_status x.status on;
          answered = same_id ∙ at;
          counted =
              ap count_of found
              ∙ ap (λ k. count_where (is_member_of k) t.memberships) (sym same_id);
          unchanged = cc;
        }
      where
        id_of : Option Organization → String
        id_of none = id
        id_of (some y) = y.id

        count_of : Option Organization → ℕ
        count_of none = 0
        count_of (some y) = y.member_count

create_or_find_organization-IsChosen :
    (unicode : Unicode) (drawn : Drawn) (name : String) (v : OrganizationValues) (t : Tables)
    {o : Organization} {u : Tables}
    → organization_values unicode name ≡ ok v
    → create_or_find_organization drawn v t ≡ ok (some o, u)
    → IsChosen unicode (create name) o t u
unfolding create_or_find_organization
create_or_find_organization-IsChosen unicode drawn name v t {o} {u} valid h =
    split (any (has_key v.legal_name_key) t.organizations) h
  where
    keyed : OrganizationRow → Bool
    keyed = λ (x : OrganizationRow). has_key v.legal_name_key x && is_active_organization x.status

    locked :
        (f : Option OrganizationRow)
        → find_first keyed t.organizations ≡ f
        → lock_found f t ≡ ok (some o, u)
        → IsChosen unicode (create name) o t u
    locked none e k = cc
    locked (some x) e k =
        let (key, on) =
          &&-eq-true (has_key v.legal_name_key x) (is_active_organization x.status)
            (find_first-holds keyed t.organizations x e) in
        let w = find_active_organization-IsFound x.id t k in
        record {
          row = x;
          listed =
              subst (λ (s : Tables). Memᴰ x s.organizations) (sym w.unchanged)
                (find_first-listed keyed t.organizations x e);
          same_id = sym w.answered;
          is_active = active_status x.status on;
          decided = (v, valid, (eq_iff x.legal_name_key v.legal_name_key).0 key);
          counted = w.counted;
        }

    split :
        (b : Bool)
        → (if b
            then lock_found (find_first keyed t.organizations) t
            else find_active_organization drawn.organization_id
                (record t { organizations = t.organizations ++ new_organization drawn v ∷ [] }))
          ≡ ok (some o, u)
        → IsChosen unicode (create name) o t u
    split true k = locked (find_first keyed t.organizations) refl k
    split false k =
        let w = find_active_organization-IsFound drawn.organization_id _ k in
        record {
          row = new_organization drawn v;
          listed =
              subst (λ (s : Tables). Memᴰ (new_organization drawn v) s.organizations)
                (sym w.unchanged) (listed_last t.organizations (new_organization drawn v));
          same_id = sym w.answered;
          is_active = refl;
          decided = (v, valid, refl);
          counted = w.counted;
        }

lifted :
    {A : Type 0} (r : Result Failure A) (t : Tables) {a : A} {u : Tables}
    → lift r t ≡ ok (a, u)
    → (r ≡ ok a) × (u ≡ t)
lifted (ok a) t h = (cc, cc)
lifted (err e) t h = cc

pub find_organization-IsChosen :
    (unicode : Unicode) (drawn : Drawn) (decision : OrganizationDecision) (t : Tables)
    {o : Organization} {u : Tables}
    → find_organization unicode drawn decision t ≡ ok (some o, u)
    → IsChosen unicode decision o t u
find_organization-IsChosen unicode drawn (link id) t h =
    let w = find_active_organization-IsFound id t h in
    record {
      row = w.row;
      listed = subst (λ (s : Tables). Memᴰ w.row s.organizations) (sym w.unchanged) w.listed;
      same_id = w.same_id ∙ sym w.answered;
      is_active = w.is_active;
      decided = w.same_id;
      counted = w.counted;
    }
find_organization-IsChosen unicode drawn (create name) t {o} {u} h =
    >>=-elim (lift (organization_values unicode name)) (create_or_find_organization drawn) t h
      λ v s p q.
        let (valid, same) = lifted (organization_values unicode name) t p in
        create_or_find_organization-IsChosen unicode drawn name v t valid
          (subst (λ x. create_or_find_organization drawn v x ≡ ok (some o, u)) same q)
