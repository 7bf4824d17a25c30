-- ===== src/Registration/Items.antt =====
-- The rows of the list of registration/repository.ts: their order, their number and their items.
use mathlib.Core.List.{Memᴰ}
use ai_agent_platform.Base.{
  sym, map-member, join-member, keep_where-member, sort_by-member, eq_iff, ℕ, ◌≤◌, ◌==◌, ==_iff,
  Bool, true, false, not, ◌&&◌, ◌≡◌, refl, ap, ◌∙◌, List, [], ◌∷◌, ◌++◌, any, map, join, length,
  str_eq, keep_where, count_where, count_where-append, sort_by, arith, any-keep_where, any-sort_by,
  IsBelow, IsDescending, sort_by-IsDescending, length-eq-count_where, count_where-keep_where,
  count_where-sort_by, count_where_cong, if◌then◌else◌,
}
use ai_agent_platform.Directory.{Tables, UserRow, RegistrationRow, RegistrationStatus, is_user}
use ai_agent_platform.Registration.Model.{map_public_status, status_text, PublicStatus}
use ai_agent_platform.Registration.Queries.{newer, ListItem, item_of, rows_of, all_rows, has_status}

-- The statuses that a public status stands for.
abbrev pub is_of : PublicStatus → RegistrationStatus → Bool
is_of PublicStatus.pending_review RegistrationStatus.pending_review = true
is_of PublicStatus.active RegistrationStatus.approved = true
is_of PublicStatus.rejected RegistrationStatus.rejected = true
is_of _ _ = false

has_status-eq :
    (status : PublicStatus) (r : RegistrationRow) → has_status status r ≡ is_of status r.status
unfolding map_public_status
has_status-eq status r = split status r.status
  where
    split :
        (s : PublicStatus) (d : RegistrationStatus)
        → str_eq (status_text d) (status_text (map_public_status s)) ≡ is_of s d
    split PublicStatus.pending_review RegistrationStatus.pending_review = refl
    split PublicStatus.pending_review RegistrationStatus.approved = refl
    split PublicStatus.pending_review RegistrationStatus.rejected = refl
    split PublicStatus.pending_review RegistrationStatus.cancelled = refl
    split PublicStatus.active RegistrationStatus.pending_review = refl
    split PublicStatus.active RegistrationStatus.approved = refl
    split PublicStatus.active RegistrationStatus.rejected = refl
    split PublicStatus.active RegistrationStatus.cancelled = refl
    split PublicStatus.rejected RegistrationStatus.pending_review = refl
    split PublicStatus.rejected RegistrationStatus.approved = refl
    split PublicStatus.rejected RegistrationStatus.rejected = refl
    split PublicStatus.rejected RegistrationStatus.cancelled = refl

-- The items of a join come in the order of its rows.

module _ (r : RegistrationRow) where
  pairs-IsBelow :
      (k : ℕ) (us : List UserRow) (zs : List (RegistrationRow × UserRow))
      → r.created_at ≤ k
      → IsBelow (λ (x : RegistrationRow × UserRow). x.0.created_at) k zs
      → IsBelow
          (λ (x : RegistrationRow × UserRow). x.0.created_at)
          k
          (map (λ (u : UserRow). (r, u)) us ++ zs)
  pairs-IsBelow k [] zs h b = b
  pairs-IsBelow k (u ∷ us) zs h b = (h, pairs-IsBelow k us zs h b)

  pairs-IsDescending :
      (us : List UserRow) (zs : List (RegistrationRow × UserRow))
      → IsBelow (λ (x : RegistrationRow × UserRow). x.0.created_at) r.created_at zs
      → IsDescending (λ (x : RegistrationRow × UserRow). x.0.created_at) zs
      → IsDescending
          (λ (x : RegistrationRow × UserRow). x.0.created_at)
          (map (λ (u : UserRow). (r, u)) us ++ zs)
  pairs-IsDescending [] zs b d = d
  pairs-IsDescending (u ∷ us) zs b d =
      (pairs-IsBelow r.created_at us zs (omega arith) b, pairs-IsDescending us zs b d)

join-IsBelow :
    (t : Tables) (k : ℕ) (rs : List RegistrationRow)
    → IsBelow (λ (r : RegistrationRow). r.created_at) k rs
    → IsBelow (λ (x : RegistrationRow × UserRow). x.0.created_at) k (join (rows_of t) rs)
join-IsBelow t k [] b = tt
join-IsBelow t k (r ∷ rs) (h, b) =
    pairs-IsBelow r k (keep_where (is_user r.user_id) t.users) (join (rows_of t) rs) h
      (join-IsBelow t k rs b)

join-IsDescending :
    (t : Tables) (rs : List RegistrationRow)
    → IsDescending (λ (r : RegistrationRow). r.created_at) rs
    → IsDescending (λ (x : RegistrationRow × UserRow). x.0.created_at) (join (rows_of t) rs)
join-IsDescending t [] d = tt
join-IsDescending t (r ∷ rs) (b, d) =
    pairs-IsDescending r (keep_where (is_user r.user_id) t.users) (join (rows_of t) rs)
      (join-IsBelow t r.created_at rs b) (join-IsDescending t rs d)

newer-orders :
    (x y : RegistrationRow)
    → (newer y x ≡ true → x.created_at ≤ y.created_at)
      × (newer y x ≡ false → y.created_at ≤ x.created_at)
newer-orders x y = ((λ h. ground (arith, h)), λ h. ground (arith, h))

pub all_rows-IsDescending :
    (status : PublicStatus) (t : Tables)
    → IsDescending (λ (x : RegistrationRow × UserRow). x.0.created_at) (all_rows status t)
unfolding all_rows
all_rows-IsDescending status t =
    join-IsDescending t (sort_by newer (keep_where (has_status status) t.registrations)) (
      sort_by-IsDescending (λ (r : RegistrationRow). r.created_at) newer newer-orders
        (keep_where (has_status status) t.registrations))

-- How often rows are joined, where each has one user.
module _ (t : Tables) (p : RegistrationRow → Bool) where
  pairs-count :
      (r : RegistrationRow) (us : List UserRow)
      → count_where (λ (x : RegistrationRow × UserRow). p x.0) (map (λ (u : UserRow). (r, u)) us)
        ≡ (if p r then length us else 0)
  pairs-count r [] = ground arith
  pairs-count r (u ∷ us) = ground (arith, pairs-count r us)

  one_user :
      (r : RegistrationRow)
      → count_where (is_user r.user_id) t.users ≡ 1
      → count_where (λ (x : RegistrationRow × UserRow). p x.0) (rows_of t r)
        ≡ (if p r then 1 else 0)
  one_user r h =
      let one : length (keep_where (is_user r.user_id) t.users) ≡ 1 =
        length-eq-count_where (keep_where (is_user r.user_id) t.users)
        ∙ count_where-keep_where (λ _. true) (is_user r.user_id) t.users
        ∙ count_where_cong _ (is_user r.user_id) t.users (λ u. ground arith)
        ∙ h in
      pairs-count r (keep_where (is_user r.user_id) t.users) ∙ rw one refl

  join-count :
      (rs : List RegistrationRow)
      → any (λ r. not (count_where (is_user r.user_id) t.users == 1)) rs ≡ false
      → count_where (λ (x : RegistrationRow × UserRow). p x.0) (join (rows_of t) rs)
        ≡ count_where p rs
  join-count [] h = refl
  join-count (r ∷ rs) h =
      count_where-append (λ (x : RegistrationRow × UserRow). p x.0) (rows_of t r)
        (join (rows_of t) rs)
      ∙ ground
          (arith, h, one_user r, join-count rs, ==_iff (count_where (is_user r.user_id) t.users) 1)

  pub all_rows-count :
      (status : PublicStatus)
      → any (λ r. not (count_where (is_user r.user_id) t.users == 1)) t.registrations ≡ false
      → count_where (λ (x : RegistrationRow × UserRow). p x.0) (all_rows status t)
        ≡ count_where (λ r. is_of status r.status && p r) t.registrations
  unfolding all_rows
  all_rows-count status h =
      let late = λ (r : RegistrationRow). not (count_where (is_user r.user_id) t.users == 1) in
      let kept = keep_where (has_status status) t.registrations in
      join-count (sort_by newer kept) (
        any-sort_by late newer kept
        ∙ any-keep_where late (has_status status) t.registrations
        ∙ any-weaker late (has_status status) t.registrations h)
      ∙ count_where-sort_by p newer kept
      ∙ count_where-keep_where p (has_status status) t.registrations
      ∙ count_where_cong _ _ t.registrations (λ r. rw (has_status-eq status r) refl)
    where
      any-weaker :
          (late q : RegistrationRow → Bool) (rs : List RegistrationRow)
          → any late rs ≡ false
          → any (λ r. q r && late r) rs ≡ false
      any-weaker late q [] h = refl
      any-weaker late q (r ∷ rs) h = ground (arith, h, any-weaker late q rs)

-- An item tells of a stored request of the status and of its user.
pub record IsItem (status : PublicStatus) (t : Tables) (i : ListItem) : Type 0 where
  pub row : RegistrationRow
  pub stored : Memᴰ row t.registrations
  pub of_status : is_of status row.status ≡ true
  pub user : UserRow
  pub registered : Memᴰ user t.users
  pub own : user.id ≡ row.user_id
  pub id : i.id ≡ row.id
  pub applicant_name : i.applicant_name ≡ user.name
  pub email : i.email ≡ user.email
  pub public_status : i.status ≡ status
  pub created_at : i.created_at ≡ row.created_at

pair-IsItem :
    (status : PublicStatus) (t : Tables) (row : RegistrationRow) (user : UserRow) (i : ListItem)
    → Memᴰ row t.registrations
    → is_of status row.status ≡ true
    → Memᴰ user t.users
    → user.id ≡ row.user_id
    → i ≡ item_of status (row, user)
    → IsItem status t i
pair-IsItem status t row user i stored of_status registered own e = record {
  row = row;
  stored = stored;
  of_status = of_status;
  user = user;
  registered = registered;
  own = own;
  id = ap (λ (x : ListItem). x.id) e;
  applicant_name = ap (λ (x : ListItem). x.applicant_name) e;
  email = ap (λ (x : ListItem). x.email) e;
  public_status = ap (λ (x : ListItem). x.status) e;
  created_at = ap (λ (x : ListItem). x.created_at) e;
}

pub all_rows-IsItem :
    (status : PublicStatus) (t : Tables) (i : ListItem)
    → Memᴰ i (map (item_of status) (all_rows status t))
    → IsItem status t i
unfolding all_rows
all_rows-IsItem status t i m =
    let kept = keep_where (has_status status) t.registrations in
    let (x, m1, e) = map-member (item_of status) i (all_rows status t) m in
    let (row, m2, m3) = join-member (rows_of t) x (sort_by newer kept) m1 in
    let (m4, h) =
      keep_where-member (has_status status) row t.registrations
        (sort_by-member newer row kept m2) in
    let (user, m5, pair) =
      map-member (λ (u : UserRow). (row, u)) x (keep_where (is_user row.user_id) t.users) m3 in
    let (m6, own) = keep_where-member (is_user row.user_id) user t.users m5 in
    pair-IsItem status t row user i m4 (sym (has_status-eq status row) ∙ h) m6
      ((eq_iff user.id row.user_id).0 own) (e ∙ ap (item_of status) pair)
