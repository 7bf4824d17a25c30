-- ===== src/Registration/Pages.antt =====
-- The pages of the list are answered, and are the whole list in pieces.
use ai_agent_platform.Base.{
  >>=-ok, any-eq-false_of, any_never, ℕ, zero, suc, ◌+◌, ◌-◌, ◌*◌, String, Bool, true, false, not,
  ◌&&◌, ◌≡◌, refl, sym, ap, ◌∙◌, some, List, [], ◌∷◌, ◌++◌, any, map, str_eq, keep_where,
  count_where, sort_by, take, Result, ok, err, arith, any-keep_where, any-sort_by, any-join,
  if◌then◌else◌, Bool-cases, inl, inr, commit,
}
use ai_agent_platform.Directory.{
  Tables, UserRow, RegistrationRow, RegistrationStatus, is_permitted, is_user,
}
use ai_agent_platform.Registration.Model.{
  refused, permission_denied, Failure, PublicStatus, map_public_status, map_database_status,
  status_text, RegistrationActor,
}
use ai_agent_platform.Registration.Repository.{assert_active_workforce_permission}
use ai_agent_platform.Registration.Service.{can_review}
use ai_agent_platform.Registration.Queries.{
  newer, ListItem, Page, item_of, public_status, present_items, rows_of, all_rows, drop, page_rows,
  paged, read_page, list_tx, is_page, is_page_size, list_registration_requests, has_status,
}

map_database_status-eq :
    (s : PublicStatus) (d : RegistrationStatus)
    → str_eq (status_text d) (status_text (map_public_status s)) ≡ true
    → map_database_status (status_text d) ≡ some s
unfolding map_database_status map_public_status
map_database_status-eq PublicStatus.pending_review RegistrationStatus.pending_review e = refl
map_database_status-eq PublicStatus.pending_review RegistrationStatus.approved e = cc
map_database_status-eq PublicStatus.pending_review RegistrationStatus.rejected e = cc
map_database_status-eq PublicStatus.pending_review RegistrationStatus.cancelled e = cc
map_database_status-eq PublicStatus.active RegistrationStatus.pending_review e = cc
map_database_status-eq PublicStatus.active RegistrationStatus.approved e = refl
map_database_status-eq PublicStatus.active RegistrationStatus.rejected e = cc
map_database_status-eq PublicStatus.active RegistrationStatus.cancelled e = cc
map_database_status-eq PublicStatus.rejected RegistrationStatus.pending_review e = cc
map_database_status-eq PublicStatus.rejected RegistrationStatus.approved e = cc
map_database_status-eq PublicStatus.rejected RegistrationStatus.rejected e = refl
map_database_status-eq PublicStatus.rejected RegistrationStatus.cancelled e = cc

-- A request of the status that was asked for is told of with that status.
public_status-eq :
    (status : PublicStatus) (r : RegistrationRow)
    → has_status status r ≡ true
    → public_status r ≡ ok status
public_status-eq status r h = rw (map_database_status-eq status r.status h, public_status) refl

present_items-eq :
    (status : PublicStatus) (rows : List (RegistrationRow × UserRow))
    → any (λ x. not (has_status status x.0)) rows ≡ false
    → present_items rows ≡ ok (map (item_of status) rows)
unfolding present_items
present_items-eq status [] h = refl
present_items-eq status (x ∷ rows) h = elim (Bool-cases (has_status status x.0)) [
  | inl e ↦
      rw (public_status-eq status x.0 e, present_items-eq status rows (ground (arith, e))) refl
  | inr e ↦ ground (arith, e)
]

module _ {A : Type 0} (p : A → Bool) where
  any-take : (n : ℕ) (xs : List A) → any p xs ≡ false → any p (take n xs) ≡ false
  any-take zero xs h = refl
  any-take (suc n) [] h = refl
  any-take (suc n) (x ∷ xs) h = ground (arith, any-take n xs)

  any-drop : (n : ℕ) (xs : List A) → any p xs ≡ false → any p (drop n xs) ≡ false
  any-drop zero xs h = h
  any-drop (suc n) [] h = refl
  any-drop (suc n) (x ∷ xs) h = ground (arith, any-drop n xs)

pairs-has_status :
    (status : PublicStatus) (r : RegistrationRow) (us : List UserRow)
    → any
        (λ (x : RegistrationRow × UserRow). not (has_status status x.0))
        (map (λ (u : UserRow). (r, u)) us)
      ≡ true
    → not (has_status status r) ≡ true
pairs-has_status status r [] h = cc
pairs-has_status status r (u ∷ us) h = ground (arith, pairs-has_status status r us)

kept-has_status :
    (status : PublicStatus) (rs : List RegistrationRow)
    → any (λ r. not (has_status status r)) (keep_where (has_status status) rs) ≡ false
kept-has_status status rs =
    any-keep_where (λ r. not (has_status status r)) (has_status status) rs
    ∙ any_never (λ r. has_status status r && not (has_status status r)) rs (λ r. ground arith)

all_rows-has_status :
    (status : PublicStatus) (t : Tables)
    → any (λ x. not (has_status status x.0)) (all_rows status t) ≡ false
unfolding all_rows
all_rows-has_status status t =
    let rs = keep_where (has_status status) t.registrations in
    let late = λ (x : RegistrationRow × UserRow). not (has_status status x.0) in
    any-join late (rows_of t) (sort_by newer rs)
    ∙ any-eq-false_of (λ r. not (has_status status r)) (λ r. any late (rows_of t r))
        (sort_by newer rs)
        (λ r h. pairs-has_status status r (keep_where (is_user r.user_id) t.users) h)
        (any-sort_by (λ r. not (has_status status r)) newer rs
          ∙ kept-has_status status t.registrations)

-- The page that is answered.
abbrev pub page_of : PublicStatus → ℕ → ℕ → Tables → Page
page_of status page page_size t = record {
  items = map (item_of status) (take page_size (drop ((page - 1) * page_size) (all_rows status t)));
  total = count_where (has_status status) t.registrations;
  page = page;
  page_size = page_size;
}

assert-eq :
    (user_id : String) (t : Tables)
    → is_permitted t user_id "admin:registrations" ≡ true
    → assert_active_workforce_permission user_id "admin:registrations" t ≡ ok (tt, t)
unfolding assert_active_workforce_permission
assert-eq user_id t p = split (is_permitted t user_id "admin:registrations") p
  where
    split :
        (b : Bool)
        → b ≡ true
        → (let x : Result Failure (Unit {0} × Tables) =
              if not b then err (refused permission_denied) else ok (tt, t) in
            x ≡ ok (tt, t))
    split true h = refl
    split false h = cc

read_page-eq :
    (status : PublicStatus) (page page_size : ℕ) (t : Tables)
    → read_page status page page_size t ≡ ok (page_of status page page_size t, t)
unfolding read_page page_rows
read_page-eq status page page_size t = ap (paged status page page_size t) (
    present_items-eq status (take page_size (drop ((page - 1) * page_size) (all_rows status t))) (
      any-take (λ x. not (has_status status x.0)) page_size _
        (any-drop (λ x. not (has_status status x.0)) ((page - 1) * page_size) (all_rows status t)
          (all_rows-has_status status t))))

list_tx-eq :
    (status : PublicStatus) (page page_size : ℕ) (actor : String) (t : Tables)
    → is_permitted t actor "admin:registrations" ≡ true
    → list_tx status page page_size actor t ≡ ok (page_of status page page_size t, t)
unfolding list_tx
list_tx-eq status page page_size actor t p =
    >>=-ok (assert_active_workforce_permission actor "admin:registrations")
      (λ _. read_page status page page_size) t (assert-eq actor t p)
    ∙ read_page-eq status page page_size t

-- A reviewer who holds the permission is answered every page of every status: the requests of that
-- status with their users, the newest first, from the page's place in the list on.
pub list_registration_requests-eq :
    (status : PublicStatus) (page page_size : ℕ) (actor : RegistrationActor) (t : Tables)
    → can_review actor ≡ true
    → is_permitted t actor.user_id "admin:registrations" ≡ true
    → is_page page ≡ true
    → is_page_size page_size ≡ true
    → list_registration_requests status page page_size actor t
      ≡ (ok (page_of status page page_size t), t)
unfolding list_registration_requests
list_registration_requests-eq status page page_size actor t c p a b =
    rw (c, a, b) (ap (commit t) (list_tx-eq status page page_size actor.user_id t p))

-- The pages up to a number, one after another.
abbrev pub pages_of : PublicStatus → ℕ → ℕ → Tables → List ListItem
pages_of status zero page_size t = []
pages_of status (suc n) page_size t =
    pages_of status n page_size t ++ (page_of status (suc n) page_size t).items

take_nil : {A : Type 0} (k : ℕ) → take {A = A} k [] ≡ []
take_nil zero = refl
take_nil (suc k) = refl

take_more : {A : Type 0} (n k : ℕ) (xs : List A) → take n xs ++ take k (drop n xs) ≡ take (n + k) xs
take_more zero k xs = ap (λ m. take m xs) (omega arith)
take_more (suc n) k [] = take_nil k ∙ sym (take_nil (suc n + k))
take_more (suc n) k (x ∷ xs) =
    let e : suc n + k ≡ suc (n + k) = omega arith in
    ap (λ l. x ∷ l) (take_more n k xs) ∙ ap (λ m. take m (x ∷ xs)) (sym e)

map-append : {A B : Type 0} (f : A → B) (xs ys : List A) → map f xs ++ map f ys ≡ map f (xs ++ ys)
map-append f [] ys = refl
map-append f (x ∷ xs) ys = ap (λ l. f x ∷ l) (map-append f xs ys)

-- The first pages of a status, one after another, are the beginning of its list, as long as their
-- sizes together.
pub pages_of-eq-take :
    (status : PublicStatus) (n page_size : ℕ) (t : Tables)
    → pages_of status n page_size t
      ≡ map (item_of status) (take (n * page_size) (all_rows status t))
pages_of-eq-take status zero page_size t = let e : 0 * page_size ≡ 0 = omega arith in rw e refl
pages_of-eq-take status (suc n) page_size t =
    let e : (suc n - 1) * page_size ≡ n * page_size =
      (let p : suc n - 1 ≡ n = omega arith in ap (λ (m : ℕ). m * page_size) p) in
    let m : n * page_size + page_size ≡ suc n * page_size = omega arith in
    ap (λ l. l ++ (page_of status (suc n) page_size t).items)
      (pages_of-eq-take status n page_size t)
    ∙ ap
        (λ k.
          map (item_of status) (take (n * page_size) (all_rows status t))
          ++ map (item_of status) (take page_size (drop k (all_rows status t))))
        e
    ∙ map-append (item_of status) (take (n * page_size) (all_rows status t))
        (take page_size (drop (n * page_size) (all_rows status t)))
    ∙ ap (map (item_of status)) (take_more (n * page_size) page_size (all_rows status t))
    ∙ ap (λ k. map (item_of status) (take k (all_rows status t))) m
