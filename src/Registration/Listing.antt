-- ===== src/Registration/Listing.antt =====
-- The requests of a status as the pages of registration/service.ts tell of them, one page after
-- another.
use ai_agent_platform.Registration.Items.{
  is_of, all_rows-IsDescending, all_rows-count, IsItem, all_rows-IsItem,
}
use mathlib.Core.List.{Memᴰ}
use mathlib.Core.Path.{subst}
use ai_agent_platform.Base.{
  ℕ, zero, suc, ◌*◌, ◌≤◌, ◌==◌, String, true, false, not, ◌&&◌, ◌≡◌, refl, ap, ◌∙◌, List, [], ◌++◌,
  any, map, length, str_eq, count_where, Result, ok, err, arith, member_of_any, Bool-cases, inl,
  inr, IsDescending, map-IsDescending, take_all, length-eq-count_where, count_where-map,
  count_where_cong,
}
use ai_agent_platform.Directory.{Tables, UserRow, RegistrationRow, is_permitted, is_user}
use ai_agent_platform.Registration.Model.{Failure, PublicStatus, RegistrationActor}
use ai_agent_platform.Registration.Service.{can_review}
use ai_agent_platform.Registration.Queries.{
  ListItem, Page, item_of, all_rows, is_page_size, list_registration_requests,
}
use ai_agent_platform.Registration.Pages.{pages_of, list_registration_requests-eq, pages_of-eq-take}

abbrev pub items_of : Result Failure Page × Tables → List ListItem
items_of (ok p, t) = p.items
items_of (err e, t) = []

-- The items that are answered to the requests of the pages 1 to `n`.
abbrev pub listed : PublicStatus → ℕ → ℕ → RegistrationActor → Tables → List ListItem
listed status zero page_size actor t = []
listed status (suc n) page_size actor t =
    listed status n page_size actor t
    ++ items_of (list_registration_requests status (suc n) page_size actor t)

listed-eq-pages_of :
    (status : PublicStatus) (n page_size : ℕ) (actor : RegistrationActor) (t : Tables)
    → can_review actor ≡ true
    → is_permitted t actor.user_id "admin:registrations" ≡ true
    → n ≤ 9007199254740991
    → is_page_size page_size ≡ true
    → listed status n page_size actor t ≡ pages_of status n page_size t
listed-eq-pages_of status zero page_size actor t c p a b = refl
listed-eq-pages_of status (suc n) page_size actor t c p a b =
    let before : n ≤ 9007199254740991 = omega (arith, a) in
    let e =
      list_registration_requests-eq status (suc n) page_size actor t c p (ground (arith, a)) b in
    ap (λ l. l ++ items_of (list_registration_requests status (suc n) page_size actor t))
      (listed-eq-pages_of status n page_size actor t c p before b)
    ∙ ap (λ r. pages_of status n page_size t ++ items_of r) e

one_user_each :
    (t : Tables)
    → ((r : RegistrationRow) → Memᴰ r t.registrations → count_where (is_user r.user_id) t.users ≡ 1)
    → any (λ r. not (count_where (is_user r.user_id) t.users == 1)) t.registrations ≡ false
one_user_each t users =
    elim (Bool-cases
      (any (λ r. not (count_where (is_user r.user_id) t.users == 1)) t.registrations)) [
        | inl e ↦
            let (r, m, late) =
              member_of_any (λ r. not (count_where (is_user r.user_id) t.users == 1))
                t.registrations e in
            ground (arith, users r m, late)
        | inr e ↦ e
      ]

-- A reviewer with the permission who asks for the pages from the first one on, until their sizes
-- reach the number of the requests of the status, is answered each of these requests exactly once
-- and no other, with the name and the address of its user, the newest first, where each request has
-- one user.
pub listed-IsDescending :
    (status : PublicStatus) (n page_size : ℕ) (actor : RegistrationActor) (t : Tables)
    → can_review actor ≡ true
    → is_permitted t actor.user_id "admin:registrations" ≡ true
    → n ≤ 9007199254740991
    → is_page_size page_size ≡ true
    → ((r : RegistrationRow) → Memᴰ r t.registrations → count_where (is_user r.user_id) t.users ≡ 1)
    → count_where (λ (r : RegistrationRow). is_of status r.status) t.registrations ≤ n * page_size
    → IsDescending (λ (i : ListItem). i.created_at) (listed status n page_size actor t)
      × ((id : String)
          → count_where (λ (i : ListItem). str_eq i.id id) (listed status n page_size actor t)
            ≡ count_where
                (λ (r : RegistrationRow). is_of status r.status && str_eq r.id id)
                t.registrations)
      × ((i : ListItem) → Memᴰ i (listed status n page_size actor t) → IsItem status t i)
listed-IsDescending status n page_size actor t c p a b users enough =
    let joined = one_user_each t users in
    let total : length (all_rows status t) ≤ n * page_size = omega (
      arith,
      enough,
      length-eq-count_where (all_rows status t),
      all_rows-count t (λ _. true) status joined,
      count_where_cong (λ (r : RegistrationRow). is_of status r.status && true)
          (λ (r : RegistrationRow). is_of status r.status) t.registrations (λ r. ground arith),
    ) in
    let whole : listed status n page_size actor t ≡ map (item_of status) (all_rows status t) =
      listed-eq-pages_of status n page_size actor t c p a b
      ∙ pages_of-eq-take status n page_size t
      ∙ ap (map (item_of status)) (take_all (n * page_size) (all_rows status t) total) in
    (
      rw whole (
          map-IsDescending (λ (x : RegistrationRow × UserRow). x.0.created_at)
            (λ (i : ListItem). i.created_at) (item_of status) (λ (r, u). refl) (all_rows status t)
            (all_rows-IsDescending status t)),
      (λ id.
          ap (count_where (λ (i : ListItem). str_eq i.id id)) whole
          ∙ count_where-map (λ (i : ListItem). str_eq i.id id) (item_of status) (all_rows status t)
          ∙ count_where_cong _ (λ (x : RegistrationRow × UserRow). str_eq x.0.id id)
              (all_rows status t) (λ (r, u). refl)
          ∙ all_rows-count t (λ (r : RegistrationRow). str_eq r.id id) status joined),
      (λ i m. all_rows-IsItem status t i (subst (λ l. Memᴰ i l) whole m)),
    )
