-- ===== src/Registration/Queries.antt =====
-- apps/web/src/server/registration: the list of requests and the status of a customer's request.
-- The creation date of an item is the instant, which the source writes as a text.
use ai_agent_platform.Base.{
  ℕ, ◌-◌, ◌*◌, zero, suc, String, Bool, not, ◌&&◌, ◌||◌, Option, none, some, List, [], ◌∷◌, map,
  join, str_eq, ◌==◌, ltb, leb, if◌then◌else◌, keep_where, count_where, sort_by, take, Result, ok,
  err, ◌>>◌, transaction,
}
use Prim.Native.String.{◌++◌ as text_append}
use ai_agent_platform.Identity.{Realm, is_customer}
use ai_agent_platform.Access.Repository.{str_leb}
use ai_agent_platform.Directory.{Tables, UserRow, RegistrationRow, is_user}
use ai_agent_platform.Registration.Model.{
  Failure, error, refused, registration_error, validation_failed, permission_denied, not_found,
  PublicStatus, map_public_status, map_database_status, status_text, RegistrationTx,
  RegistrationActor,
}
use ai_agent_platform.Registration.Repository.{assert_active_workforce_permission}
use ai_agent_platform.Registration.Service.{can_review}

-- `presentRegistrationCompanyName`.
unfoldable pub present_company_name : String → String
present_company_name name =
    if str_eq name "__aap_legacy_missing_company_name_v1__" then "历史数据（公司信息缺失）" else name

pub record ListItem : Type 0 where
  pub id : String
  pub applicant_name : String
  pub email : String
  pub company_name : String
  pub status : PublicStatus
  pub created_at : ℕ

pub record Page : Type 0 where
  pub items : List ListItem
  pub total : ℕ
  pub page : ℕ
  pub page_size : ℕ

-- `ORDER BY created_at DESC, id DESC`.
abbrev pub newer : RegistrationRow → RegistrationRow → Bool
newer a b = ltb b.created_at a.created_at || ((a.created_at == b.created_at) && str_leb b.id a.id)

abbrev pub has_status : PublicStatus → RegistrationRow → Bool
has_status status r = str_eq (status_text r.status) (status_text (map_public_status status))

abbrev pub item_of : PublicStatus → RegistrationRow × UserRow → ListItem
item_of status (r, u) = record {
  id = r.id;
  applicant_name = u.name;
  email = u.email;
  company_name = present_company_name r.company_name;
  status = status;
  created_at = r.created_at;
}

-- `mapDatabaseRegistrationStatus`, which throws.
abbrev pub public_status : RegistrationRow → Result Failure PublicStatus
public_status r = elim (map_database_status (status_text r.status)) [
  | some s ↦ ok s
  | none ↦ err (error (text_append "Unsupported registration status: " (status_text r.status)))
]

abbrev pub item_with :
    RegistrationRow × UserRow → Result Failure PublicStatus → Result Failure ListItem
item_with row (ok status) = ok (item_of status row)
item_with row (err e) = err e

abbrev pub cons_item :
    Result Failure ListItem → Result Failure (List ListItem) → Result Failure (List ListItem)
cons_item (err e) rest = err e
cons_item (ok item) (err e) = err e
cons_item (ok item) (ok items) = ok (item ∷ items)

unfoldable pub present_items : List (RegistrationRow × UserRow) → Result Failure (List ListItem)
present_items [] = ok []
present_items (row ∷ rest) = cons_item (item_with row (public_status row.0)) (present_items rest)

abbrev pub rows_of : Tables → RegistrationRow → List (RegistrationRow × UserRow)
rows_of t r = map (λ (u : UserRow). (r, u)) (keep_where (is_user r.user_id) t.users)

-- All the requests of a status with their users, in the order of the pages.
unfoldable pub all_rows : PublicStatus → Tables → List (RegistrationRow × UserRow)
all_rows status t =
    join (rows_of t) (sort_by newer (keep_where (has_status status) t.registrations))

abbrev pub drop {ℓ} : {A : Type ℓ} → ℕ → List A → List A
drop zero xs = xs
drop (suc n) [] = []
drop (suc n) (x ∷ xs) = drop n xs

unfoldable pub page_rows : PublicStatus → ℕ → ℕ → Tables → List (RegistrationRow × UserRow)
page_rows status page page_size t =
    take page_size (drop ((page - 1) * page_size) (all_rows status t))

abbrev pub paged :
    PublicStatus → ℕ → ℕ → Tables → Result Failure (List ListItem) → Result Failure (Page × Tables)
paged status page page_size t (err e) = err e
paged status page page_size t (ok items) = ok (
  record {
    items = items;
    total = count_where (has_status status) t.registrations;
    page = page;
    page_size = page_size;
  },
  t,
)

unfoldable pub read_page : PublicStatus → ℕ → ℕ → RegistrationTx Page
unfolding page_rows present_items
read_page status page page_size t =
    paged status page page_size t (present_items (page_rows status page page_size t))

unfoldable pub list_tx : PublicStatus → ℕ → ℕ → String → RegistrationTx Page
unfolding read_page
list_tx status page page_size actor = do
  assert_active_workforce_permission actor "admin:registrations"
  read_page status page page_size

abbrev pub is_page_size : ℕ → Bool
is_page_size n = (n == 10) || ((n == 20) || (n == 50))

-- The page is a safe integer.
abbrev pub is_page : ℕ → Bool
is_page n = leb 1 n && leb n 9007199254740991

unfoldable pub list_registration_requests :
    PublicStatus → ℕ → ℕ → RegistrationActor → Tables → Result Failure Page × Tables
unfolding can_review list_tx
list_registration_requests status page page_size actor t =
    if not (can_review actor)
    then (err (refused permission_denied), t)
    else if not (is_page page)
    then (err (registration_error validation_failed (some "page")), t)
    else if not (is_page_size page_size)
    then (err (registration_error validation_failed (some "pageSize")), t)
    else transaction (list_tx status page page_size actor.user_id) t

abbrev pub status_of : Option RegistrationRow → Result Failure PublicStatus
status_of none = err (refused not_found)
status_of (some r) = public_status r

abbrev first_of : List RegistrationRow → Option RegistrationRow
first_of [] = none
first_of (r ∷ rest) = some r

unfoldable pub get_registration_status : String → Realm → Tables → Result Failure PublicStatus
get_registration_status user_id realm t =
    if not (is_customer realm)
    then err (refused permission_denied)
    else status_of (
        first_of (
          sort_by newer
            (keep_where (λ (r : RegistrationRow). str_eq r.user_id user_id) t.registrations)))
