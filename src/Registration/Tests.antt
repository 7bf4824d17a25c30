-- ===== src/Registration/Tests.antt =====
-- A registration, its review, and the theorems applied to them.
use mathlib.Core.List.{Memᴰ}
use ai_agent_platform.Base.{
  str_eq, ◌&&◌, ap, arith, count_where, IsDescending, some, ◌↔◌, String, true, ◌≡◌, ◌≢◌, refl, none,
  List, [], ◌∷◌, ok, Option, ◌>>=◌, Result,
}
use ai_agent_platform.Identity.{workforce, workforce_scope, customer_scope, active}
use ai_agent_platform.Access.Model.{verified}
use ai_agent_platform.Access.Entitlement.{is_entitled}
use ai_agent_platform.Directory.{
  is_user, RegistrationRow, is_permitted, RegistrationStatus, Tables, UserRow, insert_audit,
  insert_link,
}
use ai_agent_platform.Registration.Model.{
  map_database_status, map_public_status, status_text, PublicStatus, matches_constraint, create,
  RegistrationActor, ReviewDecision, Context, SubmitInput, Failure,
}
use ai_agent_platform.Registration.Validation.{
  Unicode, normalized_review_note, organization_values, normalize_legal_name_key,
}
use ai_agent_platform.Registration.Audit.{append_audit, invalid_field, is_bounded}
use ai_agent_platform.Registration.Repository.{
  Drawn, applicant, new_request, assert_active_workforce_permission, lock_request,
  create_or_find_organization, find_active_organization, find_customer_role,
  add_membership_and_role, insert_membership,
}
use ai_agent_platform.Registration.Service.{
  approve_registration, can_review, approve_tx, require_pending, choose_organization,
  approve_request_and_activate_user,
}
use ai_agent_platform.Registration.Queries.{list_registration_requests, ListItem}
use ai_agent_platform.Registration.Pages.{page_of, list_registration_requests-eq}
use ai_agent_platform.Registration.Listing.{listed, listed-IsDescending}
use ai_agent_platform.Registration.Items.{IsItem, is_of}
use ai_agent_platform.Registration.Calls.{approve, reject, run_review, submit, Call, run_calls}
use ai_agent_platform.Registration.Approval.{map_status_roundtrip, run_review-permitted}
use ai_agent_platform.Registration.Finality.{run_review-once}

abbrev unicode : Unicode
unicode = record { nfkc = λ s. s; to_lower_case = λ s. s }

abbrev drawn : Drawn
drawn = record {
  user_id = "c1";
  request_id = "q1";
  organization_id = "o1";
  membership_id = "m1";
  now = 5;
}

abbrev reviewer : UserRow
reviewer = record (applicant "w1" "Reviewer" "w1@a") {
  realm = workforce;
  status = active;
  email_verification_status = verified;
}

abbrev tables : Tables
tables = record {
  users = reviewer ∷ applicant "c1" "Reader" "c1@b" ∷ [];
  accounts = [];
  sessions = [];
  organizations = [];
  memberships = [];
  user_roles = record { user_id = "w1"; role_id = "r1"; assigned_by = none } ∷ [];
  roles =
      record { id = "r1"; name = "admin"; realm_scope = workforce_scope }
      ∷ record { id = "r2"; name = "customer_admin"; realm_scope = customer_scope }
      ∷ [];
  role_permissions = record { role_id = "r1"; permission_id = "p1" } ∷ [];
  permissions = record { id = "p1"; key = "admin:registrations" } ∷ [];
  registrations = new_request drawn "c1" "Acme" ∷ [];
  audit = [];
}

abbrev decision : ReviewDecision
decision = record {
  request_id = "q1";
  organization = create "Acme";
  initial_role = none;
  review_note = none;
}

abbrev actor : RegistrationActor
actor = record {
  user_id = "w1";
  realm = workforce;
  status = active;
  permissions = "admin:registrations" ∷ [];
}

abbrev context : Context
context = record { ip_address = none; user_agent = none }

abbrev approved_tables : Tables
approved_tables = (approve_registration unicode drawn decision actor context tables).1

is_accepted :
    approve_registration unicode drawn decision actor context tables ≡ (ok tt, approved_tables)
unfolding approve_registration can_review approve_tx require_pending choose_organization
    approve_request_and_activate_user assert_active_workforce_permission lock_request
    create_or_find_organization find_active_organization find_customer_role add_membership_and_role
    insert_membership insert_link insert_audit append_audit invalid_field is_bounded is_entitled
    organization_values normalize_legal_name_key normalized_review_note matches_constraint ◌>>=◌
is_accepted = refl

run_review-permitted_example : is_permitted tables "w1" "admin:registrations" ≡ true
unfolding run_review
run_review-permitted_example =
    run_review-permitted unicode (approve drawn decision actor context) tables approved_tables
      is_accepted

abbrev no_limit : String → Option String → String → Result Failure (Unit {0}) × String
no_limit id ip l = (ok tt, l)

abbrev submission : SubmitInput
submission = record {
  applicant_name = "Other";
  email = "other@c";
  password = "long enough to pass";
  company_name = "Other";
  accepted_terms = true;
}

abbrev between : List Call
between = submit (record drawn { user_id = "c2"; request_id = "q2" }) submission context ∷ []

run_review-once_example :
    (run_review unicode
      (reject drawn "q1" actor "No" context)
      (run_calls no_limit unicode (λ s. s) (λ s. s) between "" approved_tables).1).0
    ≢ ok tt
unfolding run_review
run_review-once_example =
    run_review-once no_limit unicode (λ s. s) (λ s. s) (approve drawn decision actor context)
      (reject drawn "q1" actor "No" context) between "" tables approved_tables is_accepted refl

map_status_roundtrip_example :
    (map_database_status (status_text (map_public_status PublicStatus.active))
      ≡ some PublicStatus.active)
    × ((map_database_status (status_text RegistrationStatus.approved) ≡ some PublicStatus.active)
        ↔ (map_public_status PublicStatus.active ≡ RegistrationStatus.approved))
map_status_roundtrip_example = map_status_roundtrip PublicStatus.active RegistrationStatus.approved

list_registration_requests-eq_example :
    list_registration_requests PublicStatus.pending_review 1 10 actor tables
    ≡ (ok (page_of PublicStatus.pending_review 1 10 tables), tables)
unfolding can_review is_permitted is_entitled
list_registration_requests-eq_example =
    list_registration_requests-eq PublicStatus.pending_review 1 10 actor tables refl refl refl refl

no_member : {P : Type 0} {r : RegistrationRow} → Memᴰ r [] → P
no_member m = elim m [ ]

one_user :
    (r : RegistrationRow)
    → Memᴰ r tables.registrations
    → count_where (is_user r.user_id) tables.users ≡ 1
one_user r (Memᴰ.head e) =
    ap (λ (x : RegistrationRow). count_where (is_user x.user_id) tables.users) e
one_user r (Memᴰ.tail m) = no_member m

listed-IsDescending_example :
    IsDescending
      (λ (i : ListItem). i.created_at)
      (listed PublicStatus.pending_review 2 10 actor tables)
    × ((id : String)
        → count_where
            (λ (i : ListItem). str_eq i.id id)
            (listed PublicStatus.pending_review 2 10 actor tables)
          ≡ count_where
              (λ (r : RegistrationRow).
                is_of PublicStatus.pending_review r.status && str_eq r.id id)
              tables.registrations)
    × ((i : ListItem)
        → Memᴰ i (listed PublicStatus.pending_review 2 10 actor tables)
        → IsItem PublicStatus.pending_review tables i)
unfolding can_review is_permitted is_entitled
listed-IsDescending_example =
    listed-IsDescending PublicStatus.pending_review 2 10 actor tables refl refl (omega arith) refl
      one_user (omega arith)
