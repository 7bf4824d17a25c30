-- ===== src/Documents/Tests.antt =====
-- Calls of the document service on small tables, and the theorems applied to them.
use mathlib.Core.List.{Memᴰ}
use ai_agent_platform.Base.{
  false, ◌==◌, ℕ, ◌+◌, true, ◌≡◌, ◌≢◌, refl, List, [], ◌∷◌, some, none, ok, err, ◌>>=◌, any,
  count_where, find_first, arith, is_some,
}
use ai_agent_platform.Identity.{workforce, active}
use ai_agent_platform.Documents.Model.{
  Tables, ContentRow, GrantRow, LockedDocument, MutateInput, DraftInput, RequestContext, Clock,
  reserved, published, document_error, revision_conflict,
}
use ai_agent_platform.Documents.Repository.{
  locked_document, assert_active_workforce_permission, lock_document, update_document,
  lock_route_state, lock_canonical_slug, promote_reserved_to_canonical, publish_document,
  append_audit, inserted_row, set_published, is_document, is_canonical_of, is_canonical_route,
  is_revision,
}
use ai_agent_platform.Documents.Service.{
  admin_docs_delete, Environment, success, body, parse, assert_cas, safe_document_dto,
  authorized_lock, finish, route_for_publication, publish_tx, publish, archive_tx, archive, Outcome,
}
use ai_agent_platform.Documents.Commands.{
  publishing, archiving, mutate, next_state, required_permission,
}
use ai_agent_platform.Documents.Routes.{IsRouteTable, IsPermanent}
use ai_agent_platform.Documents.Guarantees.{
  mutate-stale, mutate-next_state, IsAnswer, mutate-granted, mutate-IsAudited, IsAudited,
}
use ai_agent_platform.Documents.Calls.{
  Call, creating, mutating, run_calls, IsSound, run_calls-IsSound, run_calls-IsPermanent,
}
use ai_agent_platform.Documents.Publishing.{publish-canonical}

abbrev env : Environment
env = record {
  parse_draft = λ d. success d;
  compile_safe_document = λ d. body d.source;
  is_dto = λ d. true;
  is_audit = λ a. true;
}

abbrev context : RequestContext
context = record { ip_address = none; user_agent = some "test" }

abbrev writer : GrantRow
writer = record {
  user_id = 7;
  identity_realm = workforce;
  user_status = active;
  role_name = "editor";
  role_workforce = true;
  permission_key = "admin:docs";
}

abbrev no_documents : Tables
no_documents = record {
  content = [];
  revisions = [];
  routes = [];
  audit = [];
  grants = writer ∷ [];
}

abbrev guide : DraftInput
guide = record {
  slug = "guide";
  title = "Guide";
  summary = "";
  source = "text";
  navigation_label = "Guide";
  navigation_code = "G";
  navigation_position = 1;
}

abbrev first_row : ContentRow
first_row = inserted_row 1 10 7 "guide" "Guide" "" "text"

abbrev one_draft : Tables
one_draft = record {
  content = first_row ∷ [];
  revisions =
      record {
        content_id = 1;
        revision = 1;
        slug = "guide";
        title = "Guide";
        summary = "";
        body = "text";
        created_by = 7;
      }
      ∷ [];
  routes = record { slug = "guide"; content_id = 1; state = reserved } ∷ [];
  audit = [];
  grants = writer ∷ [];
}

abbrev first_input : MutateInput
first_input = record { id = 1; expected_revision = 1; expected_row_version = 1 }

abbrev noon : Clock
noon = record { first = 12; second = 13 }

abbrev published_outcome : Outcome
published_outcome = mutate env (publishing noon) first_input 7 context one_draft

abbrev published_tables : Tables
published_tables = published_outcome.1

abbrev published_document : LockedDocument
published_document = locked_document (set_published noon 1 2 7 first_row)

publishing-succeeds :
    mutate env (publishing noon) first_input 7 context one_draft
    ≡ (ok published_document, published_tables)
unfolding mutate publish publish_tx parse authorized_lock assert_active_workforce_permission
    lock_document assert_cas lock_route_state lock_canonical_slug route_for_publication
    promote_reserved_to_canonical publish_document update_document finish append_audit
    safe_document_dto ◌>>=◌ locked_document
publishing-succeeds = refl

-- The same input again, by a save, an archiving or a publication, is refused.
archiving-stale :
    (mutate env (archiving noon) first_input 7 context published_tables).0
    ≡ err (document_error revision_conflict none)
unfolding mutate publish publish_tx archive archive_tx parse authorized_lock
    assert_active_workforce_permission lock_document assert_cas lock_route_state lock_canonical_slug
    route_for_publication promote_reserved_to_canonical publish_document update_document finish
    append_audit safe_document_dto ◌>>=◌ locked_document
archiving-stale = refl

mutate-stale_example :
    mutate env (archiving noon) first_input 7 context published_tables
    ≢ (ok published_document, one_draft)
mutate-stale_example =
    mutate-stale env env (publishing noon) (archiving noon) first_input first_input 7 7 context
      context one_draft published_tables one_draft published_document published_document
      publishing-succeeds refl refl

mutate-next_state_example :
    (row : ContentRow) × (find_first (is_document 1) one_draft.content ≡ some row)
    × (row.revision ≡ 1)
    × (row.row_version ≡ 1)
    × (stored : ContentRow) × (find_first (is_document 1) published_tables.content ≡ some stored)
    × (stored.row_version ≡ row.row_version + 1)
    × (next_state (publishing noon) row.status (is_some row.deleted_at)
        ≡ some (stored.status, is_some stored.deleted_at))
    × IsAnswer stored published_document
    × ((other : ℕ)
        → (other == 1) ≡ false
        → find_first (is_document other) published_tables.content
          ≡ find_first (is_document other) one_draft.content)
mutate-next_state_example =
    mutate-next_state env (publishing noon) first_input 7 context one_draft published_tables
      published_document publishing-succeeds

mutate-granted_example :
    (g : GrantRow) × Memᴰ g one_draft.grants
    × (g.user_id ≡ 7)
    × (g.identity_realm ≡ workforce)
    × (g.user_status ≡ active)
    × (g.role_workforce ≡ true)
    × (g.permission_key ≡ required_permission (publishing noon))
    × (required_permission (publishing noon) ≡ admin_docs_delete → g.role_name ≡ "super_admin")
mutate-granted_example =
    mutate-granted env (publishing noon) first_input 7 context one_draft published_tables
      published_document publishing-succeeds

mutate-IsAudited_example :
    IsAudited (publishing noon) 7 context one_draft (ok published_document) published_tables
mutate-IsAudited_example =
    mutate-IsAudited env (publishing noon) first_input 7 context one_draft published_tables
      (ok published_document) publishing-succeeds

no_documents-IsSound : IsSound no_documents
no_documents-IsSound = record {
  table = record { one_binding = λ slug. omega arith; one_canonical = λ id. omega arith };
  history = λ id n. refl;
}

abbrev calls : List Call
calls =
    creating 1 10 (success guide) 7 context
    ∷ mutating (publishing noon) first_input 7 context
    ∷ mutating (archiving noon) first_input 7 context
    ∷ []

run_calls-IsSound_example : IsSound (run_calls env calls no_documents)
run_calls-IsSound_example = run_calls-IsSound env calls no_documents no_documents-IsSound

run_calls-IsPermanent_example : IsPermanent one_draft.routes (run_calls env calls one_draft).routes
run_calls-IsPermanent_example = run_calls-IsPermanent env calls one_draft

one_draft-IsRouteTable : IsRouteTable one_draft.routes
one_draft-IsRouteTable = record {
  one_binding = λ slug. ground arith;
  one_canonical = λ id. ground arith;
}

published-by_publish :
    publish env noon (success first_input) 7 context one_draft
    ≡ (ok published_document, published_tables)
unfolding mutate
published-by_publish = publishing-succeeds

publish-canonical_example :
    (published_document.status ≡ published)
    × (published_document.published_revision ≡ some published_document.revision)
    × (any
          (is_revision published_document.id published_document.revision)
          published_tables.revisions
        ≡ true)
    × (count_where (is_canonical_of published_document.id) published_tables.routes ≡ 1)
    × (count_where
          (is_canonical_route published_document.slug published_document.id)
          published_tables.routes
        ≡ 1)
publish-canonical_example =
    publish-canonical env noon first_input 7 context one_draft published_tables published_document
      one_draft-IsRouteTable published-by_publish
