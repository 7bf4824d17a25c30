-- ===== src/Documents/Service.antt =====
-- apps/web/src/server/documents/service.ts: the operations on a document. What a schema makes of
-- the raw input is the argument `parsed`; the compiler of the package document-content, the schemas
-- and the audit writer's validation are the fields of `Environment`.
use text.Mathlib.Text.{starts_with}
use ai_agent_platform.Base.{
  truthy, ℕ, ◌+◌, String, Bool, false, not, ◌&&◌, ◌||◌, Option, none, some, List, [], ◌∷◌, Result,
  ok, err, ◌>>=◌, ◌>>◌, return, throw, throw_if, transaction, ◌==◌, str_eq, if◌then◌else◌, any,
  is_some, option_is,
}
use ai_agent_platform.Documents.Model.{
  RouteState, Tables, AuditEvent, DocumentEvent, document_created, document_draft_saved,
  document_published, document_archived, document_deleted, document_restored, input_invalid,
  source_unsafe, not_found, revision_conflict, not_publishable, state_conflict, Failure,
  document_error, error, DocumentTx, LockedDocument, DraftInput, MutateInput, SaveInput,
  RequestContext, Clock, is_reserved, is_canonical, is_published,
}
use ai_agent_platform.Documents.Repository.{
  assert_active_workforce_permission, lock_document, insert_document, reserve_slug, append_revision,
  save_draft, lock_route_state, lock_canonical_slug, demote_canonical_to_alias,
  promote_reserved_to_canonical, publish_document, archive_document, delete_document,
  restore_document, append_audit,
}

-- The result of `safeParse`; a failure has the path of its first issue.
pub data SafeParse (A : Type 0) : Type 0 where
  success : A → SafeParse A
  failure : String → SafeParse A

-- What the compiler returns or throws.
pub data Compiled : Type 0 where
  body : String → Compiled
  thrown : Failure → Compiled

pub record Environment : Type 0 where
  pub parse_draft : DraftInput → SafeParse DraftInput
  pub compile_safe_document : DraftInput → Compiled
  pub is_dto : LockedDocument → Bool
  pub is_audit : AuditEvent → Bool

-- `parsed.error.issues[0]?.path.join(".") || "input"`.
abbrev issue_field : String → Option String
issue_field path = if str_eq path "" then some "input" else some path

abbrev source_safety_error_prefixes : List String
source_safety_error_prefixes =
    "DOCUMENT_URL_INVALID:" ∷ "DOCUMENT_MARKDOWN_UNSUPPORTED:" ∷ "DOCUMENT_DIRECTIVE_INVALID:"
    ∷ "DOCUMENT_MARKDOWN_LIMIT:" ∷ "DOCUMENT_RENDER_MODEL_INVALID:" ∷ []

unfoldable pub map_compiler_error : Failure → Failure
map_compiler_error (document_error code field) = document_error code field
map_compiler_error (error message) =
    if starts_with message "DOCUMENT_INPUT_INVALID:"
      || starts_with message "DOCUMENT_INPUT_TOO_LARGE:"
    then document_error input_invalid none
    else if any (starts_with message) source_safety_error_prefixes
    then document_error source_unsafe none
    else error message
map_compiler_error other = other

abbrev pub Draft : Type 0
Draft = DraftInput × String

abbrev compiled_draft : DraftInput → Compiled → Result Failure Draft
compiled_draft draft (body text) = ok (draft, text)
compiled_draft draft (thrown e) = err (map_compiler_error e)

unfoldable pub compile_draft : Environment → SafeParse DraftInput → Result Failure Draft
unfolding map_compiler_error
compile_draft env (failure path) = err (document_error input_invalid (issue_field path))
compile_draft env (success draft) = compiled_draft draft (env.compile_safe_document draft)

-- `parseMutation` and `parseSave`.
unfoldable pub parse : {A : Type 0} → SafeParse A → Result Failure A
parse (failure path) = err (document_error input_invalid (issue_field path))
parse (success input) = ok input

unfoldable pub assert_cas : LockedDocument → MutateInput → DocumentTx (Unit {0})
assert_cas document input =
    throw_if
      (not (document.revision == input.expected_revision)
        || not (document.row_version == input.expected_row_version))
      (document_error revision_conflict none)

unfoldable pub document_audit : DocumentEvent → ℕ → LockedDocument → RequestContext → AuditEvent
document_audit event actor document context = record {
  event = event;
  actor_user_id = actor;
  target_id = document.id;
  slug = document.slug;
  revision = document.revision;
  ip_address = truthy context.ip_address;
  user_agent = truthy context.user_agent;
}

unfoldable pub safe_document_dto : Environment → LockedDocument → DocumentTx LockedDocument
safe_document_dto env document t =
    if env.is_dto document then ok (document, t) else err (error "Document DTO invariant violated")

abbrev pub found : Option LockedDocument → DocumentTx LockedDocument
found none = throw (document_error not_found none)
found (some document) = return document

abbrev pub admin_docs : String
admin_docs = "admin:docs"

abbrev pub admin_docs_delete : String
admin_docs_delete = "admin:docs:delete"

unfoldable pub authorized_lock : ℕ → MutateInput → String → DocumentTx LockedDocument
authorized_lock actor input permission = do
  assert_active_workforce_permission actor permission (str_eq permission admin_docs_delete)
  locked ← lock_document input.id
  document ← found locked
  assert_cas document input
  return document

-- The end of every operation: the audit event, then the checked result.
unfoldable pub finish :
    Environment → DocumentEvent → ℕ → RequestContext → LockedDocument → DocumentTx LockedDocument
finish env event actor context document = do
  append_audit env.is_audit (document_audit event actor document context)
  safe_document_dto env document

abbrev pub Outcome : Type 0
Outcome = Result Failure LockedDocument × Tables

-- Input that does not parse is refused before the transaction begins.
abbrev pub with_input :
    {A : Type 0} → Result Failure A → (A → DocumentTx LockedDocument) → Tables → Outcome
with_input (err e) work t = (err e, t)
with_input (ok a) work t = transaction (work a) t

unfoldable pub create_tx :
    Environment → ℕ → ℕ → ℕ → RequestContext → Draft → DocumentTx LockedDocument
create_tx env fresh now actor context (d, text) = do
  assert_active_workforce_permission actor admin_docs false
  created ← insert_document fresh now actor d.slug d.title d.summary text
  reserve_slug d.slug created.id
  append_revision created.id created.revision d.slug d.title d.summary text actor
  finish env document_created actor context created

unfoldable pub create :
    Environment → ℕ → ℕ → SafeParse DraftInput → ℕ → RequestContext → Tables → Outcome
unfolding create_tx compile_draft
create env fresh now parsed actor context =
    with_input (compile_draft env parsed) (create_tx env fresh now actor context)

unfoldable pub save_tx :
    Environment → ℕ → ℕ → RequestContext → MutateInput → Draft → DocumentTx LockedDocument
save_tx env now actor context input (d, text) = do
  current ← authorized_lock actor input admin_docs
  throw_if (is_some current.deleted_at) (document_error state_conflict none)
  (if str_eq d.slug current.slug then return tt else reserve_slug d.slug current.id)
  let revision = current.revision + 1
  updated ←
      save_draft now current.id d.slug d.title d.summary text revision (current.row_version + 1)
  append_revision current.id revision d.slug d.title d.summary text actor
  finish env document_draft_saved actor context updated

abbrev save_compiled :
    Environment → ℕ → ℕ → RequestContext → Result Failure SaveInput → Tables → Outcome
save_compiled env now actor context (err e) t = (err e, t)
save_compiled env now actor context (ok input) t =
    with_input (compile_draft env (env.parse_draft input.draft))
      (save_tx env now actor context input.mutation) t

unfoldable pub save : Environment → ℕ → SafeParse SaveInput → ℕ → RequestContext → Tables → Outcome
unfolding parse save_tx compile_draft
save env now parsed actor context = save_compiled env now actor context (parse parsed)

-- `target_route_state !== "reserved"` and `!== "canonical"`.
abbrev pub is_route_state : (RouteState → Bool) → Option RouteState → Bool
is_route_state test none = false
is_route_state test (some s) = test s

-- `if (canonicalSlug)`: no canonical route, and the empty slug, demote nothing.
abbrev pub demote_old : Option String → ℕ → DocumentTx (Unit {0})
demote_old none id = return tt
demote_old (some slug) id = if str_eq slug "" then return tt else demote_canonical_to_alias slug id

abbrev pub is_slug : Option String → String → Bool
is_slug none slug = false
is_slug (some s) slug = str_eq s slug

-- The part of `publish` that moves the routes of the document.
unfoldable pub route_for_publication :
    String → ℕ → Option RouteState → Option String → DocumentTx (Unit {0})
route_for_publication slug id target canonical_slug =
    if is_slug canonical_slug slug
    then throw_if (not (is_route_state is_canonical target)) (document_error not_publishable none)
    else do
      throw_if (not (is_route_state is_reserved target)) (document_error not_publishable none)
      demote_old canonical_slug id
      promote_reserved_to_canonical slug id

unfoldable pub publish_tx :
    Environment → Clock → ℕ → RequestContext → MutateInput → DocumentTx LockedDocument
unfolding route_for_publication
publish_tx env clock actor context input = do
  current ← authorized_lock actor input admin_docs
  throw_if (is_some current.deleted_at) (document_error not_publishable none)
  throw_if (is_published current.status && option_is current.published_revision current.revision)
      (document_error state_conflict none)
  target ← lock_route_state current.slug current.id
  canonical_slug ← lock_canonical_slug current.id
  route_for_publication current.slug current.id target canonical_slug
  updated ← publish_document clock current.id current.revision (current.row_version + 1) actor
  finish env document_published actor context updated

unfoldable pub publish :
    Environment → Clock → SafeParse MutateInput → ℕ → RequestContext → Tables → Outcome
unfolding parse publish_tx
publish env clock parsed actor context =
    with_input (parse parsed) (publish_tx env clock actor context)

unfoldable pub archive_tx :
    Environment → Clock → ℕ → RequestContext → MutateInput → DocumentTx LockedDocument
archive_tx env clock actor context input = do
  current ← authorized_lock actor input admin_docs
  throw_if (is_some current.deleted_at || not (is_published current.status))
      (document_error state_conflict none)
  updated ← archive_document clock current.id (current.row_version + 1) actor
  finish env document_archived actor context updated

unfoldable pub archive :
    Environment → Clock → SafeParse MutateInput → ℕ → RequestContext → Tables → Outcome
unfolding parse archive_tx
archive env clock parsed actor context =
    with_input (parse parsed) (archive_tx env clock actor context)

unfoldable pub delete_tx :
    Environment → ℕ → ℕ → RequestContext → MutateInput → DocumentTx LockedDocument
delete_tx env now actor context input = do
  current ← authorized_lock actor input admin_docs_delete
  throw_if (is_some current.deleted_at) (document_error state_conflict none)
  updated ← delete_document now current.id (current.row_version + 1) actor
  finish env document_deleted actor context updated

unfoldable pub delete :
    Environment → ℕ → SafeParse MutateInput → ℕ → RequestContext → Tables → Outcome
unfolding parse delete_tx
delete env now parsed actor context = with_input (parse parsed) (delete_tx env now actor context)

unfoldable pub restore_tx :
    Environment → ℕ → ℕ → RequestContext → MutateInput → DocumentTx LockedDocument
restore_tx env now actor context input = do
  current ← authorized_lock actor input admin_docs_delete
  throw_if (not (is_some current.deleted_at)) (document_error state_conflict none)
  updated ← restore_document now current.id (current.row_version + 1)
  finish env document_restored actor context updated

unfoldable pub restore :
    Environment → ℕ → SafeParse MutateInput → ℕ → RequestContext → Tables → Outcome
unfolding parse restore_tx
restore env now parsed actor context = with_input (parse parsed) (restore_tx env now actor context)
