-- ===== src/Documents/Repository.antt =====
-- apps/web/src/server/documents/repository.ts: the statements of a document transaction, with the
-- unique constraints and the foreign key that PostgreSQL checks on them.
use ai_agent_platform.Base.{
  ℕ, String, Bool, not, ◌&&◌, ◌||◌, Option, none, some, [], ◌∷◌, ◌++◌, ok, err, throw_if, ◌==◌,
  str_eq, if◌then◌else◌, find_first, any, count_where, update_where,
}
use ai_agent_platform.Identity.{is_workforce, is_active}
use ai_agent_platform.Documents.Model.{
  draft, published, archived, RouteState, reserved, canonical, alias, ContentRow, RevisionRow,
  RouteRow, GrantRow, AuditEvent, not_found, slug_conflict, not_publishable, permission_denied,
  document_error, constraint_violation, DocumentTx, LockedDocument, Clock, is_reserved,
  is_canonical,
}

abbrev or_empty : Option String → String
or_empty none = ""
or_empty (some s) = s

unfoldable pub locked_document : ContentRow → LockedDocument
locked_document row = record {
  id = row.id;
  slug = row.slug;
  title = row.title;
  summary = or_empty row.summary;
  body = row.body;
  status = row.status;
  revision = row.revision;
  row_version = row.row_version;
  published_revision = row.published_revision;
  published_at = row.published_at;
  archived_at = row.archived_at;
  deleted_at = row.deleted_at;
  updated_at = row.updated_at;
}

-- The `WHERE` clause of `assertActiveWorkforcePermission`.
abbrev pub grant_matches : ℕ → String → Bool → GrantRow → Bool
grant_matches user_id permission require_super_admin g =
    g.user_id == user_id
    && g.role_workforce
    && is_workforce g.identity_realm
    && is_active g.user_status
    && str_eq g.permission_key permission
    && (not require_super_admin || str_eq g.role_name "super_admin")

unfoldable pub assert_active_workforce_permission : ℕ → String → Bool → DocumentTx (Unit {0})
assert_active_workforce_permission user_id permission require_super_admin t =
    throw_if (not (any (grant_matches user_id permission require_super_admin) t.grants))
      (document_error permission_denied none) t

-- `and(eq(content.id, id), eq(content.type, "document"))`.
abbrev pub is_document : ℕ → ContentRow → Bool
is_document id row = row.id == id && str_eq row.kind "document"

unfoldable pub lock_document : ℕ → DocumentTx (Option LockedDocument)
unfolding locked_document
lock_document id t = elim (find_first (is_document id) t.content) [
  | none ↦ ok (none, t)
  | some row ↦ ok (some (locked_document row), t)
]

-- The values that `insertDocument` gives; `default gen_random_uuid()` gives `fresh`.
abbrev pub inserted_row : ℕ → ℕ → ℕ → String → String → String → String → ContentRow
inserted_row fresh now actor slug title summary body = record {
  id = fresh;
  kind = "document";
  slug = slug;
  title = title;
  summary = some summary;
  body = body;
  status = draft;
  revision = 1;
  row_version = 1;
  published_revision = none;
  author_id = some actor;
  published_at = none;
  published_by = none;
  archived_at = none;
  archived_by = none;
  deleted_at = none;
  deleted_by = none;
  updated_at = now;
}

unfoldable pub insert_document :
    ℕ → ℕ → ℕ → String → String → String → String → DocumentTx LockedDocument
unfolding locked_document
insert_document fresh now actor slug title summary body t =
    let row = inserted_row fresh now actor slug title summary body in
    if any (λ r. r.id == fresh) t.content
    then err constraint_violation
    else if any (λ r. str_eq r.slug slug) t.content
    then err (document_error slug_conflict none)
    else ok (locked_document row, record t { content = t.content ++ row ∷ [] })

-- A slug is bound once: `slug` is the primary key of `content_routes`.
unfoldable pub reserve_slug : String → ℕ → DocumentTx (Unit {0})
reserve_slug slug document_id t = elim (find_first (λ r. str_eq r.slug slug) t.routes) [
  | some route ↦
      if route.content_id == document_id && (is_reserved route.state || is_canonical route.state)
      then ok (tt, t)
      else err (document_error slug_conflict none)
  | none ↦ ok (
    tt,
    record t {
      routes = t.routes ++ record { slug = slug; content_id = document_id; state = reserved } ∷ [];
    },
  )
]

-- `content_revisions_content_id_revision_unique`.
abbrev pub is_revision : ℕ → ℕ → RevisionRow → Bool
is_revision document_id revision r = r.content_id == document_id && r.revision == revision

unfoldable pub append_revision :
    ℕ → ℕ → String → String → String → String → ℕ → DocumentTx (Unit {0})
append_revision document_id revision slug title summary body actor t =
    if any (is_revision document_id revision) t.revisions
    then err constraint_violation
    else ok (
      tt,
      record t {
        revisions =
            t.revisions
            ++ record {
              content_id = document_id;
              revision = revision;
              slug = slug;
              title = title;
              summary = summary;
              body = body;
              created_by = actor;
            }
              ∷ [];
      },
    )

-- `UPDATE content SET … WHERE id AND type = 'document' RETURNING *`.
unfoldable pub update_document : ℕ → (ContentRow → ContentRow) → DocumentTx LockedDocument
unfolding locked_document
update_document id set t = elim (find_first (is_document id) t.content) [
  | none ↦ err (document_error not_found none)
  | some row ↦ ok (
    locked_document (set row),
    record t { content = update_where (is_document id) set t.content },
  )
]

abbrev pub set_draft : ℕ → String → String → String → String → ℕ → ℕ → ContentRow → ContentRow
set_draft now slug title summary body revision row_version row = record row {
  slug = slug;
  title = title;
  summary = some summary;
  body = body;
  revision = revision;
  row_version = row_version;
  updated_at = now;
}

-- Another row with the slug violates `content_slug_unique`.
unfoldable pub save_draft :
    ℕ → ℕ → String → String → String → String → ℕ → ℕ → DocumentTx LockedDocument
unfolding update_document
save_draft now document_id slug title summary body revision row_version t =
    if any (λ r. not (r.id == document_id) && str_eq r.slug slug) t.content
    then err (document_error slug_conflict none)
    else update_document document_id (set_draft now slug title summary body revision row_version) t

abbrev pub is_route : String → ℕ → RouteRow → Bool
is_route slug document_id r = str_eq r.slug slug && r.content_id == document_id

unfoldable pub lock_route_state : String → ℕ → DocumentTx (Option RouteState)
lock_route_state slug document_id t = elim (find_first (is_route slug document_id) t.routes) [
  | none ↦ ok (none, t)
  | some r ↦ ok (some r.state, t)
]

abbrev pub is_canonical_of : ℕ → RouteRow → Bool
is_canonical_of document_id r = r.content_id == document_id && is_canonical r.state

unfoldable pub lock_canonical_slug : ℕ → DocumentTx (Option String)
lock_canonical_slug document_id t = elim (find_first (is_canonical_of document_id) t.routes) [
  | none ↦ ok (none, t)
  | some r ↦ ok (some r.slug, t)
]

abbrev pub set_state : RouteState → RouteRow → RouteRow
set_state state r = record r { state = state }

abbrev pub is_canonical_route : String → ℕ → RouteRow → Bool
is_canonical_route slug document_id r = is_route slug document_id r && is_canonical r.state

abbrev pub is_reserved_route : String → ℕ → RouteRow → Bool
is_reserved_route slug document_id r = is_route slug document_id r && is_reserved r.state

unfoldable pub demote_canonical_to_alias : String → ℕ → DocumentTx (Unit {0})
demote_canonical_to_alias slug document_id t =
    let matched = is_canonical_route slug document_id in
    if count_where matched t.routes == 1
    then ok (tt, record t { routes = update_where matched (set_state alias) t.routes })
    else err (document_error not_publishable none)

-- A second canonical route of the document violates
-- `content_routes_one_canonical_per_content_unique`.
unfoldable pub promote_reserved_to_canonical : String → ℕ → DocumentTx (Unit {0})
promote_reserved_to_canonical slug document_id t =
    let matched = is_reserved_route slug document_id in
    if any (is_canonical_of document_id) t.routes && any matched t.routes
    then err constraint_violation
    else if count_where matched t.routes == 1
    then ok (tt, record t { routes = update_where matched (set_state canonical) t.routes })
    else err (document_error not_publishable none)

abbrev pub set_published : Clock → ℕ → ℕ → ℕ → ContentRow → ContentRow
set_published clock revision row_version actor row = record row {
  status = published;
  published_revision = some revision;
  published_at = some clock.first;
  published_by = some actor;
  archived_at = none;
  archived_by = none;
  row_version = row_version;
  updated_at = clock.second;
}

-- `content_published_revision_fk` wants the published revision to be recorded.
unfoldable pub publish_document : Clock → ℕ → ℕ → ℕ → ℕ → DocumentTx LockedDocument
unfolding update_document
publish_document clock document_id revision row_version actor t =
    if any (is_document document_id) t.content
      && not (any (is_revision document_id revision) t.revisions)
    then err constraint_violation
    else update_document document_id (set_published clock revision row_version actor) t

abbrev pub set_archived : Clock → ℕ → ℕ → ContentRow → ContentRow
set_archived clock row_version actor row = record row {
  status = archived;
  archived_at = some clock.first;
  archived_by = some actor;
  row_version = row_version;
  updated_at = clock.second;
}

unfoldable pub archive_document : Clock → ℕ → ℕ → ℕ → DocumentTx LockedDocument
unfolding update_document
archive_document clock document_id row_version actor =
    update_document document_id (set_archived clock row_version actor)

abbrev pub set_deleted : ℕ → ℕ → ℕ → ContentRow → ContentRow
set_deleted now row_version actor row = record row {
  status = archived;
  archived_at = some now;
  archived_by = some actor;
  deleted_at = some now;
  deleted_by = some actor;
  row_version = row_version;
  updated_at = now;
}

unfoldable pub delete_document : ℕ → ℕ → ℕ → ℕ → DocumentTx LockedDocument
unfolding update_document
delete_document now document_id row_version actor =
    update_document document_id (set_deleted now row_version actor)

abbrev pub set_restored : ℕ → ℕ → ContentRow → ContentRow
set_restored now row_version row = record row {
  status = archived;
  deleted_at = none;
  deleted_by = none;
  row_version = row_version;
  updated_at = now;
}

unfoldable pub restore_document : ℕ → ℕ → ℕ → DocumentTx LockedDocument
unfolding update_document
restore_document now document_id row_version =
    update_document document_id (set_restored now row_version)

-- The audit writer validates the event, by `accepted`, and inserts it.
unfoldable pub append_audit : (AuditEvent → Bool) → AuditEvent → DocumentTx (Unit {0})
append_audit accepted event t =
    if accepted event
    then ok (tt, record t { audit = t.audit ++ event ∷ [] })
    else err constraint_violation
