-- ===== src/Documents/Model.antt =====
-- The tables of packages/database/src/schema/content.ts, and the data of
-- apps/web/src/server/documents/service.ts and contracts.ts. A uuid is an opaque number, a
-- timestamp a number of milliseconds, a compiled body its stored text.
use ai_agent_platform.Base.{ℕ, String, Bool, true, false, Option, List, Tx}
use ai_agent_platform.Identity.{Realm, UserStatus}

pub data Status : Type 0 where
  draft published archived : Status

pub data RouteState : Type 0 where
  reserved canonical alias : RouteState

-- A row of `content`. `kind` is the column `type`.
pub record ContentRow : Type 0 where
  pub id : ℕ
  pub kind : String
  pub slug : String
  pub title : String
  pub summary : Option String
  pub body : String
  pub status : Status
  pub revision : ℕ
  pub row_version : ℕ
  pub published_revision : Option ℕ
  pub author_id : Option ℕ
  pub published_at : Option ℕ
  pub published_by : Option ℕ
  pub archived_at : Option ℕ
  pub archived_by : Option ℕ
  pub deleted_at : Option ℕ
  pub deleted_by : Option ℕ
  pub updated_at : ℕ

-- A row of `content_revisions`.
pub record RevisionRow : Type 0 where
  pub content_id : ℕ
  pub revision : ℕ
  pub slug : String
  pub title : String
  pub summary : String
  pub body : String
  pub created_by : ℕ

-- A row of `content_routes`.
pub record RouteRow : Type 0 where
  pub slug : String
  pub content_id : ℕ
  pub state : RouteState

-- A row of the join of users, user_roles, roles, role_permissions and permissions.
pub record GrantRow : Type 0 where
  pub user_id : ℕ
  pub identity_realm : Realm
  pub user_status : UserStatus
  pub role_name : String
  pub role_workforce : Bool
  pub permission_key : String

pub data DocumentEvent : Type 0 where
  document_created document_draft_saved document_published : DocumentEvent
  document_archived document_deleted document_restored : DocumentEvent

pub record AuditEvent : Type 0 where
  pub event : DocumentEvent
  pub actor_user_id : ℕ
  pub target_id : ℕ
  pub slug : String
  pub revision : ℕ
  pub ip_address : Option String
  pub user_agent : Option String

-- The tables that a document transaction reads and writes.
pub record Tables : Type 0 where
  pub content : List ContentRow
  pub revisions : List RevisionRow
  pub routes : List RouteRow
  pub audit : List AuditEvent
  pub grants : List GrantRow

pub data DocumentErrorCode : Type 0 where
  input_invalid source_unsafe not_found slug_conflict revision_conflict : DocumentErrorCode
  not_publishable state_conflict permission_denied : DocumentErrorCode

-- What an operation throws: a `DocumentError` with its field, another error with its message, or
-- a violated constraint that the repository does not translate.
pub data Failure : Type 0 where
  document_error : DocumentErrorCode → Option String → Failure
  error : String → Failure
  constraint_violation : Failure

abbrev pub DocumentTx : Type 0 → Type 0
DocumentTx A = Tx Tables Failure A

-- `LockedDocument`: what the service sees of a row.
pub record LockedDocument : Type 0 where
  pub id : ℕ
  pub slug : String
  pub title : String
  pub summary : String
  pub body : String
  pub status : Status
  pub revision : ℕ
  pub row_version : ℕ
  pub published_revision : Option ℕ
  pub published_at : Option ℕ
  pub archived_at : Option ℕ
  pub deleted_at : Option ℕ
  pub updated_at : ℕ

-- The draft fields of `CreateDocumentInput`.
pub record DraftInput : Type 0 where
  pub slug : String
  pub title : String
  pub summary : String
  pub source : String
  pub navigation_label : String
  pub navigation_code : String
  pub navigation_position : ℕ

pub record MutateInput : Type 0 where
  pub id : ℕ
  pub expected_revision : ℕ
  pub expected_row_version : ℕ

pub record SaveInput : Type 0 where
  pub mutation : MutateInput
  pub draft : DraftInput

pub record RequestContext : Type 0 where
  pub ip_address : Option String
  pub user_agent : Option String

-- The readings of the clock, `new Date()`, in the order in which a statement makes them.
pub record Clock : Type 0 where
  pub first : ℕ
  pub second : ℕ

abbrev pub is_reserved : RouteState → Bool
is_reserved reserved = true
is_reserved _ = false

abbrev pub is_canonical : RouteState → Bool
is_canonical canonical = true
is_canonical _ = false

abbrev pub is_published : Status → Bool
is_published published = true
is_published _ = false
