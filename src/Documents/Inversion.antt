-- ===== src/Documents/Inversion.antt =====
-- What each operation of the service has checked and written when it succeeds.
use ai_agent_platform.Base.{
  ℕ, ◌+◌, ◌≡◌, refl, true, false, Option, none, some, List, ◌∷◌, [], ◌++◌, ok, is_some, find_first,
  update_where, ◌>>=◌, ||-eq-false, not-eq-false, arith,
}
use ai_agent_platform.Documents.Model.{
  ContentRow, RevisionRow, RouteRow, Tables, DocumentEvent, document_archived, document_deleted,
  document_restored, LockedDocument, MutateInput, RequestContext, Clock, Status, published,
  is_published,
}
use ai_agent_platform.Documents.Repository.{
  locked_document, is_document, update_document, set_archived, archive_document, set_deleted,
  delete_document, set_restored, restore_document,
}
use ai_agent_platform.Documents.Service.{
  Environment, document_audit, admin_docs, admin_docs_delete, archive_tx, delete_tx, restore_tx,
  finish,
}
use ai_agent_platform.Documents.Steps.{
  IsAuthorized, IsAuthorized-stored, authorized_lock-then, throw_if-then, update_document-then,
  finish-eq-ok,
}

-- The operation has updated `row` by `set`, has left these revisions and routes, has appended one
-- audit event and has changed nothing else.
pub record IsWritten (set : ContentRow → ContentRow) (row : ContentRow)
    (revisions : List RevisionRow) (routes : List RouteRow) (event : DocumentEvent) (actor : ℕ)
    (context : RequestContext) (t : Tables) (d : LockedDocument) (u : Tables) : Type 0 where
  pub result : d ≡ locked_document (set row)
  pub tables : u ≡ record t {
    content = update_where (is_document row.id) set t.content;
    revisions = revisions;
    routes = routes;
    audit = t.audit ++ document_audit event actor (locked_document (set row)) context ∷ [];
  }

pub is_some-eq-false {ℓ} : {A : Type ℓ} (o : Option A) → is_some o ≡ false → o ≡ none
is_some-eq-false none h = refl
is_some-eq-false (some x) h = cc

is_some-eq-true {ℓ} : {A : Type ℓ} (o : Option A) → is_some o ≡ true → (a : A) × (o ≡ some a)
is_some-eq-true none h = cc
is_some-eq-true (some x) h = (x, refl)

is_published-eq-true : (s : Status) → is_published s ≡ true → s ≡ published
is_published-eq-true s h = ground arith

pub update-finish-IsWritten :
    (env : Environment) (set : ContentRow → ContentRow) (event : DocumentEvent) (actor : ℕ)
    (context : RequestContext) (t : Tables) (row : ContentRow) {d : LockedDocument} {u : Tables}
    → find_first (is_document row.id) t.content ≡ some row
    → (update_document row.id set >>= λ d. finish env event actor context d) t ≡ ok (d, u)
    → IsWritten set row t.revisions t.routes event actor context t d u
update-finish-IsWritten env set event actor context t row s h =
    let h' = update_document-then (λ d. finish env event actor context d) row.id set t row s h in
    let (e, f) = finish-eq-ok env event actor context _ _ h' in record { result = e; tables = f }

pub archive_tx-eq-ok :
    (env : Environment) (clock : Clock) (actor : ℕ) (context : RequestContext) (input : MutateInput)
    (t : Tables) {d : LockedDocument} {u : Tables}
    → archive_tx env clock actor context input t ≡ ok (d, u)
    → (row : ContentRow) × IsAuthorized actor input admin_docs t row
      × (row.deleted_at ≡ none)
      × (row.status ≡ published)
      × IsWritten
          (set_archived clock (row.row_version + 1) actor)
          row
          t.revisions
          t.routes
          document_archived
          actor
          context
          t
          d
          u
unfolding archive_tx archive_document locked_document
archive_tx-eq-ok env clock actor context input t h =
    let (row, a, h₁) = authorized_lock-then _ actor input admin_docs t h in
    let (checked, h₂) = throw_if-then _ _ _ t h₁ in
    let (kept, shown) = ||-eq-false _ _ checked in
    (
      row,
      a,
      is_some-eq-false _ kept,
      is_published-eq-true _ (not-eq-false _ shown),
      update-finish-IsWritten env _ _ actor context t row (IsAuthorized-stored a) h₂,
    )

pub delete_tx-eq-ok :
    (env : Environment) (now actor : ℕ) (context : RequestContext) (input : MutateInput)
    (t : Tables) {d : LockedDocument} {u : Tables}
    → delete_tx env now actor context input t ≡ ok (d, u)
    → (row : ContentRow) × IsAuthorized actor input admin_docs_delete t row
      × (row.deleted_at ≡ none)
      × IsWritten
          (set_deleted now (row.row_version + 1) actor)
          row
          t.revisions
          t.routes
          document_deleted
          actor
          context
          t
          d
          u
unfolding delete_tx delete_document locked_document
delete_tx-eq-ok env now actor context input t h =
    let (row, a, h₁) = authorized_lock-then _ actor input admin_docs_delete t h in
    let (kept, h₂) = throw_if-then _ _ _ t h₁ in
    (
      row,
      a,
      is_some-eq-false _ kept,
      update-finish-IsWritten env _ _ actor context t row (IsAuthorized-stored a) h₂,
    )

pub restore_tx-eq-ok :
    (env : Environment) (now actor : ℕ) (context : RequestContext) (input : MutateInput)
    (t : Tables) {d : LockedDocument} {u : Tables}
    → restore_tx env now actor context input t ≡ ok (d, u)
    → (row : ContentRow) × IsAuthorized actor input admin_docs_delete t row
      × (is_some row.deleted_at ≡ true)
      × IsWritten
          (set_restored now (row.row_version + 1))
          row
          t.revisions
          t.routes
          document_restored
          actor
          context
          t
          d
          u
unfolding restore_tx restore_document locked_document
restore_tx-eq-ok env now actor context input t h =
    let (row, a, h₁) = authorized_lock-then _ actor input admin_docs_delete t h in
    let (gone, h₂) = throw_if-then _ _ _ t h₁ in
    (
      row,
      a,
      not-eq-false _ gone,
      update-finish-IsWritten env _ _ actor context t row (IsAuthorized-stored a) h₂,
    )
