-- ===== src/Documents/Commands.antt =====
-- The operations on a stored document as one type of commands, and what all of them do alike.
use ai_agent_platform.Documents.Routes.Table.{
  ReservedRoutes-IsRouteTable, PublishedRoutes-IsRouteTable,
}
use ai_agent_platform.Documents.Publication.{publish_tx-eq-ok}
use ai_agent_platform.Documents.Drafts.{IsSlugHeld, revision_row, save_tx-eq-ok}
use ai_agent_platform.Base.{
  Bool, true, false, Option, some, none, is_some, arith, refl, inl, transaction-eq-ok, inr, ok, ℕ,
  ◌+◌, ◌≡◌, ◌⊎◌, ap, String, List, ◌∷◌, [], ◌++◌, Result, err, update_where,
}
use ai_agent_platform.Documents.Model.{
  Status, published, archived, DocumentTx, Failure, ContentRow, RevisionRow, RouteRow, Tables,
  DocumentEvent, LockedDocument, DraftInput, MutateInput, RequestContext, Clock,
  document_draft_saved, document_published, document_archived, document_deleted, document_restored,
}
use ai_agent_platform.Documents.Repository.{locked_document, is_document}
use ai_agent_platform.Documents.Service.{
  restore_tx, delete_tx, archive_tx, publish_tx, save_tx, compile_draft, with_input, Environment,
  success, Outcome, save, publish, archive, delete, restore, document_audit, admin_docs,
  admin_docs_delete,
}
use ai_agent_platform.Documents.Steps.{IsAuthorized}
use ai_agent_platform.Documents.Routes.{
  ReservedRoutes-IsPermanent, IsPermanent-refl, PublishedRoutes-IsPermanent, IsRouteTable,
  IsPermanent,
}
use ai_agent_platform.Documents.Inversion.{
  restore_tx-eq-ok, delete_tx-eq-ok, archive_tx-eq-ok, IsWritten,
}

-- A mutation without its input's document and versions; a number is a reading of the clock.
pub data Mutation : Type 0 where
  saving : ℕ → DraftInput → Mutation
  publishing archiving : Clock → Mutation
  deleting restoring : ℕ → Mutation

unfoldable pub mutate : Environment → Mutation → MutateInput → ℕ → RequestContext → Tables → Outcome
mutate env (saving now d) input actor context =
    save env now (success (record { mutation = input; draft = d })) actor context
mutate env (publishing clock) input actor context = publish env clock (success input) actor context
mutate env (archiving clock) input actor context = archive env clock (success input) actor context
mutate env (deleting now) input actor context = delete env now (success input) actor context
mutate env (restoring now) input actor context = restore env now (success input) actor context

abbrev pub required_permission : Mutation → String
required_permission (saving _ _) = admin_docs
required_permission (publishing _) = admin_docs
required_permission (archiving _) = admin_docs
required_permission (deleting _) = admin_docs_delete
required_permission (restoring _) = admin_docs_delete

abbrev pub event_of : Mutation → DocumentEvent
event_of (saving _ _) = document_draft_saved
event_of (publishing _) = document_published
event_of (archiving _) = document_archived
event_of (deleting _) = document_deleted
event_of (restoring _) = document_restored

-- Nothing is added to the history, or the one revision that follows the row's.
abbrev pub IsHistoryStep : ContentRow → ContentRow → List RevisionRow → List RevisionRow → Type 0
IsHistoryStep row row' old new =
    ((new ≡ old) × (row'.revision ≡ row.revision))
    ⊎ ((r : RevisionRow) × (new ≡ old ++ r ∷ [])
        × (r.content_id ≡ row.id)
        × (r.revision ≡ row.revision + 1)
        × (row'.revision ≡ row.revision + 1))

-- The life of a document: its status and whether it is deleted, before and after a mutation. A
-- mutation that the table does not have is refused.
abbrev pub next_state : Mutation → Status → Bool → Option (Status × Bool)
next_state (saving _ _) status false = some (status, false)
next_state (publishing _) status false = some (published, false)
next_state (archiving _) published false = some (archived, false)
next_state (deleting _) status false = some (archived, true)
next_state (restoring _) status true = some (archived, false)
next_state _ _ _ = none

-- What a successful mutation has done.
pub record IsMutated (m : Mutation) (input : MutateInput) (actor : ℕ) (context : RequestContext)
    (t : Tables) (d : LockedDocument) (u : Tables) : Type 0 where
  pub row : ContentRow
  pub authorized : IsAuthorized actor input (required_permission m) t row
  pub set : ContentRow → ContentRow
  pub keeps_id : (k : ContentRow) → (set k).id ≡ k.id
  pub keeps_kind : (k : ContentRow) → (set k).kind ≡ k.kind
  pub next_version : (set row).row_version ≡ row.row_version + 1
  pub lifecycle :
      next_state m row.status (is_some row.deleted_at)
      ≡ some ((set row).status, is_some (set row).deleted_at)
  pub result : d ≡ locked_document (set row)
  pub content : u.content ≡ update_where (is_document row.id) set t.content
  pub history : IsHistoryStep row (set row) t.revisions u.revisions
  pub permanent : IsPermanent t.routes u.routes
  pub table : IsRouteTable t.routes → IsRouteTable u.routes
  pub audit : u.audit ≡ t.audit ++ document_audit (event_of m) actor d context ∷ []
  pub grants : u.grants ≡ t.grants

module _ (m : Mutation) (input : MutateInput) (actor : ℕ) (context : RequestContext) (t u : Tables)
    (d : LockedDocument) where
  IsWritten-IsMutated :
      (set : ContentRow → ContentRow) (row : ContentRow) (revisions : List RevisionRow)
      (routes : List RouteRow)
      → IsAuthorized actor input (required_permission m) t row
      → ((k : ContentRow) → ((set k).id ≡ k.id) × ((set k).kind ≡ k.kind))
      → (set row).row_version ≡ row.row_version + 1
      → next_state m row.status (is_some row.deleted_at)
        ≡ some ((set row).status, is_some (set row).deleted_at)
      → IsHistoryStep row (set row) t.revisions revisions
      → IsPermanent t.routes routes
      → (IsRouteTable t.routes → IsRouteTable routes)
      → IsWritten set row revisions routes (event_of m) actor context t d u
      → IsMutated m input actor context t d u
  IsWritten-IsMutated set row revisions routes a keeps next life history permanent table w =
      record {
        row = row;
        authorized = a;
        set = set;
        keeps_id = λ k. (keeps k).0;
        keeps_kind = λ k. (keeps k).1;
        next_version = next;
        lifecycle = life;
        result = w.result;
        content = ap (λ (s : Tables). s.content) w.tables;
        history = rw (ap (λ (s : Tables). s.revisions) w.tables) history;
        permanent = rw (ap (λ (s : Tables). s.routes) w.tables) permanent;
        table = λ ok. rw (ap (λ (s : Tables). s.routes) w.tables) (table ok);
        audit = rw w.result (ap (λ (s : Tables). s.audit) w.tables);
        grants = ap (λ (s : Tables). s.grants) w.tables;
      }

pub with_input-eq-ok :
    {A : Type 0} (r : Result Failure A) (work : A → DocumentTx LockedDocument) (t : Tables)
    {d : LockedDocument} {u : Tables}
    → with_input r work t ≡ (ok d, u)
    → (a : A) × (r ≡ ok a) × (work a t ≡ ok (d, u))
with_input-eq-ok (err e) work t h = cc
with_input-eq-ok (ok a) work t h = (a, refl, transaction-eq-ok (work a) t h)

IsSlugHeld-IsPermanent :
    (slug : String) (row : ContentRow) (routes routes' : List RouteRow)
    → IsSlugHeld slug row routes routes'
    → IsPermanent routes routes'
IsSlugHeld-IsPermanent slug row routes routes' (inl (_, e)) = rw e (IsPermanent-refl routes)
IsSlugHeld-IsPermanent slug row routes routes' (inr r) = ReservedRoutes-IsPermanent r

IsSlugHeld-IsRouteTable :
    (slug : String) (row : ContentRow) (routes routes' : List RouteRow)
    → IsSlugHeld slug row routes routes'
    → IsRouteTable routes
    → IsRouteTable routes'
IsSlugHeld-IsRouteTable slug row routes routes' (inl (_, e)) w = rw e w
IsSlugHeld-IsRouteTable slug row routes routes' (inr r) w = ReservedRoutes-IsRouteTable r w

module _ (row : ContentRow) where
  saving-life :
      (now : ℕ) (d : DraftInput)
      → row.deleted_at ≡ none
      → next_state (saving now d) row.status (is_some row.deleted_at)
        ≡ some (row.status, is_some row.deleted_at)
  saving-life now d kept = ground arith

  publishing-life :
      (clock : Clock)
      → row.deleted_at ≡ none
      → next_state (publishing clock) row.status (is_some row.deleted_at)
        ≡ some (published, is_some row.deleted_at)
  publishing-life clock kept = ground arith

  archiving-life :
      (clock : Clock)
      → row.deleted_at ≡ none
      → row.status ≡ published
      → next_state (archiving clock) row.status (is_some row.deleted_at)
        ≡ some (archived, is_some row.deleted_at)
  archiving-life clock kept shown = ground arith

  deleting-life :
      (now : ℕ)
      → row.deleted_at ≡ none
      → next_state (deleting now) row.status (is_some row.deleted_at) ≡ some (archived, true)
  deleting-life now kept = ground arith

  restoring-life :
      (now : ℕ)
      → is_some row.deleted_at ≡ true
      → next_state (restoring now) row.status (is_some row.deleted_at) ≡ some (archived, false)
  restoring-life now gone = ground arith

-- Every successful mutation is of this form.
pub mutate-IsMutated :
    (env : Environment) (m : Mutation) (input : MutateInput) (actor : ℕ) (context : RequestContext)
    (t : Tables) {d : LockedDocument} {u : Tables}
    → mutate env m input actor context t ≡ (ok d, u)
    → IsMutated m input actor context t d u
unfolding mutate save publish archive delete restore
mutate-IsMutated env (saving now draft) input actor context t {d} {u} h =
    let (compiled, _, h₁) =
      with_input-eq-ok (compile_draft env (env.parse_draft draft))
        (save_tx env now actor context input) t h in
    let (row, a, kept, _, _, (routes, slug_held, w)) =
      save_tx-eq-ok env now actor context input compiled t h₁ in
    IsWritten-IsMutated _ input actor context t u d _ row _ routes a (λ k. (refl, refl)) refl
      (saving-life row now draft kept)
      (inr (revision_row row.id (row.revision + 1) compiled actor, refl, refl, refl, refl))
      (IsSlugHeld-IsPermanent _ row t.routes routes slug_held)
      (IsSlugHeld-IsRouteTable _ row t.routes routes slug_held) w
mutate-IsMutated env (publishing clock) input actor context t {d} {u} h =
    let (row, a, kept, _, _, (routes, routing, w)) =
      publish_tx-eq-ok env clock actor context input t
        (transaction-eq-ok (publish_tx env clock actor context input) t h) in
    IsWritten-IsMutated _ input actor context t u d _ row _ routes a (λ k. (refl, refl)) refl
      (publishing-life row clock kept) (inl (refl, refl)) (PublishedRoutes-IsPermanent routing)
      (PublishedRoutes-IsRouteTable routing) w
mutate-IsMutated env (archiving clock) input actor context t {d} {u} h =
    let (row, a, kept, shown, w) =
      archive_tx-eq-ok env clock actor context input t
        (transaction-eq-ok (archive_tx env clock actor context input) t h) in
    IsWritten-IsMutated _ input actor context t u d _ row _ _ a (λ k. (refl, refl)) refl
      (archiving-life row clock kept shown) (inl (refl, refl)) (IsPermanent-refl t.routes)
      (λ ok. ok) w
mutate-IsMutated env (deleting now) input actor context t {d} {u} h =
    let (row, a, kept, w) =
      delete_tx-eq-ok env now actor context input t
        (transaction-eq-ok (delete_tx env now actor context input) t h) in
    IsWritten-IsMutated _ input actor context t u d _ row _ _ a (λ k. (refl, refl)) refl
      (deleting-life row now kept) (inl (refl, refl)) (IsPermanent-refl t.routes) (λ ok. ok) w
mutate-IsMutated env (restoring now) input actor context t {d} {u} h =
    let (row, a, gone, w) =
      restore_tx-eq-ok env now actor context input t
        (transaction-eq-ok (restore_tx env now actor context input) t h) in
    IsWritten-IsMutated _ input actor context t u d _ row _ _ a (λ k. (refl, refl)) refl
      (restoring-life row now gone) (inl (refl, refl)) (IsPermanent-refl t.routes) (λ ok. ok) w
