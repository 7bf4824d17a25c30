-- ===== src/Documents/Drafts.antt =====
-- What `create` and `save` have checked and written when they succeed.
use mathlib.Core.Path.{subst}
use ai_agent_platform.Documents.Inversion.{is_some-eq-false, IsWritten}
use ai_agent_platform.Documents.Steps.{
  update_document-then, finish-eq-ok, assert_permission-then, IsAuthorized-stored, throw_if-then,
  authorized_lock-then, IsAuthorized,
}
use ai_agent_platform.Base.{
  ◌>>◌, eq_iff, return, none, ◌⊎◌, if◌then◌else◌, ◌+◌, true, some, >>=-elim, ℕ, ◌≡◌, refl, String,
  false, not, ◌&&◌, List, [], ◌∷◌, ◌++◌, ok, str_eq, find_first, any, ◌>>=◌, Bool-cases,
  Option-cases, inl, inr, ◌==◌, arith,
}
use ai_agent_platform.Documents.Model.{
  document_draft_saved, document_created, MutateInput, RequestContext, ContentRow, RouteRow,
  RevisionRow, Tables, DocumentTx, LockedDocument,
}
use ai_agent_platform.Documents.Repository.{
  inserted_row, locked_document, grant_matches, is_document, insert_document, is_revision,
  reserve_slug, append_revision, save_draft, set_draft, update_document,
}
use ai_agent_platform.Documents.Service.{
  finish, document_audit, admin_docs, save_tx, create_tx, Environment, Draft,
}
use ai_agent_platform.Documents.Routes.{ReservedRoutes, held, bound}

reserve_slug-ReservedRoutes :
    (slug : String) (id : ℕ) (t : Tables) {x : Unit {0}} {u : Tables}
    → reserve_slug slug id t ≡ ok (x, u)
    → (routes : List RouteRow) × ReservedRoutes slug id t.routes routes
      × (u ≡ record t { routes = routes })
unfolding reserve_slug
reserve_slug-ReservedRoutes slug id t h =
    elim (Option-cases (find_first (λ r. str_eq r.slug slug) t.routes)) [
      | inl e ↦ let k = rw (e, reserve_slug) at h in (_, bound e refl, ground arith)
      | inr (r, e) ↦
          let k = rw (e, reserve_slug) at h in
          (t.routes, held r e (ground arith) (ground arith) refl, ground arith)
    ]

-- The row that `append_revision` adds.
abbrev pub revision_row : ℕ → ℕ → Draft → ℕ → RevisionRow
revision_row id revision (d, text) actor = record {
  content_id = id;
  revision = revision;
  slug = d.slug;
  title = d.title;
  summary = d.summary;
  body = text;
  created_by = actor;
}

append_revision-eq-ok :
    (id revision : ℕ) (slug title summary text : String) (actor : ℕ) (t : Tables) {x : Unit {0}}
    {u : Tables}
    → append_revision id revision slug title summary text actor t ≡ ok (x, u)
    → (any (is_revision id revision) t.revisions ≡ false)
      × (u ≡ record t {
        revisions =
            t.revisions
            ++ record {
              content_id = id;
              revision = revision;
              slug = slug;
              title = title;
              summary = summary;
              body = text;
              created_by = actor;
            }
              ∷ [];
      })
unfolding append_revision
append_revision-eq-ok id revision slug title summary text actor t h = ground arith

save_draft-then :
    (f : LockedDocument → DocumentTx LockedDocument) (now id : ℕ) (slug title summary text : String)
    (revision row_version : ℕ) (t : Tables) {r : LockedDocument × Tables}
    → (save_draft now id slug title summary text revision row_version >>= f) t ≡ ok r
    → (any (λ k. not (k.id == id) && str_eq k.slug slug) t.content ≡ false)
      × ((update_document id (set_draft now slug title summary text revision row_version) >>= f) t
          ≡ ok r)
unfolding save_draft ◌>>=◌
save_draft-then f now id slug title summary text revision row_version t h =
    elim (Bool-cases (any (λ k. not (k.id == id) && str_eq k.slug slug) t.content)) [
      | inl e ↦ cc (rw (e, save_draft, ◌>>=◌) at h)
      | inr e ↦ (e, rw (e, save_draft, ◌>>=◌) at h)
    ]

-- The slug is the one that the row has, or is reserved for it.
abbrev pub IsSlugHeld : String → ContentRow → List RouteRow → List RouteRow → Type 0
IsSlugHeld slug row routes routes' =
    ((slug ≡ row.slug) × (routes' ≡ routes)) ⊎ ReservedRoutes slug row.id routes routes'

hold_slug-IsSlugHeld :
    (slug : String) (row : ContentRow) (t : Tables) {x : Unit {0}} {u : Tables}
    → (if str_eq slug row.slug then return tt else reserve_slug slug row.id) t ≡ ok (x, u)
    → (routes : List RouteRow) × IsSlugHeld slug row t.routes routes
      × (u ≡ record t { routes = routes })
hold_slug-IsSlugHeld slug row t h = elim (Bool-cases (str_eq slug row.slug)) [
  | inl e ↦ let k = rw e at h in (t.routes, inl ((eq_iff slug row.slug).0 e, refl), ground arith)
  | inr e ↦
      let (routes, held_now, same) = reserve_slug-ReservedRoutes slug row.id t (rw e at h) in
      (routes, inr held_now, same)
]

abbrev pub draft_set : ℕ → Draft → ContentRow → ContentRow → ContentRow
draft_set now (d, text) row =
    set_draft now d.slug d.title d.summary text (row.revision + 1) (row.row_version + 1)

save_checked :
    (env : Environment) (now actor : ℕ) (context : RequestContext) (d : Draft) (t : Tables)
    (row : ContentRow) {r : LockedDocument} {u : Tables}
    → find_first (is_document row.id) t.content ≡ some row
    → (do
      updated ←
          save_draft now row.id d.0.slug d.0.title d.0.summary d.1
            (row.revision + 1)
            (row.row_version + 1)
      append_revision row.id (row.revision + 1) d.0.slug d.0.title d.0.summary d.1 actor
      finish env document_draft_saved actor context updated)
        t
      ≡ ok (r, u)
    → (any (λ k. not (k.id == row.id) && str_eq k.slug d.0.slug) t.content ≡ false)
      × (any (is_revision row.id (row.revision + 1)) t.revisions ≡ false)
      × IsWritten
          (draft_set now d row)
          row
          (t.revisions ++ revision_row row.id (row.revision + 1) d actor ∷ [])
          t.routes
          document_draft_saved
          actor
          context
          t
          r
          u
save_checked env now actor context d t row {r} {u} stored h =
    let (free, h₁) = save_draft-then _ now row.id _ _ _ _ _ _ t h in
    let h₂ = update_document-then _ row.id _ t row stored h₁ in
    >>=-elim _ _ _ h₂ λ _ t₁ p q.
      let (fresh, e) = append_revision-eq-ok row.id (row.revision + 1) _ _ _ _ actor _ p in
      let (same, f) = finish-eq-ok env document_draft_saved actor context _ _ (
        subst
          (λ s.
            finish env document_draft_saved actor context
              (locked_document (draft_set now d row row)) s
            ≡ ok (r, u))
          e q) in
      (free, fresh, record { result = same; tables = f })

pub save_tx-eq-ok :
    (env : Environment) (now actor : ℕ) (context : RequestContext) (input : MutateInput) (d : Draft)
    (t : Tables) {r : LockedDocument} {u : Tables}
    → save_tx env now actor context input d t ≡ ok (r, u)
    → (row : ContentRow) × IsAuthorized actor input admin_docs t row
      × (row.deleted_at ≡ none)
      × (any (λ k. not (k.id == row.id) && str_eq k.slug d.0.slug) t.content ≡ false)
      × (any (is_revision row.id (row.revision + 1)) t.revisions ≡ false)
      × ((routes : List RouteRow) × IsSlugHeld d.0.slug row t.routes routes
          × IsWritten
              (draft_set now d row)
              row
              (t.revisions ++ revision_row row.id (row.revision + 1) d actor ∷ [])
              routes
              document_draft_saved
              actor
              context
              t
              r
              u)
unfolding save_tx locked_document
save_tx-eq-ok env now actor context input d t {r} {u} h =
    let (row, a, h₁) = authorized_lock-then _ actor input admin_docs t h in
    let (kept, h₂) = throw_if-then _ _ _ t h₁ in
    >>=-elim _ _ t h₂ λ _ t₁ p q.
      let (routes, slug_held, e) = hold_slug-IsSlugHeld d.0.slug row t p in
      let (free, fresh, w) =
        save_checked env now actor context d (record t { routes = routes }) row
          (IsAuthorized-stored a) (rw e at q) in
      (
        row,
        a,
        is_some-eq-false _ kept,
        free,
        fresh,
        (routes, slug_held, record { result = w.result; tables = w.tables }),
      )

-- What `create` adds to the tables.
pub record IsCreated (fresh now actor : ℕ) (context : RequestContext) (d : Draft) (t : Tables)
    (r : LockedDocument) (u : Tables) : Type 0 where
  pub granted : any (grant_matches actor admin_docs false) t.grants ≡ true
  pub new_id : any (λ k. k.id == fresh) t.content ≡ false
  pub new_slug : any (λ k. str_eq k.slug d.0.slug) t.content ≡ false
  pub new_revision : any (is_revision fresh 1) t.revisions ≡ false
  pub routes : List RouteRow
  pub reserved_slug : ReservedRoutes d.0.slug fresh t.routes routes
  pub result : r ≡ locked_document (inserted_row fresh now actor d.0.slug d.0.title d.0.summary d.1)
  pub tables : u ≡ record t {
    content = t.content ++ inserted_row fresh now actor d.0.slug d.0.title d.0.summary d.1 ∷ [];
    revisions = t.revisions ++ revision_row fresh 1 d actor ∷ [];
    routes = routes;
    audit =
        t.audit
        ++ document_audit document_created actor
            (locked_document (inserted_row fresh now actor d.0.slug d.0.title d.0.summary d.1))
            context
          ∷ [];
  }

insert_document-then :
    (f : LockedDocument → DocumentTx LockedDocument) (fresh now actor : ℕ)
    (slug title summary text : String) (t : Tables) {r : LockedDocument × Tables}
    → (insert_document fresh now actor slug title summary text >>= f) t ≡ ok r
    → (any (λ k. k.id == fresh) t.content ≡ false)
      × (any (λ k. str_eq k.slug slug) t.content ≡ false)
      × (f (locked_document (inserted_row fresh now actor slug title summary text)) (record t {
        content = t.content ++ inserted_row fresh now actor slug title summary text ∷ [];
      })
          ≡ ok r)
unfolding insert_document ◌>>=◌
insert_document-then f fresh now actor slug title summary text t h =
    elim (Bool-cases (any (λ k. k.id == fresh) t.content)) [
      | inl e ↦ cc (rw (e, insert_document, ◌>>=◌) at h)
      | inr e ↦ elim (Bool-cases (any (λ k. str_eq k.slug slug) t.content)) [
        | inl e' ↦ cc (rw (e, e', insert_document, ◌>>=◌) at h)
        | inr e' ↦ (e, e', rw (e, e', insert_document, ◌>>=◌) at h)
      ]
    ]

-- The part of `create` behind the insertion of the row.
create_inserted :
    (env : Environment) (actor : ℕ) (context : RequestContext) (d : Draft) (row : ContentRow)
    (s : Tables) {r : LockedDocument} {u : Tables}
    → (do
      reserve_slug d.0.slug row.id
      append_revision row.id row.revision d.0.slug d.0.title d.0.summary d.1 actor
      finish env document_created actor context (locked_document row))
        s
      ≡ ok (r, u)
    → (any (is_revision row.id row.revision) s.revisions ≡ false)
      × ((routes : List RouteRow) × ReservedRoutes d.0.slug row.id s.routes routes
          × (r ≡ locked_document row)
          × (u ≡ record s {
            revisions = s.revisions ++ revision_row row.id row.revision d actor ∷ [];
            routes = routes;
            audit =
                s.audit ++ document_audit document_created actor (locked_document row) context ∷ [];
          }))
create_inserted env actor context d row s {r} {u} h = >>=-elim _ _ s h λ _ t₁ p₁ q₁.
    >>=-elim _ _ t₁ q₁ λ _ t₂ p₂ q₂.
      let (routes, reserved_now, e₁) = reserve_slug-ReservedRoutes d.0.slug row.id s p₁ in
      let (fresh, e₂) = append_revision-eq-ok row.id row.revision _ _ _ _ actor t₁ p₂ in
      let (same, e₃) = finish-eq-ok env document_created actor context _ t₂ q₂ in
      (
        subst (λ k. any (is_revision row.id row.revision) k.revisions ≡ false) e₁ fresh,
        (routes, reserved_now, same, rw e₃ (rw e₂ (rw e₁ refl))),
      )

pub create_tx-eq-ok :
    (env : Environment) (fresh now actor : ℕ) (context : RequestContext) (d : Draft) (t : Tables)
    {r : LockedDocument} {u : Tables}
    → create_tx env fresh now actor context d t ≡ ok (r, u)
    → IsCreated fresh now actor context d t r u
unfolding create_tx locked_document
create_tx-eq-ok env fresh now actor context d t h =
    let (granted, h₁) = assert_permission-then _ actor admin_docs false t h in
    let (new_id, new_slug, h₂) = insert_document-then _ fresh now actor _ _ _ _ t h₁ in
    let (new_revision, (routes, reserved_slug, result, tables)) =
      create_inserted env actor context d
        (inserted_row fresh now actor d.0.slug d.0.title d.0.summary d.1) _ h₂ in
    record {
      granted = granted;
      new_id = new_id;
      new_slug = new_slug;
      new_revision = new_revision;
      routes = routes;
      reserved_slug = reserved_slug;
      result = result;
      tables = tables;
    }
