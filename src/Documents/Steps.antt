-- ===== src/Documents/Steps.antt =====
-- What each statement of a document transaction has done when it succeeds.
use mathlib.Core.Option
use mathlib.Core.Path.{subst, subst₂}
use ai_agent_platform.Base.{
  refl, ==_iff, &&-eq-true, find_first-holds, ℕ, String, Bool, true, false, ◌≡◌, sym, ap, some,
  Option, ◌∷◌, [], ◌++◌, ok, arith, find_first, any, update_where, str_eq, ◌∙◌, throw_if, ◌>>=◌,
  ◌>>◌, >>=-elim,
}
use ai_agent_platform.Documents.Model.{
  DocumentTx, ContentRow, Tables, Failure, AuditEvent, DocumentEvent, LockedDocument, MutateInput,
  RequestContext,
}
use ai_agent_platform.Documents.Repository.{
  locked_document, update_document, grant_matches, assert_active_workforce_permission, is_document,
  lock_document, append_audit,
}
use ai_agent_platform.Documents.Service.{
  Environment, assert_cas, document_audit, safe_document_dto, found, admin_docs_delete,
  authorized_lock, finish,
}

-- The row that a mutation may write: it is stored under the input's id, at the revision and the
-- version that the input expects, and the actor is granted the permission.
pub record IsAuthorized (actor : ℕ) (input : MutateInput) (permission : String) (t : Tables)
    (row : ContentRow) : Type 0 where
  pub granted :
      any (grant_matches actor permission (str_eq permission admin_docs_delete)) t.grants ≡ true
  pub stored : find_first (is_document input.id) t.content ≡ some row
  pub same_revision : row.revision ≡ input.expected_revision
  pub same_version : row.row_version ≡ input.expected_row_version

pub throw_if-eq-ok :
    (b : Bool) (e : Failure) (t : Tables) {u : Tables}
    → throw_if b e t ≡ ok (tt, u)
    → (b ≡ false) × (u ≡ t)
throw_if-eq-ok b e t h = ground arith

append_audit-eq-ok :
    (accepted : AuditEvent → Bool) (event : AuditEvent) (t : Tables) {x : Unit {0}} {u : Tables}
    → append_audit accepted event t ≡ ok (x, u)
    → u ≡ record t { audit = t.audit ++ event ∷ [] }
unfolding append_audit
append_audit-eq-ok accepted event t h = ground arith

safe_document_dto-eq-ok :
    (env : Environment) (document : LockedDocument) (t : Tables) {d : LockedDocument} {u : Tables}
    → safe_document_dto env document t ≡ ok (d, u)
    → (d ≡ document) × (u ≡ t)
unfolding safe_document_dto
safe_document_dto-eq-ok env document t h = ground arith

pub finish-eq-ok :
    (env : Environment) (event : DocumentEvent) (actor : ℕ) (context : RequestContext)
    (document : LockedDocument) (t : Tables) {d : LockedDocument} {u : Tables}
    → finish env event actor context document t ≡ ok (d, u)
    → (d ≡ document)
      × (u ≡ record t { audit = t.audit ++ document_audit event actor document context ∷ [] })
unfolding finish
finish-eq-ok env event actor context document t h = >>=-elim _ _ t h λ _ t' p q.
    let (e, f) = safe_document_dto-eq-ok env document t' q in
    (e, f ∙ append_audit-eq-ok env.is_audit _ t p)

pub assert_permission-eq-ok :
    (actor : ℕ) (permission : String) (super : Bool) (t : Tables) {x : Unit {0}} {u : Tables}
    → assert_active_workforce_permission actor permission super t ≡ ok (x, u)
    → (any (grant_matches actor permission super) t.grants ≡ true) × (u ≡ t)
unfolding assert_active_workforce_permission
assert_permission-eq-ok actor permission super t h = ground arith

assert_cas-eq-ok :
    (document : LockedDocument) (input : MutateInput) (t : Tables) {x : Unit {0}} {u : Tables}
    → assert_cas document input t ≡ ok (x, u)
    → (document.revision ≡ input.expected_revision)
      × (document.row_version ≡ input.expected_row_version)
      × (u ≡ t)
unfolding assert_cas
assert_cas-eq-ok document input t h = ground arith

lock_document-eq-ok :
    (id : ℕ) (t : Tables) {o : Option LockedDocument} {u : Tables}
    → lock_document id t ≡ ok (o, u)
    → (o ≡ Option.map locked_document (find_first (is_document id) t.content)) × (u ≡ t)
unfolding lock_document
lock_document-eq-ok id t h = ground arith

found-eq-ok :
    (o : Option LockedDocument) (t : Tables) {d : LockedDocument} {u : Tables}
    → found o t ≡ ok (d, u)
    → (o ≡ some d) × (u ≡ t)
found-eq-ok o t h = ground arith

pub authorized_lock-eq-ok :
    (actor : ℕ) (input : MutateInput) (permission : String) (t : Tables) {current : LockedDocument}
    {u : Tables}
    → authorized_lock actor input permission t ≡ ok (current, u)
    → (row : ContentRow) × IsAuthorized actor input permission t row
      × (current ≡ locked_document row)
      × (u ≡ t)
unfolding authorized_lock locked_document
authorized_lock-eq-ok actor input permission t {current} {u} h = >>=-elim _ _ t h λ _ t₁ p₁ h₁.
    >>=-elim _ _ t₁ h₁ λ locked t₂ p₂ h₂. >>=-elim _ _ t₂ h₂ λ document t₃ p₃ h₃.
      >>=-elim _ _ t₃ h₃ λ _ t₄ p₄ h₄.
        let (granted, e₁) = assert_permission-eq-ok actor permission _ t p₁ in
        let (e, e₂) = lock_document-eq-ok input.id t₁ p₂ in
        let (e', e₃) = found-eq-ok locked t₂ p₃ in
        let (same_revision, same_version, e₄) = assert_cas-eq-ok document input t₃ p₄ in
        let (row, stored, is_row) = (Option.map-eq-some_iff _ _).0 (sym e ∙ e') in
        (
          row,
          record {
            granted = granted;
            stored = subst (λ s. find_first (is_document input.id) s.content ≡ some row) e₁ stored;
            same_revision = ap (λ (d : LockedDocument). d.revision) is_row ∙ same_revision;
            same_version = ap (λ (d : LockedDocument). d.row_version) is_row ∙ same_version;
          },
          cc,
          cc,
        )

-- The row found under the input's id has that id.
pub IsAuthorized-id :
    {actor : ℕ} {input : MutateInput} {permission : String} {t : Tables} {row : ContentRow}
    → IsAuthorized actor input permission t row
    → row.id ≡ input.id
IsAuthorized-id {input} {t} {row} a =
    (==_iff row.id input.id).0
      (&&-eq-true _ _ (find_first-holds (is_document input.id) t.content row a.stored)).0

pub IsAuthorized-stored :
    {actor : ℕ} {input : MutateInput} {permission : String} {t : Tables} {row : ContentRow}
    → IsAuthorized actor input permission t row
    → find_first (is_document row.id) t.content ≡ some row
IsAuthorized-stored {t} {row} a =
    subst (λ k. find_first (is_document k) t.content ≡ some row) (sym (IsAuthorized-id a)) a.stored

-- The same in front of the rest `f` of a transaction: the tables and the values are written out.
module _ {r : LockedDocument × Tables} (f : LockedDocument → DocumentTx LockedDocument) where
  pub authorized_lock-then :
      (actor : ℕ) (input : MutateInput) (permission : String) (t : Tables)
      → (authorized_lock actor input permission >>= f) t ≡ ok r
      → (row : ContentRow) × IsAuthorized actor input permission t row
        × (f (locked_document row) t ≡ ok r)
  authorized_lock-then actor input permission t h = >>=-elim _ _ t h λ current u p q.
      let (row, a, e, same) = authorized_lock-eq-ok actor input permission t p in
      (row, a, subst₂ (λ c s. f c s ≡ ok r) e same q)

  pub update_document-then :
      (id : ℕ) (set : ContentRow → ContentRow) (t : Tables) (row : ContentRow)
      → find_first (is_document id) t.content ≡ some row
      → (update_document id set >>= f) t ≡ ok r
      → f
          (locked_document (set row))
          (record t { content = update_where (is_document id) set t.content })
        ≡ ok r
  unfolding update_document ◌>>=◌
  update_document-then id set t row s h = rw (s, ◌>>=◌, update_document) at h

module _ {A : Type 0} {r : A × Tables} (k : DocumentTx A) where
  pub throw_if-then :
      (b : Bool) (e : Failure) (t : Tables)
      → (throw_if b e >> k) t ≡ ok r
      → (b ≡ false) × (k t ≡ ok r)
  unfolding ◌>>=◌
  throw_if-then true e t h = cc
  throw_if-then false e t h = (refl, h)

  pub assert_permission-then :
      (actor : ℕ) (permission : String) (super : Bool) (t : Tables)
      → (assert_active_workforce_permission actor permission super >> k) t ≡ ok r
      → (any (grant_matches actor permission super) t.grants ≡ true) × (k t ≡ ok r)
  assert_permission-then actor permission super t h = >>=-elim _ _ t h λ _ u p q.
      let (granted, e) = assert_permission-eq-ok actor permission super t p in
      (granted, subst (λ s. k s ≡ ok r) e q)
