-- ===== src/Documents/Guarantees.antt =====
-- What a caller of the service may rely on, whichever mutation is made.
use mathlib.Core.List.{Memᴰ}
use mathlib.Core.Path.{subst}
use ai_agent_platform.Base.{
  transaction-eq-err, is_some, ℕ, ◌+◌, ◌≡◌, ◌≢◌, sym, ◌∙◌, ap, true, some, ◌∷◌, [], ◌++◌, ok, err,
  Result, find_first, find_first-update_self, find_first-update_other, ◌==◌, ==_iff, false,
  member_of_any, eq_iff, arith,
}
use ai_agent_platform.Identity.{workforce, active}
use ai_agent_platform.Documents.Model.{
  DocumentTx, ContentRow, GrantRow, Tables, LockedDocument, MutateInput, RequestContext, Failure,
}
use ai_agent_platform.Documents.Repository.{is_document, locked_document}
use ai_agent_platform.Documents.Service.{
  restore_tx, delete_tx, archive_tx, publish_tx, save_tx, compile_draft, restore, delete, archive,
  publish, with_input, save, Environment, document_audit, admin_docs_delete,
}
use ai_agent_platform.Documents.Steps.{IsAuthorized-id, IsAuthorized-stored}
use ai_agent_platform.Documents.Commands.{
  saving, publishing, archiving, deleting, restoring, Mutation, mutate, required_permission,
  event_of, next_state, IsMutated, mutate-IsMutated,
}

-- The updated row is stored under its id.
pub IsMutated-stored :
    {m : Mutation} {input : MutateInput} {actor : ℕ} {context : RequestContext} {t : Tables}
    {d : LockedDocument} {u : Tables} (w : IsMutated m input actor context t d u)
    → find_first (is_document w.row.id) u.content ≡ some (w.set w.row)
IsMutated-stored {t} w = rw w.content (
    find_first-update_self (is_document w.row.id) w.set t.content w.row
      (λ y h. rw (w.keeps_id y, w.keeps_kind y) h) (IsAuthorized-stored w.authorized))

same_row : {a b : ContentRow} → some a ≡ some b → a ≡ b
same_row e = cc

-- No update is lost: after a successful mutation, every mutation of the same document that expects
-- the row version that the first one expected fails, whoever sends it and whatever it does.
pub mutate-stale :
    (env env' : Environment) (m m' : Mutation) (input input' : MutateInput) (actor actor' : ℕ)
    (context context' : RequestContext) (t u u' : Tables) (d d' : LockedDocument)
    → mutate env m input actor context t ≡ (ok d, u)
    → input'.id ≡ input.id
    → input'.expected_row_version ≡ input.expected_row_version
    → mutate env' m' input' actor' context' u ≢ (ok d', u')
mutate-stale env env' m m' input input' actor actor' context context' t u u' d d' h i v h' =
    let w = mutate-IsMutated env m input actor context t h in
    let w' = mutate-IsMutated env' m' input' actor' context' u h' in
    let same : some (w.set w.row) ≡ some w'.row =
      sym (IsMutated-stored w)
      ∙ subst (λ k. find_first (is_document k) u.content ≡ some w'.row)
          (i ∙ sym (IsAuthorized-id w.authorized)) w'.authorized.stored in
    omega (
      arith,
      ap (λ (r : ContentRow). r.row_version) (same_row same),
      w.next_version,
      w.authorized.same_version,
      w'.authorized.same_version,
    )

-- What an answer tells of a row.
pub record IsAnswer (row : ContentRow) (d : LockedDocument) : Type 0 where
  pub id : d.id ≡ row.id
  pub status : d.status ≡ row.status
  pub deleted_at : d.deleted_at ≡ row.deleted_at
  pub revision : d.revision ≡ row.revision
  pub row_version : d.row_version ≡ row.row_version

IsAnswer-result : (row : ContentRow) {d : LockedDocument} → d ≡ locked_document row → IsAnswer row d
unfolding locked_document
IsAnswer-result row e = record {
  id = ap (λ (x : LockedDocument). x.id) e;
  status = ap (λ (x : LockedDocument). x.status) e;
  deleted_at = ap (λ (x : LockedDocument). x.deleted_at) e;
  revision = ap (λ (x : LockedDocument). x.revision) e;
  row_version = ap (λ (x : LockedDocument). x.row_version) e;
}

-- A document under another id is not touched.
IsMutated-other :
    {m : Mutation} {input : MutateInput} {actor : ℕ} {context : RequestContext} {t : Tables}
    {d : LockedDocument} {u : Tables} (w : IsMutated m input actor context t d u) (other : ℕ)
    → (other == w.row.id) ≡ false
    → find_first (is_document other) u.content ≡ find_first (is_document other) t.content
IsMutated-other {t} w other d = rw w.content (
    find_first-update_other (is_document other) (is_document w.row.id) w.set t.content (λ y h.
      ground (arith, w.keeps_id y, ==_iff y.id w.row.id, ==_iff y.id other, ==_iff other w.row.id)))

-- A successful mutation moves the stored document along its life cycle: before it, the row stored
-- under the input's id is at the expected versions; after it, the row stored there has the next row
-- version and the status and deletion that `next_state` gives, every other document is the row that
-- it was, and the answer is the stored row's id, status, deletion and versions.
pub mutate-next_state :
    (env : Environment) (m : Mutation) (input : MutateInput) (actor : ℕ) (context : RequestContext)
    (t u : Tables) (d : LockedDocument)
    → mutate env m input actor context t ≡ (ok d, u)
    → (row : ContentRow) × (find_first (is_document input.id) t.content ≡ some row)
      × (row.revision ≡ input.expected_revision)
      × (row.row_version ≡ input.expected_row_version)
      × (stored : ContentRow) × (find_first (is_document input.id) u.content ≡ some stored)
      × (stored.row_version ≡ row.row_version + 1)
      × (next_state m row.status (is_some row.deleted_at)
          ≡ some (stored.status, is_some stored.deleted_at))
      × IsAnswer stored d
      × ((other : ℕ)
          → (other == input.id) ≡ false
          → find_first (is_document other) u.content ≡ find_first (is_document other) t.content)
mutate-next_state env m input actor context t u d h =
    let w = mutate-IsMutated env m input actor context t h in
    let a = w.authorized in
    (
      w.row,
      a.stored,
      a.same_revision,
      a.same_version,
      w.set w.row,
      subst (λ k. find_first (is_document k) u.content ≡ some (w.set w.row)) (IsAuthorized-id a)
          (IsMutated-stored w),
      w.next_version,
      w.lifecycle,
      IsAnswer-result (w.set w.row) w.result,
      (λ other e. IsMutated-other w other (ap (λ k. other == k) (IsAuthorized-id a) ∙ e)),
    )

-- A mutation succeeds only for an active workforce user who holds the mutation's permission through
-- a workforce role; to delete or restore, the role is `super_admin`.
pub mutate-granted :
    (env : Environment) (m : Mutation) (input : MutateInput) (actor : ℕ) (context : RequestContext)
    (t u : Tables) (d : LockedDocument)
    → mutate env m input actor context t ≡ (ok d, u)
    → (g : GrantRow) × Memᴰ g t.grants
      × (g.user_id ≡ actor)
      × (g.identity_realm ≡ workforce)
      × (g.user_status ≡ active)
      × (g.role_workforce ≡ true)
      × (g.permission_key ≡ required_permission m)
      × (required_permission m ≡ admin_docs_delete → g.role_name ≡ "super_admin")
mutate-granted env m input actor context t u d h =
    let w = mutate-IsMutated env m input actor context t h in
    let (g, listed, matches) = member_of_any _ t.grants w.authorized.granted in
    let permission = eq_iff g.permission_key (required_permission m) in
    let deletion = eq_iff (required_permission m) admin_docs_delete in
    let name = eq_iff g.role_name "super_admin" in
    (
      g,
      listed,
      ground arith,
      ground arith,
      ground arith,
      ground arith,
      ground arith,
      (λ is_deletion. ground arith),
    )

-- What an outcome has left in the audit log.
abbrev pub IsAudited :
    Mutation → ℕ → RequestContext → Tables → Result Failure LockedDocument → Tables → Type 0
IsAudited m actor context t (ok d) u =
    u.audit ≡ t.audit ++ document_audit (event_of m) actor d context ∷ []
IsAudited m actor context t (err e) u = u ≡ t

pub with_input-eq-err :
    {A : Type 0} (r : Result Failure A) (work : A → DocumentTx LockedDocument) (t : Tables)
    {e : Failure} {u : Tables}
    → with_input r work t ≡ (err e, u)
    → u ≡ t
with_input-eq-err (err e) work t h = cc
with_input-eq-err (ok a) work t h = transaction-eq-err (work a) t h

-- A failed mutation writes nothing.
pub mutate-eq-err :
    (env : Environment) (m : Mutation) (input : MutateInput) (actor : ℕ) (context : RequestContext)
    (t : Tables) {e : Failure} {u : Tables}
    → mutate env m input actor context t ≡ (err e, u)
    → u ≡ t
unfolding mutate save publish archive delete restore
mutate-eq-err env (saving now draft) input actor context t h =
    with_input-eq-err (compile_draft env (env.parse_draft draft))
      (save_tx env now actor context input) t h
mutate-eq-err env (publishing clock) input actor context t h =
    transaction-eq-err (publish_tx env clock actor context input) t h
mutate-eq-err env (archiving clock) input actor context t h =
    transaction-eq-err (archive_tx env clock actor context input) t h
mutate-eq-err env (deleting now) input actor context t h =
    transaction-eq-err (delete_tx env now actor context input) t h
mutate-eq-err env (restoring now) input actor context t h =
    transaction-eq-err (restore_tx env now actor context input) t h

-- One audit event, of the mutation's kind, in the actor's name and about the result, is appended by
-- a mutation that succeeds; one that fails writes nothing at all.
pub mutate-IsAudited :
    (env : Environment) (m : Mutation) (input : MutateInput) (actor : ℕ) (context : RequestContext)
    (t u : Tables) (r : Result Failure LockedDocument)
    → mutate env m input actor context t ≡ (r, u)
    → IsAudited m actor context t r u
mutate-IsAudited env m input actor context t u (ok d) h =
    (mutate-IsMutated env m input actor context t h).audit
mutate-IsAudited env m input actor context t u (err e) h =
    mutate-eq-err env m input actor context t h
