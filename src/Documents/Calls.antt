-- ===== src/Documents/Calls.antt =====
-- Sequences of calls of the service, and what holds of the tables after any of them.
use ai_agent_platform.Documents.Routes.Table.{ReservedRoutes-IsRouteTable}
use ai_agent_platform.Documents.Guarantees.{with_input-eq-err, IsMutated-stored, mutate-eq-err}
use ai_agent_platform.Documents.Steps.{IsAuthorized-stored}
use native.Mathlib.Decide.{ℕ_discrete}
use ai_agent_platform.Documents.Drafts.{create_tx-eq-ok, revision_row, IsCreated}
use ai_agent_platform.Base.{
  find_first-append_other, eq_iff, find_first-append_none, ◌==◌, find_first-eq-none,
  find_first-update_other, sym, err, ap, refl, ok, ◌≢◌, ℕ, ◌≡◌, inl, inr, ◌∙◌, Bool, false, ◌&&◌,
  Option, none, some, List, [], ◌∷◌, ltb, leb, find_first, any, any-append, arith,
}
use ai_agent_platform.Documents.Model.{
  LockedDocument, ContentRow, Tables, DraftInput, MutateInput, RequestContext,
}
use ai_agent_platform.Documents.Repository.{inserted_row, is_document, is_revision}
use ai_agent_platform.Documents.Service.{
  create_tx, compile_draft, Outcome, Draft, Environment, SafeParse, create,
}
use ai_agent_platform.Documents.Routes.{
  ReservedRoutes-IsPermanent, IsPermanent-trans, IsPermanent-refl, IsPermanent, IsRouteTable,
}
use ai_agent_platform.Documents.Commands.{
  with_input-eq-ok, mutate-IsMutated, IsMutated, Mutation, mutate, IsHistoryStep,
}

-- A call with the values that the database and the clock supply to it.
pub data Call : Type 0 where
  creating : (fresh now : ℕ) → SafeParse DraftInput → ℕ → RequestContext → Call
  mutating : Mutation → MutateInput → ℕ → RequestContext → Call

unfoldable pub run_call : Environment → Call → Tables → Tables
run_call env (creating fresh now parsed actor context) t =
    (create env fresh now parsed actor context t).1
run_call env (mutating m input actor context) t = (mutate env m input actor context t).1

unfoldable pub run_calls : Environment → List Call → Tables → Tables
unfolding run_call
run_calls env [] t = t
run_calls env (c ∷ cs) t = run_calls env cs (run_call env c t)

abbrev pub recorded : ℕ → Option ContentRow → Bool
recorded n none = false
recorded n (some row) = ltb 0 n && leb n row.revision

-- The recorded revisions of a document are those from 1 to its current one.
abbrev pub IsHistory : Tables → Type 0
IsHistory t =
    (id n : ℕ)
    → any (is_revision id n) t.revisions ≡ recorded n (find_first (is_document id) t.content)

-- What the calls keep of the tables.
pub record IsSound (t : Tables) : Type 0 where
  pub table : IsRouteTable t.routes
  pub history : IsHistory t

recorded-update :
    (t u : Tables) (row row' : ContentRow)
    → IsHistoryStep row row' t.revisions u.revisions
    → (n : ℕ) → any (is_revision row.id n) t.revisions ≡ recorded n (some row)
    → any (is_revision row.id n) u.revisions ≡ recorded n (some row')
recorded-update t u row row' (inl (e, k)) n h = rw e (rw k h)
recorded-update t u row row' (inr (r, e, i, k, l)) n h =
    rw e (any-append (is_revision row.id n) t.revisions (r ∷ []) ∙ ground arith)

revisions_other :
    (row row' : ContentRow) (id n : ℕ) (t u : Tables)
    → row.id ≢ id
    → IsHistoryStep row row' t.revisions u.revisions
    → any (is_revision id n) u.revisions ≡ any (is_revision id n) t.revisions
revisions_other row row' id n t u differs (inl (e, k)) = rw e refl
revisions_other row row' id n t u differs (inr (r, e, i, k, l)) =
    rw e (any-append (is_revision id n) t.revisions (r ∷ []) ∙ ground arith)

mutated-IsHistory :
    (m : Mutation) (input : MutateInput) (actor : ℕ) (context : RequestContext) (t u : Tables)
    (d : LockedDocument)
    → IsMutated m input actor context t d u
    → IsHistory t
    → IsHistory u
mutated-IsHistory m input actor context t u d w h id n = elim (ℕ_discrete id w.row.id) [
  | yes e ↦ rw e (
      recorded-update t u w.row (w.set w.row) w.history n
        (h w.row.id n ∙ ap (recorded n) (IsAuthorized-stored w.authorized))
      ∙ sym (ap (recorded n) (IsMutated-stored w)))
  | no differs ↦
      revisions_other w.row (w.set w.row) id n t u (λ e. differs (sym e)) w.history
      ∙ h id n
      ∙ ap (recorded n) (
          sym (
            ap (find_first (is_document id)) w.content
            ∙ find_first-update_other (is_document id) (is_document w.row.id) w.set t.content
                (λ y q. (ground arith, ground (arith, w.keeps_id y)))))
]

created-IsHistory :
    (fresh now actor : ℕ) (context : RequestContext) (draft : Draft) (t u : Tables)
    (d : LockedDocument)
    → IsCreated fresh now actor context draft t d u
    → IsHistory t
    → IsHistory u
created-IsHistory fresh now actor context draft t u d w h id n =
    let row = inserted_row fresh now actor draft.0.slug draft.0.title draft.0.summary draft.1 in
    let r = revision_row fresh 1 draft actor in
    let absent : find_first (is_document fresh) t.content ≡ none =
      find_first-eq-none (λ k. k.id == fresh) (is_document fresh) t.content w.new_id
        (λ y q. ground arith) in
    let old = h id n in
    elim (ℕ_discrete id fresh) [
      | yes e ↦ rw w.tables (
          rw e (
            ground (
              arith,
              h fresh n,
              any-append (is_revision fresh n) t.revisions (r ∷ []),
              find_first-append_none (is_document fresh) t.content (row ∷ []) absent,
              eq_iff "document" "document",
            )))
      | no differs ↦ rw w.tables (
          any-append (is_revision id n) t.revisions (r ∷ [])
          ∙ ground (arith, find_first-append_other (is_document id) t.content row))
    ]

run_call-IsSound :
    (env : Environment) (c : Call) (t : Tables) → IsSound t → IsSound (run_call env c t)
unfolding run_call create
run_call-IsSound env (creating fresh now parsed actor context) t s =
    split (create env fresh now parsed actor context t) refl
  where
    split : (o : Outcome) → create env fresh now parsed actor context t ≡ o → IsSound o.1
    split (ok d, u) e =
        let (draft, _, h) =
          with_input-eq-ok (compile_draft env parsed) (create_tx env fresh now actor context) t e in
        let w = create_tx-eq-ok env fresh now actor context draft t h in
        record {
          table =
              rw (ap (λ (x : Tables). x.routes) w.tables)
                (ReservedRoutes-IsRouteTable w.reserved_slug s.table);
          history = created-IsHistory fresh now actor context draft t u d w s.history;
        }
    split (err x, u) e =
        rw
          (with_input-eq-err (compile_draft env parsed) (create_tx env fresh now actor context) t e)
          s
run_call-IsSound env (mutating m input actor context) t s =
    split (mutate env m input actor context t) refl
  where
    split : (o : Outcome) → mutate env m input actor context t ≡ o → IsSound o.1
    split (ok d, u) e =
        let w = mutate-IsMutated env m input actor context t e in
        record {
          table = w.table s.table;
          history = mutated-IsHistory m input actor context t u d w s.history;
        }
    split (err x, u) e = rw (mutate-eq-err env m input actor context t e) s

-- The tables stay sound in every sequence of calls, whether they succeed or fail: each slug has one
-- route at most, each document one canonical route at most, and the recorded revisions of every
-- document are exactly those from 1 to its current revision.
pub run_calls-IsSound :
    (env : Environment) (calls : List Call) (t : Tables)
    → IsSound t
    → IsSound (run_calls env calls t)
unfolding run_calls
run_calls-IsSound env [] t s = s
run_calls-IsSound env (c ∷ cs) t s =
    run_calls-IsSound env cs (run_call env c t) (run_call-IsSound env c t s)

run_call-IsPermanent :
    (env : Environment) (c : Call) (t : Tables) → IsPermanent t.routes (run_call env c t).routes
unfolding run_call create
run_call-IsPermanent env (creating fresh now parsed actor context) t =
    split (create env fresh now parsed actor context t) refl
  where
    split :
        (o : Outcome)
        → create env fresh now parsed actor context t ≡ o
        → IsPermanent t.routes o.1.routes
    split (ok d, u) e =
        let (draft, _, h) =
          with_input-eq-ok (compile_draft env parsed) (create_tx env fresh now actor context) t e in
        let w = create_tx-eq-ok env fresh now actor context draft t h in
        rw (ap (λ (x : Tables). x.routes) w.tables) (ReservedRoutes-IsPermanent w.reserved_slug)
    split (err x, u) e =
        rw
          (with_input-eq-err (compile_draft env parsed) (create_tx env fresh now actor context) t e)
          (IsPermanent-refl t.routes)
run_call-IsPermanent env (mutating m input actor context) t =
    split (mutate env m input actor context t) refl
  where
    split : (o : Outcome) → mutate env m input actor context t ≡ o → IsPermanent t.routes o.1.routes
    split (ok d, u) e = (mutate-IsMutated env m input actor context t e).permanent
    split (err x, u) e =
        rw (mutate-eq-err env m input actor context t e) (IsPermanent-refl t.routes)

-- A slug that is bound to a document stays bound to that document in every sequence of calls, and
-- its route only ever moves from reserved to canonical to alias.
pub run_calls-IsPermanent :
    (env : Environment) (calls : List Call) (t : Tables)
    → IsPermanent t.routes (run_calls env calls t).routes
unfolding run_calls
run_calls-IsPermanent env [] t = IsPermanent-refl t.routes
run_calls-IsPermanent env (c ∷ cs) t =
    IsPermanent-trans t.routes _ _ (run_call-IsPermanent env c t)
      (run_calls-IsPermanent env cs (run_call env c t))
