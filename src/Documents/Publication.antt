-- ===== src/Documents/Publication.antt =====
-- What `publish` has checked and written when it succeeds.
use mathlib.Core.Option
use mathlib.Core.Path.{subst}
use ai_agent_platform.Base.{
  ◌+◌, option_is, ℕ, ◌≡◌, refl, sym, ◌∙◌, String, true, false, ◌&&◌, Option, none, some, List, ok,
  str_eq, eq_iff, find_first, any, count_where, ◌>>=◌, ◌>>◌, >>=-elim, Bool-cases, Option-cases,
  inl, inr, not-eq-false, any_of_find_first, find_first-holds, any_of_found, count_where-eq-zero,
  arith,
}
use ai_agent_platform.Documents.Model.{
  ContentRow, MutateInput, RequestContext, document_published, RouteRow, RouteState, Tables,
  DocumentTx, LockedDocument, Clock, is_published, is_canonical,
}
use ai_agent_platform.Documents.Repository.{
  locked_document, is_document, is_revision, is_route, is_canonical_of, is_canonical_route,
  is_reserved_route, lock_route_state, lock_canonical_slug, demote_canonical_to_alias,
  promote_reserved_to_canonical, publish_document, update_document, set_published,
}
use ai_agent_platform.Documents.Service.{
  Environment, admin_docs, finish, publish_tx, demote_old, is_route_state, route_for_publication,
}
use ai_agent_platform.Documents.Steps.{
  IsAuthorized, IsAuthorized-stored, authorized_lock-then, throw_if-then, throw_if-eq-ok,
}
use ai_agent_platform.Documents.Routes.{promoted, demoted, PublishedRoutes, unchanged, first, moved}
use ai_agent_platform.Documents.Inversion.{IsWritten, is_some-eq-false, update-finish-IsWritten}

demote-eq-ok :
    (slug : String) (id : ℕ) (t : Tables) {x : Unit {0}} {u : Tables}
    → demote_canonical_to_alias slug id t ≡ ok (x, u)
    → (count_where (is_canonical_route slug id) t.routes ≡ 1)
      × (u ≡ record t { routes = demoted slug id t.routes })
unfolding demote_canonical_to_alias
demote-eq-ok slug id t h = ground arith

promote-eq-ok :
    (slug : String) (id : ℕ) (t : Tables) {x : Unit {0}} {u : Tables}
    → promote_reserved_to_canonical slug id t ≡ ok (x, u)
    → (any (is_canonical_of id) t.routes ≡ false)
      × (count_where (is_reserved_route slug id) t.routes ≡ 1)
      × (u ≡ record t { routes = promoted slug id t.routes })
unfolding promote_reserved_to_canonical
promote-eq-ok slug id t h = ground (arith, count_where-eq-zero (is_reserved_route slug id) t.routes)

-- The route that the lock has found is the slug's canonical one.
canonical_target :
    (slug : String) (id : ℕ) (routes : List RouteRow)
    → is_route_state is_canonical (Option.map (λ r. r.state) (find_first (is_route slug id) routes))
      ≡ true
    → any (is_canonical_route slug id) routes ≡ true
canonical_target slug id routes h = elim (Option-cases (find_first (is_route slug id) routes)) [
  | inl e ↦ cc (subst (λ o. is_route_state is_canonical (Option.map (λ r. r.state) o) ≡ true) e h)
  | inr (r, e) ↦
      let found_canonical =
        subst (λ o. is_route_state is_canonical (Option.map (λ r. r.state) o) ≡ true) e h in
      let is_found = find_first-holds (is_route slug id) routes r e in
      any_of_found (is_route slug id) (is_canonical_route slug id) routes r e
        (rw is_found found_canonical)
]

-- The route of `slug` is the document's canonical one, and the other tables are as they were.
abbrev pub IsRouted : String → ℕ → Tables → Tables → Type 0
IsRouted slug id t u =
    (routes : List RouteRow) × PublishedRoutes slug id t.routes routes
    × (u ≡ record t { routes = routes })

promote_after :
    (slug old : String) (id : ℕ) (t : Tables) {x : Unit {0}} {u : Tables}
    → str_eq old slug ≡ false
    → count_where (is_canonical_route old id) t.routes ≡ 1
    → promote_reserved_to_canonical slug id (record t { routes = demoted old id t.routes })
      ≡ ok (x, u)
    → IsRouted slug id t u
promote_after slug old id t differs c h =
    let (n, k, e) = promote-eq-ok slug id _ h in
    (
      promoted slug id (demoted old id t.routes),
      moved old (λ same. cc (sym differs ∙ (eq_iff old slug).1 same)) c k n refl,
      e,
    )

-- Another slug is canonical: it becomes an alias.
taken_over :
    (slug : String) (id : ℕ) (t : Tables) (old : String) {x : Unit {0}} {u : Tables}
    → any (is_canonical_of id) t.routes ≡ true
    → str_eq old slug ≡ false
    → (demote_old (some old) id >> promote_reserved_to_canonical slug id) t ≡ ok (x, u)
    → IsRouted slug id t u
taken_over slug id t old {x} {u} some_canonical differs h = >>=-elim _ _ t h λ _ t₁ p q.
    elim (Bool-cases (str_eq old "")) [
      | inl empty ↦
          let same : t₁ ≡ t = ground arith in
          let (n, _, _) = promote-eq-ok slug id t₁ q in
          cc (sym (subst (λ s. any (is_canonical_of id) s.routes ≡ false) same n) ∙ some_canonical)
      | inr named ↦
          let (c, e) = demote-eq-ok old id t (rw named at p) in
          promote_after slug old id t differs c
            (subst (λ s. promote_reserved_to_canonical slug id s ≡ ok (x, u)) e q)
    ]

route_for_publication-IsRouted :
    (slug : String) (id : ℕ) (t : Tables) (canonical_route : Option RouteRow) {x : Unit {0}}
    {u : Tables}
    → find_first (is_canonical_of id) t.routes ≡ canonical_route
    → route_for_publication slug id
        (Option.map (λ r. r.state) (find_first (is_route slug id) t.routes))
        (Option.map (λ r. r.slug) canonical_route)
        t
      ≡ ok (x, u)
    → IsRouted slug id t u
unfolding route_for_publication
route_for_publication-IsRouted slug id t none {x} {u} f h =
    let (_, h₁) = throw_if-then _ _ _ t h in
    >>=-elim _ _ t h₁ λ _ t₁ p q.
      let (n, k, e) =
        promote-eq-ok slug id t
          (subst (λ s. promote_reserved_to_canonical slug id s ≡ ok (x, u)) (ground arith) q) in
      (promoted slug id t.routes, first n k refl, e)
route_for_publication-IsRouted slug id t (some r) f h = elim (Bool-cases (str_eq r.slug slug)) [
  | inl same ↦
      let (shown, e) = throw_if-eq-ok _ _ t (rw same at h) in
      (t.routes, unchanged (canonical_target slug id t.routes (not-eq-false _ shown)) refl, e)
  | inr differs ↦
      let (_, h₁) = throw_if-then _ _ _ t (rw differs at h) in
      taken_over slug id t r.slug (any_of_find_first _ t.routes r f) differs h₁
]

module _ {r : LockedDocument × Tables} where
  lock_route_state-then :
      (slug : String) (id : ℕ) (t : Tables) (f : Option RouteState → DocumentTx LockedDocument)
      → (lock_route_state slug id >>= f) t ≡ ok r
      → f (Option.map (λ r. r.state) (find_first (is_route slug id) t.routes)) t ≡ ok r
  unfolding lock_route_state ◌>>=◌
  lock_route_state-then slug id t f h =
      elim (Option-cases (find_first (is_route slug id) t.routes)) [
        | inl e ↦ rw e (rw (e, lock_route_state, ◌>>=◌) at h)
        | inr (_, e) ↦ rw e (rw (e, lock_route_state, ◌>>=◌) at h)
      ]

  lock_canonical_slug-then :
      (id : ℕ) (t : Tables) (f : Option String → DocumentTx LockedDocument)
      → (lock_canonical_slug id >>= f) t ≡ ok r
      → f (Option.map (λ r. r.slug) (find_first (is_canonical_of id) t.routes)) t ≡ ok r
  unfolding lock_canonical_slug ◌>>=◌
  lock_canonical_slug-then id t f h =
      elim (Option-cases (find_first (is_canonical_of id) t.routes)) [
        | inl e ↦ rw e (rw (e, lock_canonical_slug, ◌>>=◌) at h)
        | inr (_, e) ↦ rw e (rw (e, lock_canonical_slug, ◌>>=◌) at h)
      ]

  publish_document-then :
      (f : LockedDocument → DocumentTx LockedDocument) (clock : Clock)
      (id revision row_version actor : ℕ) (t : Tables)
      → any (is_document id) t.content ≡ true
      → (publish_document clock id revision row_version actor >>= f) t ≡ ok r
      → (any (is_revision id revision) t.revisions ≡ true)
        × ((update_document id (set_published clock revision row_version actor) >>= f) t ≡ ok r)
  unfolding publish_document ◌>>=◌
  publish_document-then f clock id revision row_version actor t s h =
      elim (Bool-cases (any (is_revision id revision) t.revisions)) [
        | inl e ↦ (e, rw (s, e, publish_document, ◌>>=◌) at h)
        | inr e ↦ cc (rw (s, e, publish_document, ◌>>=◌) at h)
      ]

-- The part of `publish` behind its checks.
publish_checked :
    (env : Environment) (clock : Clock) (actor : ℕ) (context : RequestContext) (t : Tables)
    (row : ContentRow) {d : LockedDocument} {u : Tables}
    → find_first (is_document row.id) t.content ≡ some row
    → (do
      target ← lock_route_state row.slug row.id
      canonical_slug ← lock_canonical_slug row.id
      route_for_publication row.slug row.id target canonical_slug
      updated ← publish_document clock row.id row.revision (row.row_version + 1) actor
      finish env document_published actor context updated)
        t
      ≡ ok (d, u)
    → (any (is_revision row.id row.revision) t.revisions ≡ true)
      × ((routes : List RouteRow) × PublishedRoutes row.slug row.id t.routes routes
          × IsWritten
              (set_published clock row.revision (row.row_version + 1) actor)
              row
              t.revisions
              routes
              document_published
              actor
              context
              t
              d
              u)
publish_checked env clock actor context t row {d} {u} stored h =
    let h₁ = lock_route_state-then row.slug row.id t _ h in
    let h₂ = lock_canonical_slug-then row.id t _ h₁ in
    >>=-elim _ _ t h₂ λ _ t₁ p q.
      let (routes, published, e) = route_for_publication-IsRouted row.slug row.id t _ refl p in
      let s : Tables = record t { routes = routes } in
      let (recorded, h₃) =
        publish_document-then (λ updated. finish env document_published actor context updated) clock
          row.id row.revision (row.row_version + 1) actor s
          (any_of_find_first _ t.content row stored)
          (subst
            (λ k.
              (publish_document clock row.id row.revision (row.row_version + 1) actor >>= λ updated.
              finish env document_published actor context updated)
                k
              ≡ ok (d, u))
            e q) in
      let w = update-finish-IsWritten env _ document_published actor context s row stored h₃ in
      (recorded, (routes, published, record { result = w.result; tables = w.tables }))

pub publish_tx-eq-ok :
    (env : Environment) (clock : Clock) (actor : ℕ) (context : RequestContext) (input : MutateInput)
    (t : Tables) {d : LockedDocument} {u : Tables}
    → publish_tx env clock actor context input t ≡ ok (d, u)
    → (row : ContentRow) × IsAuthorized actor input admin_docs t row
      × (row.deleted_at ≡ none)
      × (is_published row.status && option_is row.published_revision row.revision ≡ false)
      × (any (is_revision row.id row.revision) t.revisions ≡ true)
      × ((routes : List RouteRow) × PublishedRoutes row.slug row.id t.routes routes
          × IsWritten
              (set_published clock row.revision (row.row_version + 1) actor)
              row
              t.revisions
              routes
              document_published
              actor
              context
              t
              d
              u)
unfolding publish_tx locked_document
publish_tx-eq-ok env clock actor context input t h =
    let (row, a, h₁) = authorized_lock-then _ actor input admin_docs t h in
    let (kept, h₂) = throw_if-then _ _ _ t h₁ in
    let (fresh, h₃) = throw_if-then _ _ _ t h₂ in
    let (recorded, written) =
      publish_checked env clock actor context t row (IsAuthorized-stored a) h₃ in
    (row, a, is_some-eq-false _ kept, fresh, recorded, written)
