-- ===== src/Documents/Publishing.antt =====
-- What a published document looks like to a reader.
use ai_agent_platform.Base.{refl, ℕ, ◌≡◌, ok, some, any, count_where, true, transaction-eq-ok}
use ai_agent_platform.Documents.Model.{
  Tables, LockedDocument, MutateInput, RequestContext, Clock, published,
}
use ai_agent_platform.Documents.Repository.{
  locked_document, is_revision, is_canonical_of, is_canonical_route,
}
use ai_agent_platform.Documents.Service.{Environment, success, publish, publish_tx}
use ai_agent_platform.Documents.Routes.{IsRouteTable}
use ai_agent_platform.Documents.Routes.Table.{PublishedRoutes-canonical}
use ai_agent_platform.Documents.Publication.{publish_tx-eq-ok}

-- After a successful publication the document is published at its current revision, which is
-- recorded, and exactly one canonical route leads to it: the one of its current slug.
pub publish-canonical :
    (env : Environment) (clock : Clock) (input : MutateInput) (actor : ℕ) (context : RequestContext)
    (t u : Tables) (d : LockedDocument)
    → IsRouteTable t.routes
    → publish env clock (success input) actor context t ≡ (ok d, u)
    → (d.status ≡ published)
      × (d.published_revision ≡ some d.revision)
      × (any (is_revision d.id d.revision) u.revisions ≡ true)
      × (count_where (is_canonical_of d.id) u.routes ≡ 1)
      × (count_where (is_canonical_route d.slug d.id) u.routes ≡ 1)
unfolding publish locked_document
publish-canonical env clock input actor context t u d table h =
    let (row, _, _, _, recorded, (routes, routing, w)) =
      publish_tx-eq-ok env clock actor context input t
        (transaction-eq-ok (publish_tx env clock actor context input) t h) in
    let (one, own) = PublishedRoutes-canonical routing table in
    rw (w.result, w.tables) (refl, refl, recorded, one, own)
