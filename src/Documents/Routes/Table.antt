-- ===== src/Documents/Routes/Table.antt =====
-- The changes of `content_routes` keep its unique indexes, and publishing leaves one canonical slug.
use mathlib.Core.Path.{subst}
use native.Mathlib.Decide.{ℕ_discrete}
use ai_agent_platform.Base.{
  Bool-cases, inl, inr, none, ℕ, ◌+◌, ◌≤◌, ◌≡◌, ◌≢◌, refl, String, Bool, false, List, ◌∷◌, [], ◌++◌,
  str_eq, eq_iff, find_first, any, count_where, update_where, count_where-append,
  count_where-update, count_where-update_gain, count_where-eq-zero, count_where_mono,
  any-eq-false_of_none, arith, count_where_pos,
}
use ai_agent_platform.Documents.Model.{RouteRow, RouteState, reserved, canonical, alias}
use ai_agent_platform.Documents.Repository.{
  is_canonical_of, is_canonical_route, is_reserved_route, set_state,
}
use ai_agent_platform.Documents.Routes.{
  has_slug, ReservedRoutes, held, bound, promoted, demoted, PublishedRoutes, unchanged, first,
  moved, IsRouteTable,
}

-- A promotion adds the promoted rows to the canonical ones of their document, and to no other's.
promoted-count :
    (slug : String) (id : ℕ) (routes : List RouteRow)
    → count_where (is_canonical_of id) (promoted slug id routes)
      ≡ count_where (is_canonical_of id) routes + count_where (is_reserved_route slug id) routes
promoted-count slug id routes =
    count_where-update_gain _ _ _ routes (λ y h. (ground arith, ground arith))

promoted-count_other :
    (slug : String) (id other : ℕ) (routes : List RouteRow)
    → other ≢ id
    → count_where (is_canonical_of other) (promoted slug id routes)
      ≡ count_where (is_canonical_of other) routes
promoted-count_other slug id other routes d =
    count_where-update (is_canonical_of other) (is_reserved_route slug id) (set_state canonical)
      routes (λ y h. ground arith)

demoted-count :
    (slug : String) (id other : ℕ) (routes : List RouteRow)
    → count_where (is_canonical_of other) (demoted slug id routes)
      ≤ count_where (is_canonical_of other) routes
demoted-count slug id other [] = omega arith
demoted-count slug id other (r ∷ routes) = ground (arith, demoted-count slug id other routes)

count_slug :
    (q : RouteRow → Bool) (state : RouteState) (slug : String) (routes : List RouteRow)
    → count_where (has_slug slug) (update_where q (set_state state) routes)
      ≡ count_where (has_slug slug) routes
count_slug q state slug routes = count_where-update _ q _ routes (λ y h. refl)

promoted-IsRouteTable :
    (slug : String) (id : ℕ) (routes : List RouteRow)
    → IsRouteTable routes
    → any (is_canonical_of id) routes ≡ false
    → count_where (is_reserved_route slug id) routes ≡ 1
    → IsRouteTable (promoted slug id routes)
promoted-IsRouteTable slug id routes w none_yet c = record {
  one_binding =
      λ s. rw (count_slug (is_reserved_route slug id) canonical s routes) (w.one_binding s);
  one_canonical = λ other. elim (ℕ_discrete other id) [
    | yes e ↦
        rw e (omega (arith, promoted-count slug id routes, count_where-eq-zero _ routes none_yet))
    | no d ↦ rw (promoted-count_other slug id other routes d) (w.one_canonical other)
  ];
}

demoted-IsRouteTable :
    (slug : String) (id : ℕ) (routes : List RouteRow)
    → IsRouteTable routes
    → IsRouteTable (demoted slug id routes)
demoted-IsRouteTable slug id routes w = record {
  one_binding = λ s. rw (count_slug (is_canonical_route slug id) alias s routes) (w.one_binding s);
  one_canonical = λ other. omega (arith, demoted-count slug id other routes, w.one_canonical other);
}

pub PublishedRoutes-IsRouteTable :
    {slug : String} {id : ℕ} {routes routes' : List RouteRow}
    → PublishedRoutes slug id routes routes'
    → IsRouteTable routes
    → IsRouteTable routes'
PublishedRoutes-IsRouteTable (unchanged c e) w = rw e w
PublishedRoutes-IsRouteTable {slug} {id} {routes} (first n c e) w =
    rw e (promoted-IsRouteTable slug id routes w n c)
PublishedRoutes-IsRouteTable {slug} {id} {routes} (moved old d c k n e) w =
    rw e (promoted-IsRouteTable slug id _ (demoted-IsRouteTable old id routes w) n k)

-- A slug that is not bound may be bound.
bound_count :
    (slug s : String) (id : ℕ) (routes : List RouteRow)
    → find_first (has_slug slug) routes ≡ none
    → count_where (has_slug s) routes ≤ 1
    → count_where
        (has_slug s)
        (routes ++ record { slug = slug; content_id = id; state = reserved } ∷ [])
      ≤ 1
bound_count slug s id routes n w = elim (Bool-cases (str_eq slug s)) [
  | inl e ↦
      subst
        (λ k.
          count_where (has_slug k)
            (routes ++ record { slug = slug; content_id = id; state = reserved } ∷ [])
          ≤ 1)
        ((eq_iff slug s).0 e)
        (ground (
          arith,
          count_where-append (has_slug slug) routes
              (record { slug = slug; content_id = id; state = reserved } ∷ []),
          count_where-eq-zero (has_slug slug) routes (any-eq-false_of_none _ routes n),
        ))
  | inr e ↦ ground (
    arith,
    count_where-append (has_slug s) routes
        (record { slug = slug; content_id = id; state = reserved } ∷ []),
  )
]

pub ReservedRoutes-IsRouteTable :
    {slug : String} {id : ℕ} {routes routes' : List RouteRow}
    → ReservedRoutes slug id routes routes'
    → IsRouteTable routes
    → IsRouteTable routes'
ReservedRoutes-IsRouteTable (held r f o s e) w = rw e w
ReservedRoutes-IsRouteTable {slug} {id} {routes} (bound f e) w = rw e record {
  one_binding = λ s. bound_count slug s id routes f (w.one_binding s);
  one_canonical = λ other. ground (
    arith,
    count_where-append (is_canonical_of other) routes
        (record { slug = slug; content_id = id; state = reserved } ∷ []),
    w.one_canonical other,
  );
}

canonical_route-le :
    (slug : String) (id : ℕ) (routes : List RouteRow)
    → count_where (is_canonical_route slug id) routes ≤ count_where (is_canonical_of id) routes
canonical_route-le slug id routes = count_where_mono _ _ routes (λ y h. ground arith)

promoted-canonical :
    (slug : String) (id : ℕ) (routes : List RouteRow)
    → any (is_canonical_of id) routes ≡ false
    → count_where (is_reserved_route slug id) routes ≡ 1
    → (count_where (is_canonical_of id) (promoted slug id routes) ≡ 1)
      × (count_where (is_canonical_route slug id) (promoted slug id routes) ≡ 1)
promoted-canonical slug id routes n c =
    let zero_before = count_where-eq-zero _ routes n in
    let gain =
      count_where-update_gain (is_canonical_route slug id) (is_reserved_route slug id)
        (set_state canonical) routes (λ y h. (ground arith, ground arith)) in
    (omega (arith, promoted-count slug id routes), omega (arith, canonical_route-le slug id routes))

-- The document has one canonical route, and it is the published slug's.
pub PublishedRoutes-canonical :
    {slug : String} {id : ℕ} {routes routes' : List RouteRow}
    → PublishedRoutes slug id routes routes'
    → IsRouteTable routes
    → (count_where (is_canonical_of id) routes' ≡ 1)
      × (count_where (is_canonical_route slug id) routes' ≡ 1)
PublishedRoutes-canonical {slug} {id} {routes} (unchanged c e) w =
    let some_route = count_where_pos _ routes c in
    rw e (
      omega (arith, canonical_route-le slug id routes, w.one_canonical id),
      omega (arith, canonical_route-le slug id routes, w.one_canonical id),
    )
PublishedRoutes-canonical {slug} {id} {routes} (first n c e) w =
    rw e (promoted-canonical slug id routes n c)
PublishedRoutes-canonical {slug} {id} {routes} (moved old d c k n e) w =
    rw e (promoted-canonical slug id _ n k)
