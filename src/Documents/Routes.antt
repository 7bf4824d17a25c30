-- ===== src/Documents/Routes.antt =====
-- How an operation changes `content_routes`, and what every such change keeps.
pub mod Table
use ai_agent_platform.Base.{
  ℕ, ◌≤◌, ◌≡◌, ◌≢◌, refl, ◌∙◌, String, Bool, true, false, ◌||◌, none, some, List, ◌∷◌, [], ◌++◌,
  str_eq, find_first, find_first-append, find_first-update, any, count_where, update_where, arith,
  if◌then◌else◌,
}
use ai_agent_platform.Documents.Model.{
  RouteRow, RouteState, reserved, canonical, alias, is_reserved, is_canonical,
}
use ai_agent_platform.Documents.Repository.{
  is_canonical_of, is_canonical_route, is_reserved_route, set_state,
}

abbrev pub has_slug : String → RouteRow → Bool
has_slug slug r = str_eq r.slug slug

-- The slug was bound to the document already, or is bound to it now.
pub data ReservedRoutes (slug : String) (id : ℕ) (routes routes' : List RouteRow) : Type 0 where
  held :
      (r : RouteRow)
      → find_first (has_slug slug) routes ≡ some r
      → r.content_id ≡ id
      → (is_reserved r.state || is_canonical r.state) ≡ true
      → routes' ≡ routes
      → ReservedRoutes slug id routes routes'
  bound :
      find_first (has_slug slug) routes ≡ none
      → routes' ≡ routes ++ record { slug = slug; content_id = id; state = reserved } ∷ []
      → ReservedRoutes slug id routes routes'

abbrev pub promoted : String → ℕ → List RouteRow → List RouteRow
promoted slug id = update_where (is_reserved_route slug id) (set_state canonical)

abbrev pub demoted : String → ℕ → List RouteRow → List RouteRow
demoted slug id = update_where (is_canonical_route slug id) (set_state alias)

-- The slug was the canonical one, becomes the first canonical one, or takes over from another.
pub data PublishedRoutes (slug : String) (id : ℕ) (routes routes' : List RouteRow) : Type 0 where
  unchanged :
      any (is_canonical_route slug id) routes ≡ true
      → routes' ≡ routes
      → PublishedRoutes slug id routes routes'
  first :
      any (is_canonical_of id) routes ≡ false
      → count_where (is_reserved_route slug id) routes ≡ 1
      → routes' ≡ promoted slug id routes
      → PublishedRoutes slug id routes routes'
  moved :
      (old : String)
      → old ≢ slug
      → count_where (is_canonical_route old id) routes ≡ 1
      → count_where (is_reserved_route slug id) (demoted old id routes) ≡ 1
      → any (is_canonical_of id) (demoted old id routes) ≡ false
      → routes' ≡ promoted slug id (demoted old id routes)
      → PublishedRoutes slug id routes routes'

-- What the primary key and the partial unique index say.
pub record IsRouteTable (routes : List RouteRow) : Type 0 where
  pub one_binding : (slug : String) → count_where (has_slug slug) routes ≤ 1
  pub one_canonical : (id : ℕ) → count_where (is_canonical_of id) routes ≤ 1

-- A route goes from reserved to canonical to alias.
abbrev pub rank : RouteState → ℕ
rank reserved = 0
rank canonical = 1
rank alias = 2

-- Every slug that was bound is bound to the same document, and its route has not gone back.
abbrev pub IsPermanent : List RouteRow → List RouteRow → Type 0
IsPermanent routes routes' =
    (slug : String) (r : RouteRow)
    → find_first (has_slug slug) routes ≡ some r
    → (r' : RouteRow) × (find_first (has_slug slug) routes' ≡ some r')
      × (r'.content_id ≡ r.content_id)
      × (rank r.state ≤ rank r'.state)

pub IsPermanent-refl : (routes : List RouteRow) → IsPermanent routes routes
IsPermanent-refl routes slug r h = (r, h, refl, omega arith)

pub IsPermanent-trans :
    (a b c : List RouteRow) → IsPermanent a b → IsPermanent b c → IsPermanent a c
IsPermanent-trans a b c p q slug r h =
    let (r₁, h₁, e₁, l₁) = p slug r h in
    let (r₂, h₂, e₂, l₂) = q slug r₁ h₁ in (r₂, h₂, e₂ ∙ e₁, omega arith)

-- An update of states that goes forward on the rows that it touches.
update-IsPermanent :
    (q : RouteRow → Bool) (state : RouteState) (routes : List RouteRow)
    → ((r : RouteRow) → q r ≡ true → rank r.state ≤ rank state)
    → IsPermanent routes (update_where q (set_state state) routes)
update-IsPermanent q state routes forward slug r h = (
  (if q r then set_state state r else r),
  find_first-update (has_slug slug) q (set_state state) routes (λ y _. refl) ∙ rw h,
  ground arith,
  ground (arith, forward r),
)

promoted-IsPermanent :
    (slug : String) (id : ℕ) (routes : List RouteRow) → IsPermanent routes (promoted slug id routes)
promoted-IsPermanent slug id routes = update-IsPermanent _ canonical routes (λ r h. ground arith)

demoted-IsPermanent :
    (slug : String) (id : ℕ) (routes : List RouteRow) → IsPermanent routes (demoted slug id routes)
demoted-IsPermanent slug id routes = update-IsPermanent _ alias routes (λ r h. ground arith)

pub ReservedRoutes-IsPermanent :
    {slug : String} {id : ℕ} {routes routes' : List RouteRow}
    → ReservedRoutes slug id routes routes'
    → IsPermanent routes routes'
ReservedRoutes-IsPermanent {routes} (held r f o s e) = rw e (IsPermanent-refl routes)
ReservedRoutes-IsPermanent {routes} (bound f e) =
    rw e λ slug r h. (r, find_first-append _ routes _ r h, refl, omega arith)

pub PublishedRoutes-IsPermanent :
    {slug : String} {id : ℕ} {routes routes' : List RouteRow}
    → PublishedRoutes slug id routes routes'
    → IsPermanent routes routes'
PublishedRoutes-IsPermanent {routes} (unchanged c e) = rw e (IsPermanent-refl routes)
PublishedRoutes-IsPermanent {slug} {id} {routes} (first n c e) =
    rw e (promoted-IsPermanent slug id routes)
PublishedRoutes-IsPermanent {slug} {id} {routes} (moved old d c k n e) = rw e (
    IsPermanent-trans routes _ _ (demoted-IsPermanent old id routes)
      (promoted-IsPermanent slug id _))
