-- ===== src/Registration/Steps.antt =====
-- What each step of a review leaves for the rest when it succeeds.
use ai_agent_platform.Base.{
  String, Bool, true, false, not, ◌≡◌, refl, find_first, Option, none, some, Result, ok, err, ◌>>=◌,
  ◌>>◌, if◌then◌else◌,
}
use ai_agent_platform.Directory.{is_permitted, Tables, RegistrationRow}
use ai_agent_platform.Registration.Model.{
  Failure, RegistrationTx, refused, permission_denied, already_reviewed,
}
use ai_agent_platform.Registration.Repository.{
  assert_active_workforce_permission, is_request, is_pending, lock_request,
}
use ai_agent_platform.Registration.Service.{require_pending, pending_found}

module _ {A : Type 0} {r : A × Tables} where
  pub permitted-then :
      (user_id permission : String) (k : RegistrationTx A) (t : Tables)
      → (assert_active_workforce_permission user_id permission >> k) t ≡ ok r
      → (is_permitted t user_id permission ≡ true) × (k t ≡ ok r)
  unfolding assert_active_workforce_permission ◌>>=◌
  permitted-then user_id permission k t h = split (is_permitted t user_id permission) h
    where
      split :
          (b : Bool)
          → ((λ (s : Tables).
                  let x : Result Failure (Unit {0} × Tables) =
                    if not b then err (refused permission_denied) else ok (tt, s) in
                  x)
                >> k)
              t
            ≡ ok r
          → (b ≡ true) × (k t ≡ ok r)
      split true e = (refl, e)
      split false e = cc

  pub require_pending-then :
      (id : String) (f : RegistrationRow → RegistrationTx A) (t : Tables)
      → (require_pending id >>= f) t ≡ ok r
      → (q : RegistrationRow) × (find_first (is_request id) t.registrations ≡ some q)
        × (is_pending q.status ≡ true)
        × (f q t ≡ ok r)
  unfolding require_pending lock_request ◌>>=◌
  require_pending-then id f t h = split (find_first (is_request id) t.registrations) refl h
    where
      split :
          (o : Option RegistrationRow)
          → find_first (is_request id) t.registrations ≡ o
          → (pending_found o >>= f) t ≡ ok r
          → (q : RegistrationRow) × (find_first (is_request id) t.registrations ≡ some q)
            × (is_pending q.status ≡ true)
            × (f q t ≡ ok r)
      split none e k = cc
      split (some q) e k = branch (is_pending q.status) refl k
        where
          branch :
              (b : Bool)
              → is_pending q.status ≡ b
              → ((λ (s : Tables).
                      let x : Result Failure (RegistrationRow × Tables) =
                        if not b then err (refused already_reviewed) else ok (q, s) in
                      x)
                    >>= f)
                  t
                ≡ ok r
              → (q : RegistrationRow) × (find_first (is_request id) t.registrations ≡ some q)
                × (is_pending q.status ≡ true)
                × (f q t ≡ ok r)
          branch true w l = (q, e, w, l)
          branch false w l = cc
