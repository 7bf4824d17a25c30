-- ===== src/Sessions/Customers.antt =====
-- The service of admin/sessions.ts by which a customer revokes a session of their own.
use ai_agent_platform.Sessions.Selection.{
  revocation_event, IsRevoked, IsOwn, is_owned_iff, audited, deleted,
}
use ai_agent_platform.Base.{
  commit, transaction-eq-err, throw_if, ◌≢◌, ◌↔◌, String, Bool, true, false, not, ◌≡◌, refl, sym,
  ap, ◌∙◌, some, [], ◌∷◌, ◌++◌, ◌==◌, ==_iff, arith, delete_where, count_where, ok, err, Result,
  ◌>>=◌, ◌>>◌, >>=-elim, throw_if-then, not-eq-false, transaction-eq-ok,
}
use ai_agent_platform.Identity.{customer}
use ai_agent_platform.Directory.{Tables, SessionRow, insert_audit}
use ai_agent_platform.Sessions.Service.{
  Failure, session_error, session_not_found, delete_sessions, audit_row, write_audit, is_owned,
  revoke_customer, revoke_customer_tx,
}

revoke_customer-IsRevoked :
    (user_id session_id : String) (t u : Tables)
    → revoke_customer user_id session_id t ≡ (ok tt, u)
    → IsRevoked (IsOwn user_id session_id) 1 (revocation_event customer user_id session_id 1) t u
unfolding revoke_customer revoke_customer_tx
revoke_customer-IsRevoked user_id session_id t u h =
    >>=-elim (delete_sessions (is_owned user_id session_id)) _ t
      (transaction-eq-ok (revoke_customer_tx user_id session_id) t h)
      λ n v p q.
        let (counted, e) = deleted (is_owned user_id session_id) t p in
        let (one, k) = throw_if-then _ _ _ v q in
        let f = audited customer user_id user_id (some session_id) 1 v k in
        record {
          selected = is_owned user_id session_id;
          selects = is_owned_iff user_id session_id;
          sessions = ap Tables.sessions f ∙ ap Tables.sessions e;
          counted = sym ((==_iff n 1).0 (not-eq-false _ one)) ∙ counted;
          audit =
              ap Tables.audit f
              ∙ (λ i. (e i).audit ++ audit_row customer user_id user_id (some session_id) 1 ∷ []);
          users = ap Tables.users f ∙ ap Tables.users e;
        }

-- Not one session, and one only, is the customer's of that id.
pub record IsMissing (user_id session_id : String) (t : Tables) : Type 0 where
  pub selected : SessionRow → Bool
  pub selects : (s : SessionRow) → (selected s ≡ true) ↔ IsOwn user_id session_id s
  pub not_one : count_where selected t.sessions ≢ 1

-- What a customer's revocation has done, and what a refusal of it says.
abbrev pub IsOutcome : String → String → Tables → Tables → Result Failure (Unit {0}) → Type 0
IsOutcome user_id session_id t u (ok _) =
    IsRevoked (IsOwn user_id session_id) 1 (revocation_event customer user_id session_id 1) t u
IsOutcome user_id session_id t u (err e) =
    (u ≡ t) × (e ≡ session_error session_not_found) × IsMissing user_id session_id t

missing :
    (user_id session_id : String) (t u : Tables) (e : Failure)
    → revoke_customer user_id session_id t ≡ (err e, u)
    → ((count_where (is_owned user_id session_id) t.sessions == 1) ≡ false)
      × (e ≡ session_error session_not_found)
unfolding revoke_customer revoke_customer_tx delete_sessions write_audit insert_audit ◌>>=◌
missing user_id session_id t u e h =
    split (count_where (is_owned user_id session_id) t.sessions == 1) h
  where
    split :
        (b : Bool)
        → commit t (
            (throw_if (not b) (session_error session_not_found)
                >> write_audit customer user_id user_id (some session_id) 1)
              (record t { sessions = delete_where (is_owned user_id session_id) t.sessions }))
          ≡ (err e, u)
        → (b ≡ false) × (e ≡ session_error session_not_found)
    split true k = cc
    split false k = (refl, cc)

-- A customer's revocation of a session succeeds when one row has the id, is theirs and is a
-- customer's, and then removes that row and no other, with an audit event; otherwise it fails with
-- session_not_found and writes nothing.
pub revoke_customer-IsOutcome :
    (user_id session_id : String) (t u : Tables) (r : Result Failure (Unit {0}))
    → revoke_customer user_id session_id t ≡ (r, u)
    → IsOutcome user_id session_id t u r
unfolding revoke_customer
revoke_customer-IsOutcome user_id session_id t u (ok _) h =
    revoke_customer-IsRevoked user_id session_id t u h
revoke_customer-IsOutcome user_id session_id t u (err e) h =
    let (none_or_more, says) = missing user_id session_id t u e h in
    (
      transaction-eq-err (revoke_customer_tx user_id session_id) t h,
      says,
      record {
        selected = is_owned user_id session_id;
        selects = is_owned_iff user_id session_id;
        not_one =
            λ one. ground (arith, ==_iff (count_where (is_owned user_id session_id) t.sessions) 1);
      },
    )
