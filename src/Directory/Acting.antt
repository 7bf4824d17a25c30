-- ===== src/Directory/Acting.antt =====
-- Requests of signed-in staff: the services of apps/web/src/server/admin ask the access service who
-- acts, and then run their transaction.
use ai_agent_platform.Base.{
  String, Result, ok, err, Tx, transaction, transaction-eq-ok, ◌≡◌, refl, [], ◌∷◌, ◌++◌,
}
use ai_agent_platform.Access.Model.{Access, AuthAccessError, WorkforceActor}
use ai_agent_platform.Directory.{Tables, AuditRow, insert_audit}

module _ {E A : Type 0} (denied : AuthAccessError → E) where
  -- `requireSensitiveAction` names the actor; a refusal of it is thrown on.
  abbrev pub with_actor :
      Access WorkforceActor → (String → Tx Tables E A) → Tables → Result E A × Tables
  with_actor (err e) work t = (err (denied e), t)
  with_actor (ok a) work t = transaction (work a.user_id) t

  -- A request that succeeds is the transaction of the actor that the access service named.
  pub with_actor-ok :
      (access : Access WorkforceActor) (work : String → Tx Tables E A) (t : Tables) {a : A}
      {u : Tables}
      → with_actor access work t ≡ (ok a, u)
      → (actor : WorkforceActor) × (access ≡ ok actor) × (work actor.user_id t ≡ ok (a, u))
  with_actor-ok (err e) work t h = cc
  with_actor-ok (ok actor) work t h = (actor, refl, transaction-eq-ok (work actor.user_id) t h)

-- An event is appended to the audit log.
pub insert_audit-ok :
    {E : Type 0} (a : AuditRow) (t : Tables) {u : Tables}
    → (let m : Tx Tables E (Unit {0}) = insert_audit a in m t ≡ ok (tt, u))
    → u ≡ record t { audit = t.audit ++ a ∷ [] }
unfolding insert_audit
insert_audit-ok a t h = cc
