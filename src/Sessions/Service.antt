-- ===== src/Sessions/Service.antt =====
-- apps/web/src/server/admin/sessions.ts: the two services and the statements that they run.
use ai_agent_platform.Directory.Acting.{with_actor}
use ai_agent_platform.Base.{
  ℕ, String, Bool, not, ◌&&◌, Option, none, some, List, [], ◌∷◌, str_eq, ◌==◌, leb, if◌then◌else◌,
  find_first, keep_where, delete_where, count_where, sort_by, map, ok, err, Result, Tx, ◌>>=◌, ◌>>◌,
  return, throw_if, transaction, is_some, truthy,
}
use ai_agent_platform.Identity.{Realm, customer, workforce, realm_eq}
use ai_agent_platform.Access.Model.{AuthAccessError}
use ai_agent_platform.Access.Session.{Value}
use ai_agent_platform.Access.Service.{require_permission}
use ai_agent_platform.Directory.{
  Tables, UserRow, SessionRow, AuditRow, number_value, access_view, is_user, is_session_of,
  is_permitted, insert_audit,
}

pub data SessionErrorCode : Type 0 where
  permission_denied session_not_found realm_invalid : SessionErrorCode

pub data Failure : Type 0 where
  session_error : SessionErrorCode → Failure
  access_error : AuthAccessError → Failure

abbrev pub SessionTx : Type 0 → Type 0
SessionTx A = Tx Tables Failure A

-- `safeSession`: what is told of a session.
pub record SafeSession : Type 0 where
  pub id : String
  pub realm : Realm
  pub created_at : ℕ
  pub expires_at : ℕ
  pub ip_address : Option String
  pub user_agent : Option String

abbrev pub safe_session : SessionRow → SafeSession
safe_session s = record {
  id = s.id;
  realm = s.realm;
  created_at = s.created_at;
  expires_at = s.expires_at;
  ip_address = s.ip_address;
  user_agent = s.user_agent;
}

abbrev pub is_customer_session : String → SessionRow → Bool
is_customer_session user_id s = is_session_of user_id s && realm_eq s.realm customer

unfoldable pub list_customer_sessions : String → Tables → List SafeSession
list_customer_sessions user_id t = map safe_session (
    sort_by (λ (a b : SessionRow). leb a.created_at b.created_at)
      (keep_where (is_customer_session user_id) t.sessions))

-- `DELETE … RETURNING id`, and how many rows it returns.
unfoldable pub delete_sessions : (SessionRow → Bool) → SessionTx ℕ
delete_sessions p t =
    ok (count_where p t.sessions, record t { sessions = delete_where p t.sessions })

abbrev pub or_user : String → Option String → String
or_user user_id none = user_id
or_user user_id (some session_id) = session_id

abbrev pub audit_row : Realm → String → String → Option String → ℕ → AuditRow
audit_row realm actor target session_id revoked = record {
  actor_realm = realm;
  actor_user_id = actor;
  action = "session.revoked";
  target_type = "session";
  target_id = or_user target session_id;
  metadata = ("revokedCount", number_value revoked) ∷ [];
  ip_address = none;
  user_agent = none;
}

unfoldable pub write_audit : Realm → String → String → Option String → ℕ → SessionTx (Unit {0})
write_audit realm actor target session_id revoked =
    insert_audit (audit_row realm actor target session_id revoked)

abbrev pub is_owned : String → String → SessionRow → Bool
is_owned user_id session_id s = str_eq s.id session_id && is_customer_session user_id s

-- A customer revokes a session of their own.
unfoldable pub revoke_customer_tx : String → String → SessionTx (Unit {0})
revoke_customer_tx user_id session_id = do
  revoked ← delete_sessions (is_owned user_id session_id)
  throw_if (not (revoked == 1)) (session_error session_not_found)
  write_audit customer user_id user_id (some session_id) 1

unfoldable pub revoke_customer : String → String → Tables → Result Failure (Unit {0}) × Tables
unfolding revoke_customer_tx
revoke_customer user_id session_id = transaction (revoke_customer_tx user_id session_id)

abbrev pub target_found : Realm → Option UserRow → SessionTx (Unit {0})
target_found realm none t = err (session_error session_not_found)
target_found realm (some u) t =
    if not (realm_eq u.realm realm) then err (session_error realm_invalid) else ok (tt, t)

unfoldable pub require_target : String → Realm → SessionTx (Unit {0})
require_target user_id realm t = target_found realm (find_first (is_user user_id) t.users) t

unfoldable pub check_permission : String → SessionTx (Unit {0})
check_permission user_id t =
    throw_if (not (is_permitted t user_id "admin:users")) (session_error permission_denied) t

abbrev pub is_one : String → String → SessionRow → Bool
is_one user_id session_id s = str_eq s.id session_id && is_session_of user_id s

abbrev one_revoked : ℕ → SessionTx ℕ
one_revoked n = return (if n == 1 then 1 else 0)

-- One session, or all of the user's when none is named; an empty id names none.
unfoldable pub revoke_named : String → Option String → SessionTx ℕ
revoke_named user_id none = delete_sessions (is_session_of user_id)
revoke_named user_id (some session_id) = delete_sessions (is_one user_id session_id) >>= one_revoked

unfoldable pub mutate_tx : String → Realm → Option String → String → SessionTx ℕ
mutate_tx target realm session_id actor = do
  check_permission actor
  require_target target realm
  revoked ← revoke_named target (truthy session_id)
  throw_if (is_some (truthy session_id) && (revoked == 0)) (session_error session_not_found)
  write_audit workforce actor target session_id revoked
  return revoked

-- `mutate`, behind `revokeOne` and `revokeAll`.
unfoldable pub revoke :
    (Realm → Value) → String → Realm → Option String → Tables → Result Failure ℕ × Tables
unfolding mutate_tx
revoke get_session target realm session_id t =
    with_actor access_error (require_permission get_session (access_view t) "admin:users")
      (mutate_tx target realm session_id) t
