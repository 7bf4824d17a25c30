-- ===== src/Sessions/Selection.antt =====
-- admin/sessions.ts: which sessions a request selects, and what the statements do with them.
use ai_agent_platform.Directory.Acting.{insert_audit-ok}
use ai_agent_platform.Base.{
  ◌≢◌, ◌↔◌, eq_iff, truthy, str_eq, ℕ, String, Bool, true, false, ◌≡◌, refl, sym, ◌∙◌, Option, none,
  some, [], ◌∷◌, ◌++◌, arith, delete_where, count_where, ok, if◌then◌else◌,
}
use ai_agent_platform.Identity.{Realm, customer, realm_eq_iff}
use ai_agent_platform.Directory.{number_value, Tables, SessionRow, AuditRow, is_session_of}
use ai_agent_platform.Sessions.Service.{delete_sessions, audit_row, write_audit, is_owned, is_one}

-- The rows of which `Selected` holds are gone, `revoked` of them, the others stay in their order,
-- and the audit log has one event more.
pub record IsRevoked (Selected : SessionRow → Type 0) (revoked : ℕ) (event : AuditRow)
    (t u : Tables) : Type 0 where
  pub selected : SessionRow → Bool
  pub selects : (s : SessionRow) → (selected s ≡ true) ↔ Selected s
  pub sessions : u.sessions ≡ delete_where selected t.sessions
  pub counted : revoked ≡ count_where selected t.sessions
  pub audit : u.audit ≡ t.audit ++ event ∷ []
  pub users : u.users ≡ t.users

-- The event of a revocation of so many sessions by an account of the realm.
abbrev pub revocation_event : Realm → String → String → ℕ → AuditRow
revocation_event realm actor target_id revoked = record {
  actor_realm = realm;
  actor_user_id = actor;
  action = "session.revoked";
  target_type = "session";
  target_id = target_id;
  metadata = ("revokedCount", number_value revoked) ∷ [];
  ip_address = none;
  user_agent = none;
}

-- The session of this id, if it is the user's and a customer's.
abbrev pub IsOwn : String → String → SessionRow → Type 0
IsOwn user_id session_id s = (s.id ≡ session_id) × (s.user_id ≡ user_id) × (s.realm ≡ customer)

-- A session of the user, and the one of the id if an id is given that is not empty.
abbrev pub IsNamed : String → Option String → SessionRow → Type 0
IsNamed user_id session_id s =
    (s.user_id ≡ user_id) × ((id : String) → session_id ≡ some id → id ≢ "" → s.id ≡ id)

pub is_owned_iff :
    (user_id session_id : String) (s : SessionRow)
    → (is_owned user_id session_id s ≡ true) ↔ IsOwn user_id session_id s
is_owned_iff user_id session_id s =
    let id = eq_iff s.id session_id in
    let user = eq_iff s.user_id user_id in
    let realm = realm_eq_iff s.realm customer in
    (
      (λ h. (ground (arith, id, h), ground (arith, user, h), ground (arith, realm, h))),
      (λ (a, b, c). ground (arith, id, user, realm)),
    )

abbrev pub named : String → Option String → SessionRow → Bool
named user_id none s = is_session_of user_id s
named user_id (some session_id) s = is_one user_id session_id s

some_eq : (a b : String) → some b ≡ some a → a ≡ b
some_eq a b e = cc

named-some_iff :
    (target id : String) (b : Bool) (s : SessionRow)
    → str_eq id "" ≡ b
    → (named target (if b then none else some id) s ≡ true) ↔ IsNamed target (some id) s
named-some_iff target id true s e = (
  (λ h. (
    (eq_iff s.user_id target).0 h,
    (λ k same d. absurd (d (some_eq k id same ∙ (eq_iff id "").0 e))),
  )),
  (λ (a, b). (eq_iff s.user_id target).1 a),
)
named-some_iff target id false s e = (
  (λ h. (
    ground (arith, eq_iff s.user_id target, h),
    (λ k same d.
        let own : s.id ≡ id = ground (arith, eq_iff s.id id, h) in own ∙ sym (some_eq k id same)),
  )),
  (λ (a, b).
      let own : s.id ≡ id = b id refl (λ blank. ground (arith, eq_iff id "", e)) in
      ground (arith, eq_iff s.id id, eq_iff s.user_id target)),
)

pub named_iff :
    (target : String) (session_id : Option String) (s : SessionRow)
    → (named target (truthy session_id) s ≡ true) ↔ IsNamed target session_id s
named_iff target none s = (
  (λ h. ((eq_iff s.user_id target).0 h, λ k same d. cc)),
  λ (a, b). (eq_iff s.user_id target).1 a,
)
named_iff target (some id) s = named-some_iff target id (str_eq id "") s refl

pub audited :
    (realm : Realm) (actor target : String) (session_id : Option String) (n : ℕ) (t : Tables)
    {u : Tables}
    → write_audit realm actor target session_id n t ≡ ok (tt, u)
    → u ≡ record t { audit = t.audit ++ audit_row realm actor target session_id n ∷ [] }
unfolding write_audit
audited realm actor target session_id n t h =
    insert_audit-ok (audit_row realm actor target session_id n) t h

pub deleted :
    (p : SessionRow → Bool) (t : Tables) {n : ℕ} {u : Tables}
    → delete_sessions p t ≡ ok (n, u)
    → (n ≡ count_where p t.sessions) × (u ≡ record t { sessions = delete_where p t.sessions })
unfolding delete_sessions
deleted p t h = (cc, cc)
