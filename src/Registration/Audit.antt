-- ===== src/Registration/Audit.antt =====
-- apps/web/src/server/auth/audit.ts, as registration/repository.ts calls it: the writer checks an
-- event before it is inserted. The events of registrations have a fixed target type and metadata of
-- the allowed values, so that only their texts can be refused.
use Prim.Native.String.{◌++◌ as text_append}
use Prim.Native.Char.{code}
use ai_agent_platform.Base.{
  ℕ, String, Bool, true, false, not, ◌&&◌, ◌||◌, Option, none, some, [], ◌∷◌, ◌++◌, ◌==◌, leb, ok,
  err, ◌≡◌, if◌then◌else◌, units, is_empty,
}
use ai_agent_platform.Directory.{Tables, AuditRow, insert_audit}
use ai_agent_platform.Directory.Acting.{insert_audit-ok}
use ai_agent_platform.Registration.Model.{error, RegistrationTx}

-- `CONTROL_CHARACTERS.test(text)`.
abbrev pub has_control : String → Bool
has_control String.[] = false
has_control (String.◌∷◌ c rest) = leb (code c) 31 || (code c == 127) || has_control rest

-- Whether `boundedString` accepts the text.
unfoldable pub is_bounded : ℕ → String → Bool
is_bounded maximum text = not (is_empty text) && leb (units text) maximum && not (has_control text)

abbrev is_bounded_option : ℕ → Option String → Bool
is_bounded_option maximum none = true
is_bounded_option maximum (some text) = is_bounded maximum text

-- The field for which `validateInput` throws.
unfoldable pub invalid_field : AuditRow → Option String
unfolding is_bounded
invalid_field a =
    if not (is_bounded 128 a.actor_user_id)
    then some "actor.userId"
    else if not (is_bounded 128 a.target_id)
    then some "target.id"
    else if not (is_bounded_option 64 a.ip_address)
    then some "ipAddress"
    else if not (is_bounded_option 512 a.user_agent)
    then some "userAgent"
    else none

abbrev pub written : Option String → AuditRow → RegistrationTx (Unit {0})
written (some field) a t = err (error (text_append "Invalid audit field: " field))
written none a t = insert_audit a t

-- `appendAudit`.
unfoldable pub append_audit : AuditRow → RegistrationTx (Unit {0})
unfolding invalid_field
append_audit a t = written (invalid_field a) a t

written-ok :
    (field : Option String) (a : AuditRow) (t : Tables) {u : Tables}
    → written field a t ≡ ok (tt, u)
    → u ≡ record t { audit = t.audit ++ a ∷ [] }
written-ok (some field) a t h = cc
written-ok none a t h = insert_audit-ok a t h

-- An event that is accepted is appended to the audit log.
pub append_audit-ok :
    (a : AuditRow) (t : Tables) {u : Tables}
    → append_audit a t ≡ ok (tt, u)
    → u ≡ record t { audit = t.audit ++ a ∷ [] }
unfolding append_audit
append_audit-ok a t h = written-ok (invalid_field a) a t h
