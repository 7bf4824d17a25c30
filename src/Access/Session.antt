-- ===== src/Access/Session.antt =====
-- apps/web/src/server/auth/access.ts: what the service makes of a session that the authentication
-- library returns.
use ai_agent_platform.Base.{is_blank, not, String, ◌||◌, Option, none, some, str_eq, if◌then◌else◌}
use ai_agent_platform.Identity.{Realm, customer, workforce}
use ai_agent_platform.Access.Model.{AuthenticatedSession}

-- A value of unknown type: an object has its properties, `other` is any other value.
mutual
  pub data Value : Type 0 where
    text : String → Value
    object : Properties → Value
    other : Value

  pub data Properties : Type 0 where
    end : Properties
    property : String → Value → Properties → Properties

-- `value.name`; a property that is missing is `undefined`.
abbrev pub get : String → Properties → Value
get name end = other
get name (property key value rest) = if str_eq key name then value else get name rest

abbrev parse_realm : Value → Option Realm
parse_realm (text s) =
    if str_eq s "customer"
    then some customer
    else if str_eq s "workforce"
    then some workforce
    else none
parse_realm other = none
parse_realm (object p) = none

abbrev parse_user : Value → Value → Option Realm → Option AuthenticatedSession
parse_user (text user_id) (text session_user_id) (some realm) =
    if is_blank user_id || not (str_eq session_user_id user_id)
    then none
    else some (record { user_id = user_id; realm = realm })
parse_user _ _ _ = none

abbrev parse_records : Value → Value → Option AuthenticatedSession
parse_records (object user) (object session) =
    parse_user (get "id" user) (get "userId" session) (parse_realm (get "realm" session))
parse_records _ _ = none

unfoldable pub parse_authenticated_session : Value → Option AuthenticatedSession
parse_authenticated_session (object value) = parse_records (get "user" value) (get "session" value)
parse_authenticated_session _ = none
