-- ===== src/Identity.antt =====
-- packages/database/src/identity-policy.ts: realms, account states and the policy between them.
use ai_agent_platform.Base.{refl, ◌↔◌, ◌≡◌, Bool, true, false, List, [], ◌∷◌, ◌&&◌, ◌||◌, any}

pub data Realm : Type 0 where
  customer workforce : Realm

pub data UserStatus : Type 0 where
  pending_review active disabled rejected : UserStatus

-- The realm that a role is for; a global one is for no single realm.
pub data RoleScope : Type 0 where
  customer_scope workforce_scope global_scope : RoleScope

pub data Application : Type 0 where
  onboarding console : Application

abbrev pub is_customer : Realm → Bool
is_customer customer = true
is_customer workforce = false

abbrev pub is_workforce : Realm → Bool
is_workforce customer = false
is_workforce workforce = true

abbrev pub realm_eq : Realm → Realm → Bool
realm_eq customer r = is_customer r
realm_eq workforce r = is_workforce r

pub realm_eq_iff : (r s : Realm) → (realm_eq r s ≡ true) ↔ (r ≡ s)
realm_eq_iff customer customer = ((λ e. refl), λ e. refl)
realm_eq_iff customer workforce = ((λ e. cc), λ e. cc)
realm_eq_iff workforce customer = ((λ e. cc), λ e. cc)
realm_eq_iff workforce workforce = ((λ e. refl), λ e. refl)

abbrev pub in_scope : RoleScope → Realm → Bool
in_scope customer_scope realm = is_customer realm
in_scope workforce_scope realm = is_workforce realm
in_scope global_scope realm = false

abbrev pub is_pending_review : UserStatus → Bool
is_pending_review pending_review = true
is_pending_review _ = false

abbrev pub is_active : UserStatus → Bool
is_active active = true
is_active _ = false

abbrev pub is_disabled : UserStatus → Bool
is_disabled disabled = true
is_disabled _ = false

abbrev pub is_rejected : UserStatus → Bool
is_rejected rejected = true
is_rejected _ = false

abbrev pub status_eq : UserStatus → UserStatus → Bool
status_eq pending_review s = is_pending_review s
status_eq active s = is_active s
status_eq disabled s = is_disabled s
status_eq rejected s = is_rejected s

abbrev pub is_onboarding : Application → Bool
is_onboarding onboarding = true
is_onboarding console = false

abbrev pub is_console : Application → Bool
is_console onboarding = false
is_console console = true

abbrev allowed_transitions : UserStatus → List UserStatus
allowed_transitions pending_review = active ∷ rejected ∷ []
allowed_transitions active = disabled ∷ []
allowed_transitions disabled = active ∷ []
allowed_transitions rejected = []

unfoldable pub can_assign_role : Realm → Realm → Bool
can_assign_role user_realm role_realm = realm_eq user_realm role_realm

unfoldable pub can_enter_application : Realm → UserStatus → Application → Bool
can_enter_application realm status application =
    is_customer realm
    && ((is_pending_review status || is_rejected status) && is_onboarding application
        || is_active status && is_console application)

unfoldable pub can_transition : UserStatus → UserStatus → Bool
can_transition from to = any (status_eq to) (allowed_transitions from)
