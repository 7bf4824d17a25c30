-- ===== src/Workforce/Privileges.antt =====
-- Who may change administrators, and why there is always one left.
use ai_agent_platform.Base.{
  find_first-eq-none, String, true, false, ◌≡◌, refl, sym, ap, ◌∙◌, List, [], ◌∷◌, str_eq, eq_iff,
  arith, any, ok, Option, none, some, Bool-cases, inl, inr,
}
use ai_agent_platform.Identity.{Realm}
use ai_agent_platform.Access.Session.{Value}
use ai_agent_platform.Access.Service.{require_permission}
use ai_agent_platform.Directory.{access_view, Tables, UserRow, is_user}
use ai_agent_platform.Workforce.Model.{
  parse_role, WorkforceRole, is_privileged, is_super_admin, WorkforceTx,
}
use ai_agent_platform.Workforce.Repository.{
  roles_from, find_target, targeted, list_roles, find_user,
}
use ai_agent_platform.Workforce.Service.{
  create_user_tx, set_role_tx, add_role_tx, remove_role_tx, disable_user_tx, reactivate_user_tx,
  replace_temporary_password_tx, Texts, is_acting, sensitive, create_user, set_role, add_role,
  remove_role, disable_user, reactivate_user, replace_temporary_password,
}
use ai_agent_platform.Workforce.Scope.{IsConfined}
use ai_agent_platform.Workforce.Guards.{is_active_workforce, has_super_admin}
use ai_agent_platform.Workforce.Operations.{
  create_user_tx-IsManaged, set_role_tx-IsManaged, add_role_tx-IsManaged, remove_role_tx-IsManaged,
  disable_user_tx-IsManaged, reactivate_user_tx-IsManaged, replace_temporary_password_tx-IsManaged,
  IsManaged,
}
use ai_agent_platform.Workforce.Mutations.{
  Mutation, create, set, add, remove, disable, reactivate, replace, mutate, mutate_all, actor-keeps,
  role-keeps,
}

-- An active account of the workforce with the role super_admin.
abbrev pub HasSuperAdmin : Tables → Type 0
HasSuperAdmin t = (id : String) × (is_active_workforce t id ≡ true) × (has_super_admin t id ≡ true)

acting_user :
    (t u : Tables) (o : Option UserRow) → is_acting (targeted t o) ≡ is_acting (targeted u o)
acting_user t u none = refl
acting_user t u (some x) = refl

-- Another account than the target is what it was.
acting_other :
    {target : String} {t u : Tables} (id : String)
    → IsConfined target t u
    → str_eq id target ≡ false
    → is_active_workforce u id ≡ is_active_workforce t id
unfolding find_target
acting_other {target} {t} {u} id c d =
    ap (λ o. is_acting (targeted u o)) (c.user_other id d) ∙ acting_user u t (find_user t id)

super_admin_other :
    {target : String} {t u : Tables} (id : String)
    → IsConfined target t u
    → str_eq id target ≡ false
    → has_super_admin u id ≡ has_super_admin t id
unfolding list_roles
super_admin_other id c d =
    λ i. any is_super_admin (roles_from (c.same_roles i) (c.links_other id d i))

stays :
    {target : String} {t u : Tables} (id : String)
    → IsConfined target t u
    → str_eq id target ≡ false
    → is_active_workforce t id ≡ true
    → has_super_admin t id ≡ true
    → HasSuperAdmin u
stays id c d a s = (id, acting_other id c d ∙ a, super_admin_other id c d ∙ s)

privileged_super_admin :
    (rs : List WorkforceRole) → any is_super_admin rs ≡ true → any is_privileged rs ≡ true
privileged_super_admin [] h = cc
privileged_super_admin (r ∷ rs) h = ground (arith, privileged_super_admin rs)

IsManaged-keeps :
    {actor target : String} {t u : Tables}
    → IsManaged actor target t u
    → HasSuperAdmin t
    → HasSuperAdmin u
IsManaged-keeps {actor} {target} {t} m (id, a, s) = elim (Bool-cases (str_eq id target)) [
  | inr d ↦ stays id m.confined d a s
  | inl e ↦
      stays actor m.confined m.differs m.acting
        (ground (arith, privileged_super_admin (list_roles t id), eq_iff id target, m.protected))
]

module _ (texts : Texts) (session : Realm → Value) (t : Tables) where
  keeps :
      {A : Type 0} (permission : String) (work : String → WorkforceTx A)
      → HasSuperAdmin t
      → ((actor : String) (a : A) (u : Tables) → work actor t ≡ ok (a, u) → HasSuperAdmin u)
      → HasSuperAdmin (sensitive texts session permission work t).1
  keeps permission work h k =
      actor-keeps HasSuperAdmin (require_permission session (access_view t) permission) work t
        (λ actor a u e q. k actor a u e) h

absent_other :
    (t : Tables) (fresh id : String)
    → any (is_user fresh) t.users ≡ false
    → is_active_workforce t id ≡ true
    → str_eq id fresh ≡ false
unfolding find_target
absent_other t fresh id absent h = elim (Bool-cases (str_eq id fresh)) [
  | inr d ↦ d
  | inl e ↦
      let same : id ≡ fresh = (eq_iff id fresh).0 e in
      let missing : find_user t id ≡ none =
        find_first-eq-none (is_user fresh) (is_user id) t.users absent
          (λ y q. ap (str_eq y.id) (sym same) ∙ q) in
      let idle : is_acting (targeted t (find_user t id)) ≡ false =
        ap (λ o. is_acting (targeted t o)) missing in
      cc
]

module _ (texts : Texts) (session : Realm → Value) (t : Tables) where
  mutate-keeps : (m : Mutation) → HasSuperAdmin t → HasSuperAdmin (mutate texts session m t)
  unfolding mutate create_user set_role add_role remove_role disable_user reactivate_user
      replace_temporary_password
  mutate-keeps (create fresh input) (id, a, s) =
      let h : HasSuperAdmin t = (id, a, s) in
      role-keeps HasSuperAdmin (parse_role input.initial_role)
        (λ r. sensitive texts session "admin:users" (create_user_tx texts fresh input r)) t
        (λ r q.
          keeps texts session t "admin:users" (create_user_tx texts fresh input r) h (λ actor b u e.
            let (c, g, w, n) = create_user_tx-IsManaged texts fresh input r actor t e in
            stays id c (absent_other t fresh id n a) a s))
        h
  mutate-keeps (set id role) h =
      role-keeps HasSuperAdmin (parse_role role)
        (λ r. sensitive texts session "admin:roles" (set_role_tx id r)) t
        (λ r q.
          keeps texts session t "admin:roles" (set_role_tx id r) h
            (λ actor a u e. IsManaged-keeps (set_role_tx-IsManaged id r actor t e).0 h))
        h
  mutate-keeps (add id role) h =
      role-keeps HasSuperAdmin (parse_role role)
        (λ r. sensitive texts session "admin:roles" (add_role_tx id r)) t
        (λ r q.
          keeps texts session t "admin:roles" (add_role_tx id r) h
            (λ actor a u e. IsManaged-keeps (add_role_tx-IsManaged id r actor t e).0 h))
        h
  mutate-keeps (remove id role) h =
      role-keeps HasSuperAdmin (parse_role role)
        (λ r. sensitive texts session "admin:roles" (remove_role_tx id r)) t
        (λ r q.
          keeps texts session t "admin:roles" (remove_role_tx id r) h
            (λ actor a u e. IsManaged-keeps (remove_role_tx-IsManaged id r actor t e).0 h))
        h
  mutate-keeps (disable id) h =
      keeps texts session t "admin:users" (disable_user_tx id) h
        (λ actor a u e. IsManaged-keeps (disable_user_tx-IsManaged id actor t e).0 h)
  mutate-keeps (reactivate id) h =
      keeps texts session t "admin:users" (reactivate_user_tx id) h
        (λ actor a u e. IsManaged-keeps (reactivate_user_tx-IsManaged id actor t e) h)
  mutate-keeps (replace id password) h =
      keeps texts session t "admin:users"
        (replace_temporary_password_tx id (texts.hash_password password)) h
        (λ actor a u e.
          IsManaged-keeps
            (replace_temporary_password_tx-IsManaged id (texts.hash_password password) actor t e).0
            h)

-- Whatever requests are made, in whatever order and by whoever is signed in, an active account of the
-- workforce with the role super_admin is left if there was one before.
pub mutate_all-keeps_super_admin :
    (texts : Texts) (requests : List ((Realm → Value) × Mutation)) (t : Tables)
    → HasSuperAdmin t
    → HasSuperAdmin (mutate_all texts requests t)
mutate_all-keeps_super_admin texts [] t h = h
mutate_all-keeps_super_admin texts ((s, m) ∷ rest) t h =
    mutate_all-keeps_super_admin texts rest (mutate texts s m t) (mutate-keeps texts s t m h)
