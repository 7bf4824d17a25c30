-- ===== src/Workforce/Mutations.antt =====
-- apps/web/src/server/admin/users.ts: the requests to the service, one after another.
use ai_agent_platform.Directory.Acting.{with_actor}
use ai_agent_platform.Base.{
  commit, String, ◌≡◌, refl, List, [], ◌∷◌, ok, err, Result, transaction, Option, none, some,
}
use ai_agent_platform.Identity.{Realm}
use ai_agent_platform.Access.Session.{Value}
use ai_agent_platform.Access.Model.{Access, WorkforceActor}
use ai_agent_platform.Directory.{Tables}
use ai_agent_platform.Workforce.Model.{access_error, WorkforceRole, WorkforceTx, Failure}
use ai_agent_platform.Workforce.Service.{
  Texts, CreateInput, with_role, create_user, set_role, add_role, remove_role, disable_user,
  reactivate_user, replace_temporary_password,
}

-- A request to the service, with the text of a role as it was sent.
pub data Mutation : Type 0 where
  create : String → CreateInput → Mutation
  set : String → String → Mutation
  add : String → String → Mutation
  remove : String → String → Mutation
  disable : String → Mutation
  reactivate : String → Mutation
  replace : String → String → Mutation

-- The tables after a request.
unfoldable pub mutate : Texts → (Realm → Value) → Mutation → Tables → Tables
unfolding create_user set_role add_role remove_role disable_user reactivate_user
    replace_temporary_password
mutate texts s (create fresh input) t = (create_user texts s fresh input t).1
mutate texts s (set id role) t = (set_role texts s id role t).1
mutate texts s (add id role) t = (add_role texts s id role t).1
mutate texts s (remove id role) t = (remove_role texts s id role t).1
mutate texts s (disable id) t = (disable_user texts s id t).1
mutate texts s (reactivate id) t = (reactivate_user texts s id t).1
mutate texts s (replace id password) t = (replace_temporary_password texts s id password t).1

abbrev pub mutate_all : Texts → List ((Realm → Value) × Mutation) → Tables → Tables
mutate_all texts [] t = t
mutate_all texts ((s, m) ∷ rest) t = mutate_all texts rest (mutate texts s m t)

-- A transaction that keeps a property of the tables, whatever its outcome.
module _ (P : Tables → Type 0) where
  pub transaction-keeps :
      {A : Type 0} (work : WorkforceTx A) (t : Tables)
      → ((a : A) (u : Tables) → work t ≡ ok (a, u) → P t → P u)
      → P t
      → P (transaction work t).1
  transaction-keeps {A} work t k h = split (work t) refl
    where
      split : (x : Result Failure (A × Tables)) → work t ≡ x → P (commit t x).1
      split (ok (a, u)) e = k a u e h
      split (err f) e = h

  pub actor-keeps :
      {A : Type 0} (access : Access WorkforceActor) (work : String → WorkforceTx A) (t : Tables)
      → ((actor : String) (a : A) (u : Tables) → work actor t ≡ ok (a, u) → P t → P u)
      → P t
      → P (with_actor access_error access work t).1
  actor-keeps (err e) work t k h = h
  actor-keeps (ok a) work t k h = transaction-keeps (work a.user_id) t (k a.user_id) h

  pub role-keeps :
      {A : Type 0} (role : Option WorkforceRole)
      (work : WorkforceRole → Tables → Result Failure A × Tables) (t : Tables)
      → ((r : WorkforceRole) → role ≡ some r → P (work r t).1)
      → P t
      → P (with_role role work t).1
  role-keeps none work t k h = h
  role-keeps (some r) work t k h = k r refl
