-- ===== src/Registration/Review.antt =====
-- A successful review: by whom, of which request, and what became of it.
use mathlib.Core.Path.{subst}
use ai_agent_platform.Registration.Steps.{permitted-then, require_pending-then}
use ai_agent_platform.Registration.Choices.{
  choose_organization-then, find_customer_role-then, add_membership_and_role-then, review-then,
}
use ai_agent_platform.Registration.Audit.{append_audit-ok}
use ai_agent_platform.Base.{
  eq_iff, find_first-holds, String, true, false, ◌≡◌, ap, ◌∙◌, [], ◌∷◌, ◌++◌, any, find_first,
  count_where, Option, some, ok, update_where,
}
use ai_agent_platform.Identity.{UserStatus}
use ai_agent_platform.Directory.{is_permitted, Tables, UserRow, RegistrationRow}
use ai_agent_platform.Registration.Model.{ReviewDecision, Context, Organization}
use ai_agent_platform.Registration.Validation.{Unicode}
use ai_agent_platform.Registration.Repository.{
  Drawn, is_request, is_pending, is_pending_request, is_pending_customer, approved_row,
  rejected_row, is_membership,
}
use ai_agent_platform.Registration.Service.{
  approve_tx, reject_tx, approve_request_and_activate_user, reject_request_and_user,
  find_organization, role_for, new_membership,
}

-- The request `row` was pending, and became `change row`; its user became one of the status.
pub record IsReview (id actor : String) (change : RegistrationRow → RegistrationRow)
    (status : UserStatus) (t u : Tables) : Type 0 where
  pub row : RegistrationRow
  pub permitted : is_permitted t actor "admin:registrations" ≡ true
  pub found : find_first (is_request id) t.registrations ≡ some row
  pub pending : is_pending row.status ≡ true
  pub registrations : u.registrations ≡ update_where (is_pending_request id) change t.registrations
  pub one : count_where (is_pending_customer row.user_id) t.users ≡ 1
  pub users :
      u.users
      ≡ update_where
          (is_pending_customer row.user_id)
          (λ (x : UserRow). record x { status = status })
          t.users

pub reject_tx-IsReview :
    (drawn : Drawn) (id note : String) (context : Context) (actor : String) (t : Tables)
    {u : Tables}
    → reject_tx drawn id note context actor t ≡ ok (tt, u)
    → IsReview id actor (rejected_row actor note drawn.now) UserStatus.rejected t u
unfolding reject_tx reject_request_and_user
reject_tx-IsReview drawn id note context actor t {u} h =
    let (p, h1) = permitted-then _ _ _ t h in
    let (row, found, pending, h2) = require_pending-then _ _ t h1 in
    let (one, h3) = review-then _ _ _ _ _ _ t h2 in
    let e = append_audit-ok _ _ h3 in
    record {
      row = row;
      permitted = p;
      found = found;
      pending = pending;
      registrations = ap Tables.registrations e;
      one = one;
      users = ap Tables.users e;
    }

-- What an approval adds to a review.
pub record IsApproval (unicode : Unicode) (drawn : Drawn) (decision : ReviewDecision)
    (actor : String) (note : Option String) (t u : Tables) : Type 0 where
  pub organization : Organization
  pub between : Tables
  pub chosen :
      find_organization unicode drawn decision.organization t ≡ ok (some organization, between)
  pub role_id : String
  pub review :
      IsReview decision.request_id actor
        (approved_row organization.id actor note drawn.now)
        UserStatus.active
        t
        u
  pub absent : any (is_membership organization.id review.row.user_id) t.memberships ≡ false
  pub memberships :
      u.memberships
      ≡ t.memberships
        ++ new_membership drawn organization review.row
            (role_for organization decision.initial_role)
            actor
          ∷ []
  pub user_roles :
      u.user_roles
      ≡ t.user_roles
        ++ record { user_id = review.row.user_id; role_id = role_id; assigned_by = some actor } ∷ []
  pub organizations : u.organizations ≡ between.organizations
  pub roles : u.roles ≡ t.roles

pub approve_tx-IsApproval :
    (unicode : Unicode) (drawn : Drawn) (decision : ReviewDecision) (note : Option String)
    (context : Context) (actor : String) (t : Tables) {u : Tables}
    → approve_tx unicode drawn decision note context actor t ≡ ok (tt, u)
    → IsApproval unicode drawn decision actor note t u
unfolding approve_tx approve_request_and_activate_user
approve_tx-IsApproval unicode drawn decision note context actor t {u} h =
    let (p, h1) = permitted-then _ _ _ t h in
    let (row, found, pending, h2) = require_pending-then _ _ t h1 in
    let (o, s, (rows, frame), chosen, h3) = choose_organization-then _ _ _ _ t h2 in
    let (role_id, h4) = find_customer_role-then _ _ s h3 in
    let (absent, h5) = add_membership_and_role-then _ _ _ s h4 in
    let (one, h6) = review-then _ _ _ _ _ _ _ h5 in
    let e = append_audit-ok _ _ h6 in
    let key : row.id ≡ decision.request_id =
      (eq_iff row.id decision.request_id).0
        (find_first-holds (is_request decision.request_id) t.registrations row found) in
    record {
      organization = o;
      between = s;
      chosen = chosen;
      role_id = role_id;
      review = record {
        row = row;
        permitted = p;
        found = found;
        pending = pending;
        registrations = ap Tables.registrations e ∙ (λ i.
            update_where (is_pending_request (key i)) (approved_row o.id actor note drawn.now)
              (frame i).registrations);
        one =
            subst (λ (v : Tables). count_where (is_pending_customer row.user_id) v.users ≡ 1) frame
              one;
        users = ap Tables.users e ∙ (λ i.
            update_where (is_pending_customer row.user_id)
              (λ (x : UserRow). record x { status = UserStatus.active }) (frame i).users);
      };
      absent =
          subst (λ (v : Tables). any (is_membership o.id row.user_id) v.memberships ≡ false) frame
            absent;
      memberships = ap Tables.memberships e ∙ (λ i.
          (frame i).memberships
          ++ new_membership drawn o row (role_for o decision.initial_role) actor ∷ []);
      user_roles = ap Tables.user_roles e ∙ (λ i.
          (frame i).user_roles
          ++ record { user_id = row.user_id; role_id = role_id; assigned_by = some actor } ∷ []);
      organizations = ap Tables.organizations e;
      roles = ap Tables.roles e ∙ ap Tables.roles frame;
    }
