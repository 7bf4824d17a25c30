-- ===== src/Registration/Approval.antt =====
-- What a review leaves behind, and who may make it.
use ai_agent_platform.Access.Model.{OrganizationRole}
use ai_agent_platform.Registration.Organizations.{IsChosen, IsRole}
use ai_agent_platform.Base.{
  ◌↔◌, ◌↔◌, ◌+◌, String, Bool, true, ◌&&◌, ◌≡◌, refl, List, [], ◌∷◌, ◌++◌, find_first, Option, some,
  ok, count_where,
}
use ai_agent_platform.Identity.{is_active, is_customer}
use ai_agent_platform.Directory.{
  is_permitted, Tables, UserRow, RegistrationRow, RegistrationStatus, is_user,
}
use ai_agent_platform.Registration.Model.{
  ReviewDecision, Organization, PublicStatus, map_public_status, map_database_status, status_text,
}
use ai_agent_platform.Registration.Validation.{Unicode, normalized_review_note}
use ai_agent_platform.Registration.Calls.{Review, approve, reject, run_review, actor_of}
use ai_agent_platform.Registration.Repository.{
  is_pending, Drawn, is_request, is_membership, is_member_of, approved_row,
}
use ai_agent_platform.Registration.Outcomes.{
  approve_registration-IsApproval, reject_registration-IsReview,
}

abbrev pub is_active_customer : String → UserRow → Bool
is_active_customer id u = is_user id u && (is_customer u.realm && is_active u.status)

-- The request is approved, one customer of its user became active, and the user is a member of the
-- organization of the decision, once, as its administrator if it had no member and else as the
-- decision says.
pub record IsApproved (unicode : Unicode) (decision : ReviewDecision) (drawn : Drawn)
    (actor : String) (t u : Tables) : Type 0 where
  pub row : RegistrationRow
  pub organization : Organization
  pub chosen : IsChosen unicode decision.organization organization t u
  pub role : OrganizationRole
  pub role_is :
      IsRole (count_where (is_member_of organization.id) t.memberships) decision.initial_role role
  pub note : Option String
  pub noted : normalized_review_note decision.review_note ≡ ok note
  pub was_pending : find_first (is_request decision.request_id) t.registrations ≡ some row
  pub pending : is_pending row.status ≡ true
  pub is_approved :
      find_first (is_request decision.request_id) u.registrations
      ≡ some (approved_row organization.id actor note drawn.now row)
  pub activated :
      count_where (is_active_customer row.user_id) u.users
      ≡ count_where (is_active_customer row.user_id) t.users + 1
  pub member_once : count_where (is_membership organization.id row.user_id) u.memberships ≡ 1
  pub member :
      u.memberships
      ≡ t.memberships
        ++ record {
          id = drawn.membership_id;
          user_id = row.user_id;
          organization_id = organization.id;
          role = role;
          assigned_by = some actor;
          created_at = drawn.now;
        }
          ∷ []

-- A request is approved or rejected only for an active account of the workforce with the permission
-- admin:registrations, as the tables have it when the review is made.
pub run_review-permitted :
    (unicode : Unicode) (r : Review) (t u : Tables)
    → run_review unicode r t ≡ (ok tt, u)
    → is_permitted t (actor_of r) "admin:registrations" ≡ true
unfolding run_review
run_review-permitted unicode (approve drawn decision actor context) t u h =
    let (note, c, n, a) =
      approve_registration-IsApproval unicode drawn decision actor context t h in
    a.review.permitted
run_review-permitted unicode (reject drawn id actor note context) t u h =
    let (text, c, n, v) = reject_registration-IsReview drawn id actor note context t h in
    v.permitted

-- A public status is read back from the text of its database status, and a database status is told
-- of as that public status exactly if it is the one the public status is mapped to.
pub map_status_roundtrip :
    (s : PublicStatus) (d : RegistrationStatus)
    → (map_database_status (status_text (map_public_status s)) ≡ some s)
      × ((map_database_status (status_text d) ≡ some s) ↔ (map_public_status s ≡ d))
unfolding map_database_status map_public_status
map_status_roundtrip PublicStatus.pending_review RegistrationStatus.pending_review =
    (refl, ((λ e. refl), λ e. refl))
map_status_roundtrip PublicStatus.pending_review RegistrationStatus.approved =
    (refl, ((λ e. cc), λ e. cc))
map_status_roundtrip PublicStatus.pending_review RegistrationStatus.rejected =
    (refl, ((λ e. cc), λ e. cc))
map_status_roundtrip PublicStatus.pending_review RegistrationStatus.cancelled =
    (refl, ((λ e. cc), λ e. cc))
map_status_roundtrip PublicStatus.active RegistrationStatus.pending_review =
    (refl, ((λ e. cc), λ e. cc))
map_status_roundtrip PublicStatus.active RegistrationStatus.approved =
    (refl, ((λ e. refl), λ e. refl))
map_status_roundtrip PublicStatus.active RegistrationStatus.rejected = (refl, ((λ e. cc), λ e. cc))
map_status_roundtrip PublicStatus.active RegistrationStatus.cancelled = (refl, ((λ e. cc), λ e. cc))
map_status_roundtrip PublicStatus.rejected RegistrationStatus.pending_review =
    (refl, ((λ e. cc), λ e. cc))
map_status_roundtrip PublicStatus.rejected RegistrationStatus.approved =
    (refl, ((λ e. cc), λ e. cc))
map_status_roundtrip PublicStatus.rejected RegistrationStatus.rejected =
    (refl, ((λ e. refl), λ e. refl))
map_status_roundtrip PublicStatus.rejected RegistrationStatus.cancelled =
    (refl, ((λ e. cc), λ e. cc))
