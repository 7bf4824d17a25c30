-- ===== src/Registration/Submission.antt =====
-- What a submission leaves in the tables.
use ai_agent_platform.Registration.Audit.{append_audit, append_audit-ok}
use ai_agent_platform.Base.{
  ◌&&◌, str_eq, String, Bool, true, false, ◌≡◌, refl, sym, ap, ◌∙◌, [], ◌∷◌, ◌++◌, any, Result, ok,
  err, >>=-elim, if◌then◌else◌,
}
use ai_agent_platform.Directory.{
  Tables, UserRow, AccountRow, insert_user, insert_account, is_user, same_email, same_username,
}
use ai_agent_platform.Registration.Model.{Failure, violation, RegistrationTx, Context}
use ai_agent_platform.Registration.Validation.{Submission}
use ai_agent_platform.Registration.Repository.{
  Drawn, create_user_and_credential, create_request, new_request, applicant,
}
use ai_agent_platform.Registration.Service.{submit_tx, Submitted}

-- A user who clashed with nobody was appended.
user_inserted :
    (lower : String → String) (x : UserRow) (t : Tables) {u : Tables}
    → (let m : RegistrationTx (Unit {0}) = insert_user violation lower x in m t ≡ ok (tt, u))
    → (any (is_user x.id) t.users ≡ false)
      × (any (same_email lower x) t.users ≡ false)
      × (u ≡ record t { users = t.users ++ x ∷ [] })
unfolding insert_user
user_inserted lower x t {u} h =
    split (any (is_user x.id) t.users) (any (same_email lower x) t.users)
      (any (λ v. same_username lower v.username x.username) t.users) h
  where
    split :
        (a b c : Bool)
        → (let r : Result Failure (Unit {0} × Tables) =
              if a
              then err (violation "users_pkey")
              else if b
              then err (violation "users_email_lower_unique")
              else if c
              then err (violation "users_username_lower_unique")
              else ok (tt, record t { users = t.users ++ x ∷ [] }) in
            r ≡ ok (tt, u))
        → (a ≡ false) × (b ≡ false) × (u ≡ record t { users = t.users ++ x ∷ [] })
    split true b c e = cc
    split false true c e = cc
    split false false true e = cc
    split false false false e = (refl, refl, cc)

account_inserted :
    (e : Failure) (a : AccountRow) (t : Tables) {u : Tables}
    → (let m : RegistrationTx (Unit {0}) = insert_account e a in m t ≡ ok (tt, u))
    → u ≡ record t { accounts = t.accounts ++ a ∷ [] }
unfolding insert_account
account_inserted e a t {u} h =
    split
      (any
        (λ (b : AccountRow). str_eq b.provider_id a.provider_id && str_eq b.account_id a.account_id)
        t.accounts)
      h
  where
    split :
        (b : Bool)
        → (let r : Result Failure (Unit {0} × Tables) =
              if b then err e else ok (tt, record t { accounts = t.accounts ++ a ∷ [] }) in
            r ≡ ok (tt, u))
        → u ≡ record t { accounts = t.accounts ++ a ∷ [] }
    split true k = cc
    split false k = cc

user_created :
    (lower : String → String) (x : UserRow) (hash : String) (t : Tables) {id : String} {v : Tables}
    → create_user_and_credential lower x hash t ≡ ok (id, v)
    → (any (is_user x.id) t.users ≡ false)
      × (any (same_email lower x) t.users ≡ false)
      × (id ≡ x.id)
      × (v.users ≡ t.users ++ x ∷ [])
      × (v.registrations ≡ t.registrations)
unfolding create_user_and_credential
user_created lower x hash t {id} {v} h = >>=-elim (insert_user violation lower x) _ t h λ y s p q.
    let (a, b, e) = user_inserted lower x t p in
    >>=-elim (insert_account _ _) _ s q λ z w p2 q2.
      let f = account_inserted _ _ s p2 in
      let key : x.id ≡ id = cc in
      let same : w ≡ v = cc in
      (
        a,
        b,
        sym key,
        ap Tables.users (sym same) ∙ ap Tables.users f ∙ ap Tables.users e,
        ap Tables.registrations (sym same) ∙ ap Tables.registrations f ∙ ap Tables.registrations e,
      )

request_created :
    (drawn : Drawn) (user_id company : String) (t : Tables) {id : String} {u : Tables}
    → create_request drawn user_id company t ≡ ok (id, u)
    → u ≡ record t { registrations = t.registrations ++ new_request drawn user_id company ∷ [] }
unfolding create_request
request_created drawn user_id company t h = cc

-- What a submission wrote: a pending user, an account and a pending request.
pub record IsSubmission (lower : String → String) (drawn : Drawn) (input : Submission)
    (t u : Tables) : Type 0 where
  pub new_id : any (is_user drawn.user_id) t.users ≡ false
  pub new_email :
      any (same_email lower (applicant drawn.user_id input.applicant_name input.email)) t.users
      ≡ false
  pub users : u.users ≡ t.users ++ applicant drawn.user_id input.applicant_name input.email ∷ []
  pub registrations :
      u.registrations ≡ t.registrations ++ new_request drawn drawn.user_id input.company_name ∷ []

pub submit_tx-IsSubmission :
    (lower : String → String) (drawn : Drawn) (input : Submission) (hash : String)
    (context : Context) (t : Tables) {a : Submitted} {u : Tables}
    → submit_tx lower drawn input hash context t ≡ ok (a, u)
    → IsSubmission lower drawn input t u
unfolding submit_tx
submit_tx-IsSubmission lower drawn input hash context t {a = result} {u} h =
    >>=-elim (create_user_and_credential lower x hash) _ t h λ id v p q.
      let (a, b, user_id, users, registrations) = user_created lower x hash t p in
      >>=-elim (create_request drawn id input.company_name) _ v q λ request_id w p2 q2.
        let requests = request_created drawn id input.company_name v p2 in
        >>=-elim (append_audit _) _ w q2 λ y z p3 q3.
          let same : z ≡ u = cc in
          let e = append_audit-ok _ w p3 in
          record {
            new_id = a;
            new_email = b;
            users =
                ap Tables.users (sym same) ∙ ap Tables.users e ∙ ap Tables.users requests ∙ users;
            registrations =
                ap Tables.registrations (sym same)
                ∙ ap Tables.registrations e
                ∙ ap Tables.registrations requests
                ∙ (λ i. registrations i ++ new_request drawn (user_id i) input.company_name ∷ []);
          }
  where
    x : UserRow
    x = applicant drawn.user_id input.applicant_name input.email
