-- ===== src/Registration/Finality.antt =====
-- A request is reviewed once.
use ai_agent_platform.Registration.Model.{Failure, Context}
use ai_agent_platform.Registration.Service.{
  admitted, validated, submit_registration, submit_tx, Submitted, Submitted, submit_tx,
}
use ai_agent_platform.Registration.Validation.{validate_submission, Submission, Submission, Unicode}
use mathlib.Core.Option.{map as option_map}
use mathlib.Core.Path.{subst}
use ai_agent_platform.Base.{
  ◌≢◌, List, [], transaction, Option, ◌∷◌, commit, truthy, find_first-append, sym, err, Result,
  some, str_eq, String, true, false, ◌≡◌, refl, ap, ◌∙◌, find_first, ok, if◌then◌else◌,
  find_first-update, arith, find_first-holds,
}
use ai_agent_platform.Registration.Calls.{
  run_calls, submit, review, Call, run_call, Review, approve, reject, request_of, run_review,
}
use ai_agent_platform.Directory.{Tables, RegistrationRow}
use ai_agent_platform.Registration.Repository.{
  new_request, Drawn, approved_row, rejected_row, approved_row, is_request, is_pending,
  is_pending_request,
}
use ai_agent_platform.Registration.Submission.{IsSubmission, submit_tx-IsSubmission}
use ai_agent_platform.Registration.Review.{IsReview}
use ai_agent_platform.Registration.Outcomes.{
  run_review-err, approve_registration-IsApproval, reject_registration-IsReview,
}
use ai_agent_platform.Identity.{UserStatus}

-- The request has been reviewed, and this is what was recorded.
pub record IsReviewed (id : String) (row : RegistrationRow) (t : Tables) : Type 0 where
  pub found : find_first (is_request id) t.registrations ≡ some row
  pub closed : is_pending row.status ≡ false

-- What a review does to any request: a reviewed one stays as it is.
IsReview-keeps :
    {id actor key : String} {change : RegistrationRow → RegistrationRow} {status : UserStatus}
    {t u : Tables} {row : RegistrationRow}
    → ((r : RegistrationRow) → (change r).id ≡ r.id)
    → IsReview id actor change status t u
    → IsReviewed key row t
    → IsReviewed key row u
IsReview-keeps {id} {actor} {key} {change} {status} {t} {u} {row} same v k = record {
  found =
      ap (find_first (is_request key)) v.registrations
      ∙ find_first-update (is_request key) (is_pending_request id) change t.registrations
          (λ y q. ap (λ x. str_eq x key) (same y))
      ∙ ap (option_map (λ y. if is_pending_request id y then change y else y)) k.found
      ∙ ground (arith, k.closed);
  closed = k.closed;
}

-- The request of a review is reviewed.
pub IsReview-closes :
    {id actor : String} {change : RegistrationRow → RegistrationRow} {status : UserStatus}
    {t u : Tables}
    → ((r : RegistrationRow) → (change r).id ≡ r.id)
    → ((r : RegistrationRow) → is_pending (change r).status ≡ false)
    → (v : IsReview id actor change status t u) → IsReviewed id (change v.row) u
IsReview-closes {id} {actor} {change} {status} {t} {u} same closes v = record {
  found =
      ap (find_first (is_request id)) v.registrations
      ∙ find_first-update (is_request id) (is_pending_request id) change t.registrations
          (λ y q. ap (λ x. str_eq x id) (same y))
      ∙ ap (option_map (λ y. if is_pending_request id y then change y else y)) v.found
      ∙ ground (arith, v.pending, find_first-holds (is_request id) t.registrations v.row v.found);
  closed = closes v.row;
}

-- A successful call that reviews a request.
run_review-closes :
    (unicode : Unicode) (r : Review) (t : Tables) {u : Tables}
    → run_review unicode r t ≡ (ok tt, u)
    → (row : RegistrationRow) × IsReviewed (request_of r) row u
unfolding run_review
run_review-closes unicode (approve drawn decision actor context) t h =
    let (note, c, n, a) =
      approve_registration-IsApproval unicode drawn decision actor context t h in
    (
      approved_row a.organization.id actor.user_id note drawn.now a.review.row,
      IsReview-closes (λ r. refl) (λ r. refl) a.review,
    )
run_review-closes unicode (reject drawn id actor note context) t h =
    let (text, c, n, v) = reject_registration-IsReview drawn id actor note context t h in
    (rejected_row actor.user_id text drawn.now v.row, IsReview-closes (λ r. refl) (λ r. refl) v)

-- A review of a request wants it to be pending.
run_review-pending :
    (unicode : Unicode) (r : Review) (t : Tables) {u : Tables}
    → run_review unicode r t ≡ (ok tt, u)
    → (row : RegistrationRow) × (find_first (is_request (request_of r)) t.registrations ≡ some row)
      × (is_pending row.status ≡ true)
unfolding run_review
run_review-pending unicode (approve drawn decision actor context) t h =
    let (note, c, n, a) =
      approve_registration-IsApproval unicode drawn decision actor context t h in
    (a.review.row, a.review.found, a.review.pending)
run_review-pending unicode (reject drawn id actor note context) t h =
    let (text, c, n, v) = reject_registration-IsReview drawn id actor note context t h in
    (v.row, v.found, v.pending)

run_review-ok-keeps :
    (unicode : Unicode) (r : Review) (t : Tables) {u : Tables} {key : String}
    {row : RegistrationRow}
    → run_review unicode r t ≡ (ok tt, u)
    → IsReviewed key row t
    → IsReviewed key row u
unfolding run_review
run_review-ok-keeps unicode (approve drawn decision actor context) t h k =
    let (note, c, n, a) =
      approve_registration-IsApproval unicode drawn decision actor context t h in
    IsReview-keeps (λ r. refl) a.review k
run_review-ok-keeps unicode (reject drawn id actor note context) t h k =
    let (text, c, n, v) = reject_registration-IsReview drawn id actor note context t h in
    IsReview-keeps (λ r. refl) v k

run_review-keeps :
    (unicode : Unicode) (r : Review) (t : Tables) {key : String} {row : RegistrationRow}
    → IsReviewed key row t
    → IsReviewed key row (run_review unicode r t).1
run_review-keeps unicode r t {key} {row} k = split (run_review unicode r t) refl
  where
    split :
        (x : Result Failure (Unit {0}) × Tables)
        → run_review unicode r t ≡ x
        → IsReviewed key row x.1
    split (ok x, u) e = run_review-ok-keeps unicode r t e k
    split (err f, u) e = subst (IsReviewed key row) (sym (run_review-err unicode r t e)) k

IsSubmission-keeps :
    {lower : String → String} {drawn : Drawn} {input : Submission} {t u : Tables} {key : String}
    {row : RegistrationRow}
    → IsSubmission lower drawn input t u
    → IsReviewed key row t
    → IsReviewed key row u
IsSubmission-keeps {lower} {drawn} {input} {t} {u} {key} {row} s k = record {
  found =
      ap (find_first (is_request key)) s.registrations
      ∙ find_first-append (is_request key) t.registrations
          (new_request drawn drawn.user_id input.company_name ∷ []) row k.found;
  closed = k.closed;
}

module _ {L : Type 0} (consume : String → Option String → L → Result Failure (Unit {0}) × L)
    (unicode : Unicode) (lower hash_password : String → String) {key : String}
    {row : RegistrationRow} where
  submitted-keeps :
      (drawn : Drawn) (input : Submission) (context : Context) (t : Tables)
      → IsReviewed key row t
      → IsReviewed key row
          (transaction (submit_tx lower drawn input (hash_password input.password) context) t).1
  submitted-keeps drawn input context t k =
      split (submit_tx lower drawn input (hash_password input.password) context t) refl
    where
      split :
          (x : Result Failure (Submitted × Tables))
          → submit_tx lower drawn input (hash_password input.password) context t ≡ x
          → IsReviewed key row (commit t x).1
      split (ok (a, u)) e =
          IsSubmission-keeps
            (submit_tx-IsSubmission lower drawn input (hash_password input.password) context t e) k
      split (err e) q = k

  admitted-keeps :
      (drawn : Drawn) (input : Submission) (context : Context) (x : Result Failure (Unit {0}) × L)
      (t : Tables)
      → IsReviewed key row t
      → IsReviewed key row (admitted consume unicode lower hash_password drawn input context x t).2
  unfolding admitted
  admitted-keeps drawn input context (err e, l) t k = k
  admitted-keeps drawn input context (ok x, l) t k = submitted-keeps drawn input context t k

  run_call-keeps :
      (c : Call) (l : L) (t : Tables)
      → IsReviewed key row t
      → IsReviewed key row (run_call consume unicode lower hash_password c l t).1
  unfolding run_call submit_registration
  run_call-keeps (review r) l t k = run_review-keeps unicode r t k
  run_call-keeps (submit drawn input context) l t k = split (validate_submission unicode input)
    where
      split :
          (v : Result Failure Submission)
          → IsReviewed key row (validated consume unicode lower hash_password drawn context v l t).2
      split (err e) = k
      split (ok s) =
          admitted-keeps drawn s context (consume s.email (truthy context.ip_address) l) t k

  run_calls-keeps :
      (cs : List Call) (l : L) (t : Tables)
      → IsReviewed key row t
      → IsReviewed key row (run_calls consume unicode lower hash_password cs l t).1
  unfolding run_calls
  run_calls-keeps [] l t k = k
  run_calls-keeps (c ∷ cs) l t k =
      run_calls-keeps cs (run_call consume unicode lower hash_password c l t).0
        (run_call consume unicode lower hash_password c l t).1 (run_call-keeps c l t k)

-- Once a request has been approved or rejected, no later call approves or rejects it, whatever
-- calls of the service come in between.
pub run_review-once :
    {L : Type 0} (consume : String → Option String → L → Result Failure (Unit {0}) × L)
    (unicode : Unicode) (lower hash_password : String → String) (first second : Review)
    (between : List Call) (l : L) (t u : Tables)
    → run_review unicode first t ≡ (ok tt, u)
    → request_of second ≡ request_of first
    → (run_review unicode second (run_calls consume unicode lower hash_password between l u).1).0
      ≢ ok tt
run_review-once consume unicode lower hash_password first second between l t u h same again =
    let (row, k) = run_review-closes unicode first t h in
    let v = (run_calls consume unicode lower hash_password between l u).1 in
    let later = run_calls-keeps consume unicode lower hash_password between l u k in
    let (r, f, p) =
      run_review-pending unicode second v (λ i. (again i, (run_review unicode second v).1)) in
    let e : find_first (is_request (request_of first)) v.registrations ≡ some r =
      subst (λ x. find_first (is_request x) v.registrations ≡ some r) same f in
    let g : find_first (is_request (request_of first)) v.registrations ≡ some row = later.found in
    let q : is_pending row.status ≡ false = later.closed in cc
