-- ===== src/Registration/Outcomes.antt =====
-- The calls of a review around its transaction: what a success and a failure of them leave.
use ai_agent_platform.Base.{
  transaction-eq-err, none, transaction, refl, Bool, err, Result, transaction-eq-ok, if◌then◌else◌,
  String, true, false, ◌≡◌, ap, ◌∙◌, Option, some, ok,
}
use ai_agent_platform.Identity.{UserStatus}
use ai_agent_platform.Registration.Calls.{Review, approve, reject, run_review}
use ai_agent_platform.Directory.{Tables}
use ai_agent_platform.Registration.Model.{
  Failure, RegistrationActor, permission_denied, refused, ReviewDecision, Context,
}
use ai_agent_platform.Registration.Validation.{normalized_review_note, Unicode}
use ai_agent_platform.Registration.Repository.{Drawn, rejected_row}
use ai_agent_platform.Registration.Service.{
  reviewing, with_note, can_review, reject_with, approve_registration, reject_registration,
  approve_tx, reject_tx,
}
use ai_agent_platform.Registration.Review.{
  IsReview, IsApproval, approve_tx-IsApproval, reject_tx-IsReview,
}

reviewing-ok :
    {A : Type 0} (actor : RegistrationActor) (work : Tables → Result Failure A × Tables)
    (t : Tables) {a : A} {u : Tables}
    → reviewing actor work t ≡ (ok a, u)
    → (can_review actor ≡ true) × (work t ≡ (ok a, u))
reviewing-ok {A} actor work t {a} {u} h = split (can_review actor) h
  where
    split :
        (b : Bool)
        → (if b then work t else (err (refused permission_denied), t)) ≡ (ok a, u)
        → (b ≡ true) × (work t ≡ (ok a, u))
    split true e = (refl, e)
    split false e = cc

reviewing-err :
    {A : Type 0} (actor : RegistrationActor) (work : Tables → Result Failure A × Tables)
    (t : Tables) {e : Failure} {u : Tables}
    → ((e : Failure) (u : Tables) → work t ≡ (err e, u) → u ≡ t)
    → reviewing actor work t ≡ (err e, u)
    → u ≡ t
reviewing-err {A} actor work t {e} {u} k h = split (can_review actor) h
  where
    split :
        (b : Bool)
        → (if b then work t else (err (refused permission_denied), t)) ≡ (err e, u)
        → u ≡ t
    split true q = k e u q
    split false q = cc

with_note-err :
    {A : Type 0} (r : Result Failure (Option String))
    (work : Option String → Tables → Result Failure A × Tables) (t : Tables) {e : Failure}
    {u : Tables}
    → ((note : Option String) (e : Failure) (u : Tables) → work note t ≡ (err e, u) → u ≡ t)
    → with_note r work t ≡ (err e, u)
    → u ≡ t
with_note-err (err e) work t k h = cc
with_note-err (ok note) work t {e} {u} k h = k note e u h

reject_with-err :
    (drawn : Drawn) (id : String) (actor : RegistrationActor) (context : Context)
    (note : Option String) (t : Tables) (e : Failure) (u : Tables)
    → reject_with drawn id actor context note t ≡ (err e, u)
    → u ≡ t
unfolding reject_with
reject_with-err drawn id actor context none t e u h = cc
reject_with-err drawn id actor context (some text) t e u h =
    transaction-eq-err (reject_tx drawn id text context actor.user_id) t h

with_note-ok :
    {A : Type 0} (r : Result Failure (Option String))
    (work : Option String → Tables → Result Failure A × Tables) (t : Tables) {a : A} {u : Tables}
    → with_note r work t ≡ (ok a, u)
    → (note : Option String) × (r ≡ ok note) × (work note t ≡ (ok a, u))
with_note-ok (err e) work t h = cc
with_note-ok (ok note) work t h = (note, refl, h)

pub approve_registration-IsApproval :
    (unicode : Unicode) (drawn : Drawn) (decision : ReviewDecision) (actor : RegistrationActor)
    (context : Context) (t : Tables) {u : Tables}
    → approve_registration unicode drawn decision actor context t ≡ (ok tt, u)
    → (note : Option String) × (can_review actor ≡ true)
      × (normalized_review_note decision.review_note ≡ ok note)
      × IsApproval unicode drawn decision actor.user_id note t u
unfolding approve_registration
approve_registration-IsApproval unicode drawn decision actor context t h =
    let work = λ (note : Option String).
      transaction (approve_tx unicode drawn decision note context actor.user_id) in
    let (c, h1) =
      reviewing-ok actor (with_note (normalized_review_note decision.review_note) work) t h in
    let (note, n, h2) = with_note-ok (normalized_review_note decision.review_note) work t h1 in
    (
      note,
      c,
      n,
      approve_tx-IsApproval unicode drawn decision note context actor.user_id t
          (transaction-eq-ok (approve_tx unicode drawn decision note context actor.user_id) t h2),
    )

reject_with-ok :
    (drawn : Drawn) (id : String) (actor : RegistrationActor) (context : Context)
    (note : Option String) (t : Tables) {u : Tables}
    → reject_with drawn id actor context note t ≡ (ok tt, u)
    → (text : String) × (note ≡ some text)
      × (reject_tx drawn id text context actor.user_id t ≡ ok (tt, u))
unfolding reject_with
reject_with-ok drawn id actor context none t h = cc
reject_with-ok drawn id actor context (some text) t h =
    (text, refl, transaction-eq-ok (reject_tx drawn id text context actor.user_id) t h)

pub reject_registration-IsReview :
    (drawn : Drawn) (id : String) (actor : RegistrationActor) (note : String) (context : Context)
    (t : Tables) {u : Tables}
    → reject_registration drawn id actor note context t ≡ (ok tt, u)
    → (text : String) × (can_review actor ≡ true)
      × (normalized_review_note (some note) ≡ ok (some text))
      × IsReview id actor.user_id
          (rejected_row actor.user_id text drawn.now)
          UserStatus.rejected
          t
          u
unfolding reject_registration
reject_registration-IsReview drawn id actor note context t h =
    let work = reject_with drawn id actor context in
    let (c, h1) = reviewing-ok actor (with_note (normalized_review_note (some note)) work) t h in
    let (found, n, h2) = with_note-ok (normalized_review_note (some note)) work t h1 in
    let (text, e, h3) = reject_with-ok drawn id actor context found t h2 in
    (text, c, n ∙ ap (λ o. ok o) e, reject_tx-IsReview drawn id text context actor.user_id t h3)

-- A review that fails writes nothing.
pub run_review-err :
    (unicode : Unicode) (r : Review) (t : Tables) {e : Failure} {u : Tables}
    → run_review unicode r t ≡ (err e, u)
    → u ≡ t
unfolding run_review approve_registration reject_registration
run_review-err unicode (approve drawn decision actor context) t h =
    reviewing-err actor
      (with_note (normalized_review_note decision.review_note)
        (λ note. transaction (approve_tx unicode drawn decision note context actor.user_id)))
      t
      (λ e u q.
        with_note-err (normalized_review_note decision.review_note)
          (λ note. transaction (approve_tx unicode drawn decision note context actor.user_id)) t
          (λ note e u p.
            transaction-eq-err (approve_tx unicode drawn decision note context actor.user_id) t p)
          q)
      h
run_review-err unicode (reject drawn id actor note context) t h =
    reviewing-err actor
      (with_note (normalized_review_note (some note)) (reject_with drawn id actor context)) t
      (λ e u q.
        with_note-err (normalized_review_note (some note)) (reject_with drawn id actor context) t
          (λ n e u p. reject_with-err drawn id actor context n t e u p) q)
      h
