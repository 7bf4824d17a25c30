-- ===== src/Registration/Calls.antt =====
-- apps/web/src/server/registration/service.ts: the calls of the service, one after another.
use ai_agent_platform.Base.{String, Option, List, [], ◌∷◌, Result}
use ai_agent_platform.Directory.{Tables}
use ai_agent_platform.Registration.Model.{
  Failure, ReviewDecision, RegistrationActor, Context, SubmitInput,
}
use ai_agent_platform.Registration.Validation.{Unicode}
use ai_agent_platform.Registration.Repository.{Drawn}
use ai_agent_platform.Registration.Service.{
  approve_registration, reject_registration, submit_registration,
}

pub data Review : Type 0 where
  approve : Drawn → ReviewDecision → RegistrationActor → Context → Review
  reject : Drawn → String → RegistrationActor → String → Context → Review

abbrev pub request_of : Review → String
request_of (approve drawn decision actor context) = decision.request_id
request_of (reject drawn id actor note context) = id

abbrev pub actor_of : Review → String
actor_of (approve drawn decision actor context) = actor.user_id
actor_of (reject drawn id actor note context) = actor.user_id

unfoldable pub run_review : Unicode → Review → Tables → Result Failure (Unit {0}) × Tables
unfolding approve_registration reject_registration
run_review unicode (approve drawn decision actor context) t =
    approve_registration unicode drawn decision actor context t
run_review unicode (reject drawn id actor note context) t =
    reject_registration drawn id actor note context t

pub data Call : Type 0 where
  review : Review → Call
  submit : Drawn → SubmitInput → Context → Call

module _ {L : Type 0} (consume : String → Option String → L → Result Failure (Unit {0}) × L)
    (unicode : Unicode) (lower hash_password : String → String) where
  unfoldable pub run_call : Call → L → Tables → L × Tables
  unfolding run_review submit_registration
  run_call (review r) l t = (l, (run_review unicode r t).1)
  run_call (submit drawn input context) l t =
      let (result, m, u) =
        submit_registration consume unicode lower hash_password drawn input context l t in
      (m, u)

  unfoldable pub run_calls : List Call → L → Tables → L × Tables
  unfolding run_call
  run_calls [] l t = (l, t)
  run_calls (c ∷ rest) l t = let (m, u) = run_call c l t in run_calls rest m u
