-- ===== src/Registration/Validation.antt =====
-- apps/web/src/server/registration/service.ts: what a submission must be, and the normal forms of
-- packages/database/src/schema/identity.ts and organizations.ts. `Unicode` has the two methods of
-- texts that go by the tables of Unicode.
use text.Mathlib.Text.{starts_with}
use ai_agent_platform.Base.{
  String, Bool, not, ◌||◌, Option, none, some, if◌then◌else◌, trim, collapse_spaces, units,
  has_code, is_empty, ltb, Result, ok, err,
}
use ai_agent_platform.Registration.Model.{
  Failure, registration_error, error, validation_failed, SubmitInput,
}

pub record Unicode : Type 0 where
  pub nfkc : String → String
  pub to_lower_case : String → String

abbrev pub invalid : {A : Type 0} → String → Result Failure A
invalid field = err (registration_error validation_failed (some field))

abbrev pub text_or_none : String → Option String
text_or_none s = if is_empty s then none else some s

-- A note that is blank is none.
unfoldable pub normalized_review_note : Option String → Result Failure (Option String)
normalized_review_note none = ok none
normalized_review_note (some value) =
    let note = trim value in
    if is_empty note
    then ok none
    else if ltb 2000 (units note)
    then invalid "reviewNote"
    else ok (some note)

pub record Submission : Type 0 where
  pub applicant_name : String
  pub email : String
  pub company_name : String
  pub password : String

pub record OrganizationValues : Type 0 where
  pub legal_name : String
  pub legal_name_key : String

module _ (unicode : Unicode) where
  unfoldable pub normalize_identity_email : String → String
  normalize_identity_email value = unicode.to_lower_case (trim (unicode.nfkc value))

  unfoldable pub is_reserved_company_name : String → Bool
  is_reserved_company_name value =
      starts_with (unicode.to_lower_case (trim (unicode.nfkc value))) "__aap_"

  unfoldable pub normalize_legal_name_key : String → String
  normalize_legal_name_key value =
      unicode.to_lower_case (collapse_spaces (trim (unicode.nfkc value)))

  unfoldable pub organization_values : String → Result Failure OrganizationValues
  organization_values legal_name =
      let key = normalize_legal_name_key legal_name in
      if is_empty key
      then err (error "Organization legal name must not be empty after normalization")
      else ok (record { legal_name = trim legal_name; legal_name_key = key })

  unfoldable pub validate_submission : SubmitInput → Result Failure Submission
  validate_submission input =
      let applicant_name = trim (unicode.nfkc input.applicant_name) in
      let email = normalize_identity_email input.email in
      let company_name = collapse_spaces (trim (unicode.nfkc input.company_name)) in
      if is_empty applicant_name || ltb 120 (units applicant_name)
      then invalid "applicantName"
      else if (is_empty email || ltb 320 (units email)) || not (has_code 64 email)
      then invalid "email"
      else if ltb (units input.password) 12 || ltb 128 (units input.password)
      then invalid "password"
      else if (is_empty company_name || ltb 240 (units company_name))
          || is_reserved_company_name company_name
      then invalid "companyName"
      else if not input.accepted_terms
      then invalid "acceptedTerms"
      else ok (record {
        applicant_name = applicant_name;
        email = email;
        company_name = company_name;
        password = input.password;
      })
