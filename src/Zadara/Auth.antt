-- ===== src/Zadara/Auth.antt =====
-- apps/integrations/zadara/auth.py: the sign-in to the cloud and what its refusals mean. The requests
-- are arguments: what the cloud answers to the payload that the source builds.
use opencloud_backend.Base.{
  ◌≡◌, refl, Bool, true, false, ◌&&◌, ◌||◌, not, arith, Text, txt, nonempty, is_some, Option, none,
  some, starts_with, strip, ltb, ◌==◌, if◌then◌else◌,
}
use opencloud_backend.Base.Json.{Json, null, get, truthy, text_of, text_or_none, is_dict, or_word}
use opencloud_backend.Zadara.Http.{
  Response, ErrorCode, invalid_credentials, account_not_found, forbidden, rate_limited,
  upstream_error, unexpected, mfa_required, mfa_enrollment_required, password_expired,
  account_locked, invalid_mfa_code, Sent, response, error,
}

pub data Scope : Type 0 where
  project domain : Scope

-- A token and its scope, or the code of the ZadaraError.
pub data AuthResult : Type 0 where
  signed_in : Scope → Text → AuthResult
  refused : ErrorCode → AuthResult

-- `resp.ok`
abbrev pub is_ok : Response → Bool
is_ok r = ltb r.status 400

-- `(resp.json() or {}).get(key)`, and nothing where the body is not JSON
abbrev pub body_get : Text → Response → Json
body_get key r = elim r.body [ none ↦ null | some body ↦ get key body ]

-- `_is_mfa_required`
unfoldable pub is_mfa_required : Response → Bool
is_mfa_required r =
    nonempty r.receipt
    || truthy (body_get (txt "receipt") r)
    || truthy (body_get (txt "required_auth_methods") r)

-- `_enrollment_secret`
unfoldable pub enrollment_secret : Response → Option Text
enrollment_secret r = text_or_none (body_get (txt "mfa_secret") r)

-- `_error_message`
unfoldable pub error_message : Response → Text
error_message r =
    let error = body_get (txt "error") r in
    if is_dict error
    then text_of (get (txt "message") error)
    else or_word (text_of (body_get (txt "description") r)) (text_of (body_get (txt "message") r))

-- `_to_result`: an answer without a token is an error.
unfoldable pub to_result : Response → Scope → AuthResult
to_result r scope =
    if nonempty r.subject_token then signed_in scope r.subject_token else refused unexpected

abbrev pub expired_message : Text
expired_message = txt "The password is expired"

abbrev pub locked_message : Text
locked_message = txt "The account is locked for user"

-- `_raise_for_auth_status`
unfoldable pub auth_error : Response → ErrorCode
auth_error r =
    if starts_with (error_message r) expired_message
    then password_expired
    else if starts_with (error_message r) locked_message
    then account_locked
    else if r.status == 401 || r.status == 403
    then invalid_credentials
    else if r.status == 404
    then account_not_found
    else if r.status == 429
    then rate_limited
    else upstream_error

-- What `authenticate` is called with.
pub record Credentials : Type 0 where
  pub account : Text
  pub username : Text
  pub password : Text
  pub project : Text
  -- empty where no code was given
  pub totp : Text

-- `(project or '').strip() or account`
abbrev pub project_name : Text → Text → Text
project_name wanted account = if nonempty (strip wanted) then strip wanted else account

-- The second try of `authenticate`, in the scope of the domain.
unfoldable pub domain_result : Bool → Response → AuthResult
domain_result has_code r =
    if is_ok r
    then to_result r domain
    else if not has_code && is_mfa_required r
    then refused mfa_required
    else if not has_code && is_some (enrollment_secret r)
    then refused mfa_enrollment_required
    else refused (auth_error r)

-- What `authenticate` makes of the two answers; the second is asked for only where it is read.
unfoldable pub password_result : Bool → Sent → Sent → AuthResult
password_result has_code (error code) second = refused code
password_result has_code (response r) second =
    if is_ok r
    then to_result r project
    else if not has_code && is_mfa_required r
    then refused mfa_required
    else if r.status == 401
    then elim second [ error code ↦ refused code | response d ↦ domain_result has_code d ]
    else refused (auth_error r)

-- `authenticate`; `ask_project` is asked with the name of the project, and both with whether a secret
-- is to be provisioned for a user who has none.
unfoldable pub authenticate : (Text → Bool → Sent) → (Bool → Sent) → Credentials → AuthResult
authenticate ask_project ask_domain c =
    if not (nonempty c.account) || not (nonempty c.username) || not (nonempty c.password)
    then refused invalid_credentials
    else (let enroll = not (nonempty c.totp) in
        password_result (nonempty c.totp) (ask_project (project_name c.project c.account) enroll)
          (ask_domain enroll))

-- `exchange_project`
unfoldable pub exchange_project : (Text → Text → Sent) → Text → Text → AuthResult
exchange_project ask token name = elim (ask token name) [
  | error code ↦ refused code
  | response r ↦
      if r.status == 401 || r.status == 403
      then refused forbidden
      else if not (is_ok r)
      then refused upstream_error
      else to_result r project
]

-- `authenticate_totp`: the token of the domain, exchanged for one of the project where that works.
unfoldable pub authenticate_totp :
    (Text → Text → Sent) → (Text → Text → Sent) → Text → Text → Text → Text → AuthResult
authenticate_totp ask exchange account passcode receipt wanted =
    if not (nonempty passcode) || not (nonempty receipt)
    then refused invalid_mfa_code
    else elim (ask passcode receipt) [
      | error code ↦ refused code
      | response r ↦
          if not (is_ok r)
          then (if r.status == 401 || r.status == 403
              then refused invalid_mfa_code
              else refused (auth_error r))
          else elim (to_result r domain) [
            | refused code ↦ refused code
            | signed_in scope token ↦
                elim (exchange_project exchange token (project_name wanted account)) [
                  | signed_in scope' token' ↦ signed_in scope' token'
                  | refused _ ↦ signed_in scope token
                ]
          ]
    ]

abbrev pub is_signed_in : AuthResult → Bool
is_signed_in (signed_in scope token) = true
is_signed_in (refused code) = false

-- The cloud accepts: a response that is no error, with a token.
abbrev pub accepts : Sent → Bool
accepts (error code) = false
accepts (response r) = is_ok r && nonempty r.subject_token

-- The cloud knows no such project: a 401 that does not ask for a code that was not given.
abbrev pub leaves_domain : Bool → Sent → Bool
leaves_domain has_code (error code) = false
leaves_domain has_code (response r) = r.status == 401 && (has_code || not (is_mfa_required r))

domain_result-is_signed_in :
    (has_code : Bool) (d : Response)
    → is_signed_in (domain_result has_code d) ≡ accepts (response d)
unfolding domain_result to_result
domain_result-is_signed_in has_code d = ground arith

password_result-is_signed_in :
    (has_code : Bool) (first second : Sent)
    → is_signed_in (password_result has_code first second)
      ≡ (accepts first || leaves_domain has_code first && accepts second)
unfolding password_result to_result
password_result-is_signed_in has_code (error code) second = refl
password_result-is_signed_in has_code (response r) (error code) = ground arith
password_result-is_signed_in has_code (response r) (response d) =
    ground (arith, domain_result-is_signed_in has_code d)

-- A password signs in exactly when account, name and password are given and the cloud accepts them for
-- the project, or else answers that with a 401 that asks for no missing code and accepts them for the
-- domain.
pub authenticate-accepts :
    (ask_project : Text → Bool → Sent) (ask_domain : Bool → Sent) (c : Credentials)
    → let enroll = not (nonempty c.totp) in
      let first = ask_project (project_name c.project c.account) enroll in
      is_signed_in (authenticate ask_project ask_domain c) ≡ (
        nonempty c.account
        && nonempty c.username
        && nonempty c.password
        && (accepts first || leaves_domain (nonempty c.totp) first && accepts (ask_domain enroll)))
unfolding authenticate
authenticate-accepts ask_project ask_domain c =
    let enroll = not (nonempty c.totp) in
    let both =
      password_result-is_signed_in (nonempty c.totp)
        (ask_project (project_name c.project c.account) enroll) (ask_domain enroll) in
    ground (arith, both)

-- A code signs in exactly when it and the receipt are given and the cloud accepts them; whether the
-- token can be exchanged for one of the project makes no difference to that.
pub authenticate_totp-accepts :
    (ask exchange : Text → Text → Sent) (account passcode receipt wanted : Text)
    → is_signed_in (authenticate_totp ask exchange account passcode receipt wanted)
      ≡ (nonempty passcode && nonempty receipt && accepts (ask passcode receipt))
unfolding authenticate_totp to_result
authenticate_totp-accepts ask exchange account passcode receipt wanted = ground arith
