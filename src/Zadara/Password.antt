-- ===== src/Zadara/Password.antt =====
-- apps/integrations/zadara/password.py: the change and the reset of a password in the cloud.
use opencloud_backend.Base.{
  Bool, ◌&&◌, ◌||◌, not, Option, none, some, [], ◌∷◌, Text, txt, nonempty, any_by, contains_text,
  starts_with, lower, ◌==◌, if◌then◌else◌,
}
use opencloud_backend.Base.Json.{Json, str, arr, nil, cons, get, text_of, or_word, dict}
use opencloud_backend.Zadara.Http.{
  Response, Sent, response, error, ErrorCode, password_reused, weak_password, invalid_credentials,
  upstream_error, unexpected, reset_refused, invalid_reset_link,
}
use opencloud_backend.Zadara.Auth.{is_ok, body_get}
use opencloud_backend.Zadara.Cache.{Result, ok, failed}

-- `_description`
unfoldable pub description : Response → Text
description r =
    or_word (text_of (body_get (txt "description") r))
      (text_of (get (txt "message") (body_get (txt "error") r)))

abbrev pub reused_message : Text
reused_message = txt "Password validation error: The new password cannot be"

-- `_looks_like_policy_violation`
unfoldable pub looks_like_policy_violation : Text → Bool
looks_like_policy_violation text =
    any_by (λ word. contains_text word (lower text))
      (txt "password" ∷ txt "character" ∷ txt "length" ∷ txt "digit" ∷ txt "special" ∷ [])

-- `_raise_for_new_password`; none where it raises nothing
unfoldable pub new_password_error : Response → Option ErrorCode
new_password_error r =
    if starts_with (description r) reused_message
    then some password_reused
    else if r.status == 400 && looks_like_policy_violation (description r)
    then some weak_password
    else none

abbrev pub or_else : Option ErrorCode → ErrorCode → ErrorCode
or_else none code = code
or_else (some first) code = first

-- The refusal of a change, and of the end of a reset.
unfoldable pub change_error : Response → ErrorCode
change_error r = or_else (new_password_error r) (
    if r.status == 401 || r.status == 403
    then invalid_credentials
    else if r.status == 400
    then weak_password
    else upstream_error)

unfoldable pub reset_error : Response → ErrorCode
reset_error r = or_else (new_password_error r) (
    if r.status == 400 || r.status == 401 || r.status == 403 || r.status == 404
    then invalid_reset_link
    else upstream_error)

abbrev pub account_of : Text → Json
account_of account = dict ((txt "name", str account) ∷ [])

-- `payload_for`
unfoldable pub payload_for : Json → Text → Json
payload_for identity account = dict (
    (
      txt "auth",
      dict (
          (txt "identity", identity)
          ∷ (txt "scope", dict ((txt "domain", account_of account) ∷ []))
          ∷ []),
    )
    ∷ [])

-- The identity of a caller who has no token.
unfoldable pub change_identity : Text → Text → Text → Text → Text → Json
change_identity account username current new_password totp =
    let password = dict (
      (
        txt "user",
        dict (
            (txt "domain", account_of account)
            ∷ (txt "name", str username)
            ∷ (txt "password", str current)
            ∷ []),
      )
      ∷ []) in
    if nonempty totp
    then dict (
        (txt "methods", arr (cons (str (txt "password")) (cons (str (txt "totp")) nil)))
        ∷ (txt "new_password", str new_password)
        ∷ (txt "password", password)
        ∷ (
          txt "totp",
          dict (
              (
                txt "user",
                dict (
                    (txt "domain", account_of account)
                    ∷ (txt "name", str username)
                    ∷ (txt "passcode", str totp)
                    ∷ []),
              )
              ∷ []),
        )
        ∷ [])
    else dict (
        (txt "methods", arr (cons (str (txt "password")) nil))
        ∷ (txt "new_password", str new_password)
        ∷ (txt "password", password)
        ∷ [])

-- What was done, or why not.
abbrev pub done_or : (Response → ErrorCode) → Sent → Result Unit
done_or refusal (error code) = failed code
done_or refusal (response r) = if is_ok r then ok tt else failed (refusal r)

-- `change_password`; `ask_signed` is asked with the token, `ask_auth` without one.
unfoldable pub change_password :
    (Text → Json → Sent)
    → (Json → Sent)
    → Text
    → Text
    → Text
    → Text
    → Text
    → Option Text
    → Result Unit
change_password ask_signed ask_auth account username current new_password totp (some token) =
    done_or change_error (
      ask_signed token
        (dict ((txt "original_password", str current) ∷ (txt "password", str new_password) ∷ [])))
change_password ask_signed ask_auth account username current new_password totp none =
    done_or change_error
      (ask_auth (payload_for (change_identity account username current new_password totp) account))

abbrev pub secret_placeholder : Text
secret_placeholder = txt "$secret"

-- `request_reset`
unfoldable pub request_reset : (Json → Sent) → Text → Text → Text → Text → Result Unit
request_reset ask account username email url_template =
    if not (contains_text secret_placeholder url_template)
    then failed unexpected
    else done_or (λ r. reset_refused)
        (ask (
          dict (
            (txt "domain_name", str account)
            ∷ (txt "user_name", str username)
            ∷ (txt "user_email", str email)
            ∷ (txt "url_template", str url_template)
            ∷ [])))

-- `verify_reset`
unfoldable pub verify_reset : (Json → Sent) → Text → Text → Result Unit
verify_reset ask secret new_password =
    done_or reset_error
      (ask (dict ((txt "secret", str secret) ∷ (txt "new_password", str new_password) ∷ [])))
