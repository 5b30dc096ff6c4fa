-- ===== src/Cabinet/Password.antt =====
-- apps/authentication/views.py (PasswordResetRequestView, PasswordResetVerifyView, PasswordChangeView):
-- the change and the reset of a password of the cloud.
use opencloud_backend.Base.{
  ℕ, ◌&&◌, ◌||◌, not, Option, none, some, Text, nonempty, strip, if◌then◌else◌,
}
use opencloud_backend.Base.Json.{Json}
use opencloud_backend.Zadara.Http.{Sent, ErrorCode, invalid_request}
use opencloud_backend.Zadara.Cache.{Result, ok, failed}
use opencloud_backend.Zadara.Password.{change_password, request_reset, verify_reset}
use opencloud_backend.Cabinet.Vault.{Fernet, get_token, drop}
use opencloud_backend.Cabinet.Login.{Session, User, World, user_in, status_of}

pub data PasswordAnswer : Type 0 where
  -- a new sign-in is asked for
  changed : PasswordAnswer
  reset_done : PasswordAnswer
  -- the same words whether or not the details matched
  reset_sent : PasswordAnswer
  refused : ErrorCode → ℕ → PasswordAnswer

-- `PasswordResetRequestView.post`; what the cloud makes of it is not told.
unfoldable pub request_password_reset :
    (Json → Sent) → Text → Text → Text → Text → Option (Result Unit) × PasswordAnswer
request_password_reset ask url_template account username email =
    if nonempty (strip account) && nonempty (strip username) && nonempty (strip email)
    then (
      some (request_reset ask (strip account) (strip username) (strip email) url_template),
      reset_sent,
    )
    else (none, reset_sent)

abbrev pub settle_reset : Result Unit → PasswordAnswer
settle_reset (ok _) = reset_done
settle_reset (failed code) = refused code (status_of code)

-- `PasswordResetVerifyView.post`
unfoldable pub verify_password_reset : (Json → Sent) → Text → Text → PasswordAnswer
verify_password_reset ask secret new_password =
    if not (nonempty (strip secret)) || not (nonempty new_password)
    then refused invalid_request 400
    else settle_reset (verify_reset ask (strip secret) new_password)

pub record ChangeRequest : Type 0 where
  pub account : Text
  pub username : Text
  pub current_password : Text
  pub new_password : Text
  pub mfa_code : Text

-- Who asks: the user of the browser's session, or whom the request names.
unfoldable pub who : Option User → ChangeRequest → Text × Text
who (some u) q = (u.account, u.username)
who none q = (strip q.account, strip q.username)

-- The session of the browser, with its key.
abbrev pub Browser : Type 0
Browser = Option (Text × Session)

abbrev pub user_of_browser : Browser → World → Option User
user_of_browser none w = none
user_of_browser (some (key, s)) w = user_in s w

unfoldable pub token_of : Fernet → Browser → World → Option Text
token_of f none w = none
token_of f (some (key, s)) w = get_token f w.now key w.tokens

-- `vault.delete` and `logout`
unfoldable pub end_session : Browser → World → World
end_session none w = w
end_session (some (key, s)) w = record w {
  sessions = drop key w.sessions;
  tokens = drop key w.tokens;
}

unfoldable pub settle_change : Result Unit → Browser → World → PasswordAnswer × World
settle_change (failed code) browser w = (refused code (status_of code), w)
settle_change (ok _) browser w = (changed, end_session browser w)

-- `PasswordChangeView.post`
unfoldable pub change_own_password :
    Fernet
    → (Text → Json → Sent)
    → (Json → Sent)
    → ChangeRequest
    → Browser
    → World
    → PasswordAnswer × World
change_own_password f ask_signed ask_auth q browser w =
    let (account, username) = who (user_of_browser browser w) q in
    if not (nonempty account)
      || not (nonempty username)
      || not (nonempty q.current_password)
      || not (nonempty q.new_password)
    then (refused invalid_request 400, w)
    else settle_change
        (change_password ask_signed ask_auth account username q.current_password q.new_password
          (strip q.mfa_code) (token_of f browser w))
        browser w
