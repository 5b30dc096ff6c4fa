-- ===== src/Cabinet/Tests.antt =====
-- The theorems on the cabinet's login at concrete requests: a password, a code, and a blocked user.
use opencloud_backend.Base.{
  ◌≡◌, refl, Option, none, some, [], ◌∷◌, Text, txt, strip, strip_left, is_space, text_eq, lower,
  lower_char, arith, Bool, ◌⊎◌,
}
use opencloud_backend.Base.Dict.{lookup}
use opencloud_backend.Accounts.Roles.{resolve_app_role}
use opencloud_backend.Zadara.Http.{ErrorCode, Sent, response, invalid_mfa_code}
use opencloud_backend.Zadara.Auth.{Credentials, project, authenticate, password_result, to_result}
use opencloud_backend.Zadara.Cache.{ok}
use opencloud_backend.Cabinet.Vault.{Fernet, cached, live, load, open_ticket, open_receipt}
use opencloud_backend.Cabinet.Login.{
  Grant, SignIn, granted, denied, Cloud, World, Me, LoginRequest, Fresh, login, first_step,
  settle_password, settle_totp, refuse, complete_mfa, final_grant, finish, begin, admit,
  upsert_user, user_of, session_of, me_payload,
}
use opencloud_backend.Cabinet.Login.Rules.{IsAccepted, login-IsAccepted, login_quiet}
use opencloud_backend.Cabinet.Login.Composed.{
  Answers, cloud_of, sign_in_of, IsPasswordTaken, IsCodeTaken, login-accepts,
}
use opencloud_backend.Cabinet.Login.Sessions.{IsBegun, login-IsBegun}

-- An encryption that puts a sign before the text.
abbrev strip_sign : Text → Option Text
strip_sign [] = none
strip_sign (c ∷ t) = some t

abbrev fernet : Fernet
fernet = record { encrypt = λ (t : Text). b'x' ∷ t; decrypt = strip_sign }

abbrev grant : Grant
grant = record {
  token = txt "t";
  scope = project;
  identity = record {
    user_id = txt "u1";
    user_name = txt "ann";
    email = [];
    account_id = none;
    account_name = txt "acme";
    project_id = none;
    project_name = none;
    roles = [];
  };
}

abbrev refusal : SignIn
refusal = denied (record { code = invalid_mfa_code; receipt = []; secret = []; otpauth_uri = [] })

-- The cloud takes a code, and no password.
abbrev cloud : Cloud
cloud = record {
  authenticate = λ (account username password project code : Text). refusal;
  authenticate_totp = λ (account username code receipt project : Text). granted grant;
  get_user_projects = λ (account username : Text). ok [];
  exchange_project = λ (token name account : Text). refusal;
}

abbrev fresh : Fresh
fresh = record { ticket = txt "k2"; session_key = txt "s1"; old_session = none }

-- A ticket of Ann's is waiting.
abbrev world : World
world = record {
  now = 50;
  users = [];
  sessions = [];
  tokens = [];
  tickets =
      (
        txt "k1",
        (
          record { account = txt "acme"; username = txt "Ann"; project = []; receipt = txt "xr" },
          100,
        ),
      )
      ∷ [];
}

abbrev with_code : LoginRequest
with_code = record {
  account = txt "Acme";
  username = txt "ann";
  password = [];
  project = [];
  mfa_code = txt "123456";
  mfa_token = txt "k1";
}

abbrev with_password : LoginRequest
with_password = record with_code { password = txt "p"; mfa_token = [] }

abbrev ann : Me
ann = record {
  name = txt "ann";
  email = [];
  app_role = resolve_app_role [];
  zadara_user_id = txt "u1";
  account = txt "acme";
  account_id = none;
  project_id = none;
  project_name = none;
  roles = [];
}

login-IsAccepted_example : (g : Grant) × IsAccepted fernet cloud with_code world g
unfolding login first_step load cached live open_ticket open_receipt complete_mfa settle_totp finish
    final_grant begin upsert_user user_of admit me_payload session_of lookup text_eq strip
    strip_left is_space lower lower_char
login-IsAccepted_example = login-IsAccepted fernet cloud fresh with_code world ann refl

login-IsBegun_example :
    IsBegun fernet fresh world 9000 ann (login fernet cloud fresh with_code world).1
unfolding login first_step load cached live open_ticket open_receipt complete_mfa settle_totp finish
    final_grant begin upsert_user user_of admit me_payload session_of lookup text_eq strip
    strip_left is_space lower lower_char
login-IsBegun_example =
    login-IsBegun fernet cloud fresh with_code world 9000 ann (λ (t : Text). (refl, refl))
      (omega arith) refl

login_quiet_example :
    let after = (login fernet cloud fresh with_password world).1 in
    (after.sessions ≡ []) × (after.tokens ≡ [])
unfolding login first_step settle_password refuse finish strip strip_left is_space
login_quiet_example = login_quiet fernet cloud fresh with_password world refl

abbrev taken : Sent
taken = response (record {
  status = 201;
  retry_after = none;
  subject_token = txt "t";
  receipt = [];
  body = none;
})

-- The cloud takes every password and code.
abbrev answers : Answers
answers = record {
  by_project = λ (c : Credentials) (name : Text) (enroll : Bool). taken;
  by_domain = λ (c : Credentials) (enroll : Bool). taken;
  by_totp = λ (account username code receipt : Text). taken;
  by_token = λ (token name account : Text). taken;
  projects = λ (account username : Text). ok [];
  identity = λ (token : Text). grant.identity;
  details =
      λ (code : ErrorCode). record { code = code; receipt = []; secret = []; otpauth_uri = [] };
}

login-accepts_example :
    IsPasswordTaken answers with_password ⊎ IsCodeTaken fernet answers with_password world
unfolding login first_step settle_password finish final_grant begin upsert_user user_of admit
    me_payload session_of lookup text_eq strip strip_left is_space cloud_of sign_in_of authenticate
    password_result to_result
login-accepts_example = login-accepts fernet answers fresh with_password world ann refl
