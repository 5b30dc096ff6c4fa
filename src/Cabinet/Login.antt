-- ===== src/Cabinet/Login.antt =====
-- apps/authentication/views.py (LoginView, MeView, LogoutView, RefreshView) and services.py: the
-- cabinet's login. Times are seconds; `casefold` is that of ASCII. The cloud is an interface.
-- A session that is over is not among the sessions.
pub mod Sessions
pub mod Rules
pub mod Composed
use opencloud_backend.Base.{
  ℕ, ◌+◌, ◌≡◌, Bool, true, false, ◌&&◌, ◌||◌, not, Option, none, some, List, [], ◌∷◌, Text, txt,
  nonempty, text_eq, lower, strip, first_by, or_default, if◌then◌else◌,
}
use opencloud_backend.Base.Dict.{Dict, lookup, insert}
use opencloud_backend.Accounts.Roles.{AppRole, user, admin, resolve_app_role}
use opencloud_backend.Zadara.Http.{
  ErrorCode, timeout, network_error, invalid_credentials, account_not_found, forbidden,
  rate_limited, upstream_error, mfa_required, mfa_enrollment_required, password_expired,
  account_locked, invalid_mfa_code, weak_password, password_reused, invalid_reset_link, mfa_expired,
  session_expired,
}
use opencloud_backend.Zadara.Auth.{Scope, project, domain}
use opencloud_backend.Zadara.Cache.{Result, ok, failed}
use opencloud_backend.Zadara.Grants.{Identity}
use opencloud_backend.Zadara.Service.Directory.{Named}
use opencloud_backend.Cabinet.Vault.{Fernet, Timed, Ticket, drop, store, get_token, issue, load}

-- An AuthResult.
pub record Grant : Type 0 where
  pub token : Text
  pub scope : Scope
  pub identity : Identity

-- A ZadaraError of a sign-in, with its details; what is missing is empty.
pub record Refusal : Type 0 where
  pub code : ErrorCode
  pub receipt : Text
  pub secret : Text
  pub otpauth_uri : Text

pub data SignIn : Type 0 where
  granted : Grant → SignIn
  denied : Refusal → SignIn

-- What the login calls of the cloud; a project or a code that was not given is empty.
pub record Cloud : Type 0 where
  pub authenticate : (account username password project code : Text) → SignIn
  pub authenticate_totp : (account username code receipt project : Text) → SignIn
  pub get_user_projects : (account username : Text) → Result (List Named)
  pub exchange_project : (token name account : Text) → SignIn

-- `_STATUS_BY_CODE.get(code, 502)`
unfoldable pub status_of : ErrorCode → ℕ
status_of invalid_credentials = 401
status_of mfa_required = 401
status_of invalid_mfa_code = 401
status_of mfa_enrollment_required = 401
status_of weak_password = 400
status_of password_reused = 400
status_of password_expired = 401
status_of account_locked = 403
status_of invalid_reset_link = 400
status_of mfa_expired = 401
status_of account_not_found = 404
status_of forbidden = 403
status_of rate_limited = 429
status_of timeout = 504
status_of network_error = 502
status_of upstream_error = 502
status_of _ = 502

pub record User : Type 0 where
  pub zadara_user_id : Text
  pub username : Text
  pub email : Text
  pub account : Text
  pub account_id : Text
  pub app_role : AppRole
  pub is_blocked : Bool

-- What the session of a browser holds.
pub record Session : Type 0 where
  pub user_id : Text
  pub project_id : Option Text
  pub project_name : Option Text
  pub scope : Scope
  pub roles : List Text

pub record World : Type 0 where
  pub now : ℕ
  pub users : Dict User
  pub sessions : Dict Session
  pub tokens : Timed Text
  pub tickets : Timed Ticket

-- `me_payload`
pub record Me : Type 0 where
  pub name : Text
  pub email : Text
  pub app_role : AppRole
  pub zadara_user_id : Text
  pub account : Text
  pub account_id : Option Text
  pub project_id : Option Text
  pub project_name : Option Text
  pub roles : List Text

pub data Answer : Type 0 where
  shown : Me → Answer
  -- a ticket for the second step
  challenge : Text → Answer
  -- the secret of an authenticator, and its address
  enrollment : Text → Text → Answer
  failure : ErrorCode → ℕ → Answer
  blocked : Answer
  signed_out : Answer

unfoldable pub me_payload : User → Session → Me
me_payload u s = record {
  name = u.username;
  email = u.email;
  app_role = u.app_role;
  zadara_user_id = u.zadara_user_id;
  account = u.account;
  account_id = if nonempty u.account_id then some u.account_id else none;
  project_id = s.project_id;
  project_name = s.project_name;
  roles = s.roles;
}

-- The row that `upsert_user` leaves: what the cloud says, and the block of the row that there was.
unfoldable pub user_of : Grant → Option User → User
user_of g old = record {
  zadara_user_id = g.identity.user_id;
  username = g.identity.user_name;
  email = g.identity.email;
  account = g.identity.account_name;
  account_id = or_default g.identity.account_id [];
  app_role = resolve_app_role g.identity.roles;
  is_blocked = elim old [ none ↦ false | some u ↦ u.is_blocked ];
}

-- `upsert_user`
unfoldable pub upsert_user : Grant → World → User × World
upsert_user g w =
    let u = user_of g (lookup g.identity.user_id w.users) in
    (u, record w { users = insert u.zadara_user_id u w.users })

-- `apply_scope_to_session`; the role is the one that `upsert_user` has just written.
unfoldable pub session_of : Grant → Session
session_of g = record {
  user_id = g.identity.user_id;
  project_id = g.identity.project_id;
  project_name = g.identity.project_name;
  scope = g.scope;
  roles = g.identity.roles;
}

pub record LoginRequest : Type 0 where
  pub account : Text
  pub username : Text
  pub password : Text
  pub project : Text
  pub mfa_code : Text
  pub mfa_token : Text

-- The names of a new ticket and of a new session, and the name in the browser's cookie.
pub record Fresh : Type 0 where
  pub ticket : Text
  pub session_key : Text
  pub old_session : Option Text

-- The first half of a login: an answer, or a grant of the cloud to go on with.
pub data Step : Type 0 where
  answered : Answer → World → Step
  goes_on : Grant → World → Step

abbrev pub fails : ErrorCode → World → Step
fails code w = answered (failure code (status_of code)) w

-- The session that the browser's cookie names, under that name; it holds its user.
abbrev pub named_session : Text → Option Session → Option (Text × Session)
named_session key none = none
named_session key (some s) = some (key, s)

abbrev pub browser_session : Option Text → Dict Session → Option (Text × Session)
browser_session none sessions = none
browser_session (some key) sessions = named_session key (lookup key sessions)

-- `s.casefold() == t.casefold()`
abbrev pub same_name : Text → Text → Bool
same_name s t = text_eq (lower s) (lower t)

module _ (f : Fernet) (cloud : Cloud) (fresh : Fresh) where
  -- `_raise_mfa_challenge`, `_raise_mfa_enrollment` and `_raise_from_zadara`
  unfoldable pub refuse : ErrorCode → Refusal → Ticket → World → Step
  refuse mfa_required e login w =
      if nonempty e.receipt
      then answered (challenge fresh.ticket) (record w {
        tickets = issue f w.now fresh.ticket (record login { receipt = e.receipt }) w.tickets;
      })
      else fails mfa_required w
  refuse mfa_enrollment_required e login w = answered (enrollment e.secret e.otpauth_uri) w
  refuse code e login w = fails code w

  unfoldable pub settle_password : SignIn → Ticket → World → Step
  settle_password (granted g) login w = goes_on g w
  settle_password (denied e) login w = refuse e.code e login w

  -- The ticket is revoked only once the code is accepted.
  unfoldable pub settle_totp : SignIn → Text → World → Step
  settle_totp (granted g) ticket w = goes_on g (record w { tickets = drop ticket w.tickets })
  settle_totp (denied e) ticket w = fails e.code w

  -- `_complete_mfa`, once the ticket is loaded
  unfoldable pub complete_mfa : Option Ticket → Text → Text → Text → Text → World → Step
  complete_mfa none ticket code account username w = fails mfa_expired w
  complete_mfa (some t) ticket code account username w =
      if same_name account t.account && same_name username t.username
      then settle_totp (cloud.authenticate_totp t.account t.username code t.receipt t.project)
          ticket w
      else fails mfa_expired w

  unfoldable pub first_step : LoginRequest → World → Step
  first_step q w =
      let account = strip q.account in
      let username = strip q.username in
      let code = strip q.mfa_code in
      let ticket = strip q.mfa_token in
      if nonempty ticket
      then complete_mfa (load f w.now ticket w.tickets) ticket code account username w
      else settle_password (cloud.authenticate account username q.password (strip q.project) code)
          (record {
            account = account;
            username = username;
            project = strip q.project;
            receipt = [];
          })
          w

  -- The grant after the try to exchange it for one of the user's first project.
  unfoldable pub exchanged : SignIn → Grant → Grant
  exchanged (granted h) g = h
  exchanged (denied e) g = g

  unfoldable pub rescope : Result (List Named) → Text → Grant → Grant
  rescope (failed code) account g = g
  rescope (ok []) account g = g
  rescope (ok (p ∷ projects)) account g =
      exchanged (cloud.exchange_project g.token p.name account) g

  unfoldable pub final_grant : LoginRequest → Scope → Grant → Grant
  final_grant q project g = g
  final_grant q domain g =
      if nonempty (strip q.project)
      then g
      else rescope (cloud.get_user_projects (strip q.account) (strip q.username)) (strip q.account)
          g

  -- A session under a name, and its token in the vault under another or the same.
  unfoldable pub keep_session : Text → Text → Grant → Dict Session → World → World
  keep_session name vault_name g sessions w = record w {
    sessions = insert name (session_of g) sessions;
    tokens = store f w.now vault_name g.token w.tokens;
  }

  -- `login(request, user)`, `apply_scope_to_session` and `vault.store`. Django gives a browser that is
  -- not signed in a session with a new name, and one that is signed in as the same user keeps its own.
  -- The session of another user is flushed: its successor has no name, `None`, until the response saves
  -- it, and the vault is written before that.
  unfoldable pub start_session : Option (Text × Session) → Grant → World → World
  start_session none g w = keep_session fresh.session_key fresh.session_key g w.sessions w
  start_session (some (key, old)) g w =
      if text_eq old.user_id g.identity.user_id
      then keep_session key key g w.sessions w
      else keep_session fresh.session_key (txt "None") g (drop key w.sessions) w

  -- A blocked user is turned away; any other gets a session.
  unfoldable pub admit : Bool → User → Grant → World → Answer × World
  admit true u g w = (blocked, w)
  admit false u g w = (
    shown (me_payload u (session_of g)),
    start_session (browser_session fresh.old_session w.sessions) g w,
  )

  -- The second half: the user's row, the session and its token.
  unfoldable pub begin : Grant → World → Answer × World
  begin g w = let (u, written) = upsert_user g w in admit u.is_blocked u g written

  unfoldable pub finish : LoginRequest → Step → Answer × World
  finish q (answered a w) = (a, w)
  finish q (goes_on g w) = begin (final_grant q g.scope g) w

  -- `LoginView.post`
  unfoldable pub login : LoginRequest → World → Answer × World
  login q w = finish q (first_step q w)

-- `LogoutView.post`, for the session of the browser
unfoldable pub logout : Text → World → Answer × World
logout key w = (signed_out, record w { sessions = drop key w.sessions; tokens = drop key w.tokens })

abbrev pub user_in : Session → World → Option User
user_in s w = lookup s.user_id w.users

unfoldable pub show_me : Option Text → Option User → Session → Answer
show_me token none s = failure session_expired 401
show_me none (some u) s = failure session_expired 401
show_me (some token) (some u) s = shown (me_payload u s)

-- `RefreshView.post`, for a session that exists
unfoldable pub refresh : Fernet → Text → Session → World → Answer
refresh f key s w = show_me (get_token f w.now key w.tokens) (user_in s w) s
