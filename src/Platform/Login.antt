-- ===== src/Platform/Login.antt =====
-- apps/platform_admin: auth_views.py, tickets.py, totp.py and the sessions of authentication.py.
-- A request returns its answer and the world after it: what was saved before an error stays saved.
pub mod Totp
pub mod Lockout
pub mod Factors
pub mod Keeps
pub mod Traces
pub mod Tickets
mod Tests
use opencloud_backend.Base.{
  ℕ, suc, ◌+◌, ◌*◌, Bool, true, false, ◌&&◌, ◌||◌, not, Option, none, some, List, [], ◌∷◌, ◌++◌,
  length, Text, nonempty, text_eq, strip, lower, first_by, filter_by, any_by, is_some, ltb, leb,
  ◌==◌, if◌then◌else◌,
}
use opencloud_backend.Platform.Model.{
  Hashers, Characters, PlatformAdmin, check_password, uses_access_code, check_access_code,
  is_locked, note_failure, note_success,
}

-- Libraries and their randomness: the hashers, the characters, Fernet with the vault's key (`none` is an invalid
-- token), and pyotp's check of a code at a time, one step of drift either way.
pub record External : Type 0 where
  pub hashers : Hashers
  pub characters : Characters
  pub encrypt : Text → Text
  pub decrypt : Text → Option Text
  pub totp_valid : Text → Text → ℕ → Bool

-- What a ticket stands for, and when the cache drops it.
pub record Ticket : Type 0 where
  pub ticket : Text
  pub admin_id : ℕ
  pub enrolling : Bool
  pub pending_secret : Option Text
  pub expires : ℕ

-- A code that was used: the cache key `platform_totp_used:{admin}:{code}`.
pub record UsedCode : Type 0 where
  pub admin_id : ℕ
  pub code : Text
  pub expires : ℕ

pub record Session : Type 0 where
  pub key : Text
  pub admin_id : ℕ
  pub expires : ℕ

pub data Outcome : Type 0 where
  success failure : Outcome

pub data ErrorCode : Type 0 where
  no_error unknown_operator locked bad_password bad_access_code bad_totp : ErrorCode

pub data ActionName : Type 0 where
  admin_login admin_totp_enroll admin_logout admin_password_change : ActionName

pub record AdminAction : Type 0 where
  pub action : ActionName
  pub actor : Option ℕ
  pub outcome : Outcome
  pub error_code : ErrorCode

pub record World : Type 0 where
  pub now : ℕ
  pub admins : List PlatformAdmin
  pub tickets : List Ticket
  pub used_codes : List UsedCode
  pub sessions : List Session
  pub log : List AdminAction

abbrev pub ticket_ttl : ℕ
ticket_ttl = 4 * 60

abbrev pub replay_ttl : ℕ
replay_ttl = 30 * (2 * 1 + 1)

abbrev pub session_seconds : ℕ
session_seconds = 8 * 60 * 60

-- `admin.save()`
unfoldable pub save : PlatformAdmin → List PlatformAdmin → List PlatformAdmin
save a [] = []
save a (b ∷ admins) = if b.pk == a.pk then a ∷ admins else b ∷ save a admins

unfoldable pub record_action : ActionName → Option ℕ → Outcome → ErrorCode → World → World
record_action name actor outcome error w = record w {
  log =
      w.log ++ record { action = name; actor = actor; outcome = outcome; error_code = error } ∷ [];
}

-- `tickets.issue`
unfoldable pub issue : Text → ℕ → Bool → Option Text → World → World
issue ticket admin_id enrolling pending w = record w {
  tickets =
      record {
        ticket = ticket;
        admin_id = admin_id;
        enrolling = enrolling;
        pending_secret = pending;
        expires = w.now + ticket_ttl;
      }
      ∷ w.tickets;
}

-- `tickets.load`: the cache drops an entry when its time is up.
unfoldable pub load : Text → World → Option Ticket
load ticket w =
    if nonempty ticket
    then first_by (λ t. text_eq t.ticket ticket && ltb w.now t.expires) w.tickets
    else none

unfoldable pub revoke : Text → World → World
revoke ticket w = record w { tickets = filter_by (λ t. not (text_eq t.ticket ticket)) w.tickets }

abbrev pub every : (ℕ → Bool) → Text → Bool
every test [] = true
every test (c ∷ s) = test c && every test s

-- `code.isdigit()`
abbrev pub all_digits : Characters → Text → Bool
all_digits characters s = nonempty s && every characters.is_digit s

-- `code.strip().replace(' ', '')`
unfoldable pub clean_code : Text → Text
clean_code code = filter_by (λ c. not (c == 32)) (strip code)

-- `cache.add`: set if absent; the answer is whether it was.
unfoldable pub add_used : ℕ → ℕ → Text → List UsedCode → Bool × List UsedCode
add_used now admin_id code used =
    if any_by (λ (u : UsedCode). u.admin_id == admin_id && text_eq u.code code && ltb now u.expires)
      used
    then (false, used)
    else (true, record { admin_id = admin_id; code = code; expires = now + replay_ttl } ∷ used)

module _ (x : External) where
  -- `totp.verify`
  unfoldable pub verify : Text → Text → ℕ → World → Bool × World
  verify secret raw admin_id w =
      let code = clean_code raw in
      if not (nonempty secret) || not (all_digits x.characters code) || not (length code == 6)
      then (false, w)
      else (if not (x.totp_valid secret code w.now)
          then (false, w)
          else (let (fresh, used) = add_used w.now admin_id code w.used_codes in
              (fresh, record w { used_codes = used })))

  -- `totp.decrypt`
  unfoldable pub decrypt_stored : Text → Option Text
  decrypt_stored stored = if nonempty stored then x.decrypt stored else none

-- The random values that a request draws.
pub record Fresh : Type 0 where
  pub new_ticket : Text
  pub new_secret : Text
  pub new_session : Text

pub data LoginError : Type 0 where
  invalid_credentials account_locked mfa_expired invalid_access_code invalid_mfa_code : LoginError

pub data Answer : Type 0 where
  stage_code stage_totp : Text → Answer
  stage_enroll : Text → Text → Answer
  signed_in : ℕ → Answer
  refused : LoginError → Answer

abbrev pub find_email : Text → World → Option PlatformAdmin
find_email email w = first_by (λ (a : PlatformAdmin). text_eq a.email email) w.admins

abbrev pub find_active : ℕ → World → Option PlatformAdmin
find_active pk w = first_by (λ (a : PlatformAdmin). a.pk == pk && a.is_active) w.admins

-- `admin.note_failure()` and the row of the log behind it.
unfoldable pub fail_attempt : PlatformAdmin → ErrorCode → World → World
fail_attempt a error w =
    record_action admin_login (some a.pk) failure error
      (record w { admins = save (note_failure w.now a) w.admins })

module _ (x : External) where
  -- Step 1 for an operator whose password is right.
  unfoldable pub open_second_step : Fresh → PlatformAdmin → World → Answer × World
  open_second_step fresh a w =
      if uses_access_code x.hashers a
      then (stage_code fresh.new_ticket, issue fresh.new_ticket a.pk false none w)
      else (if is_some a.totp_confirmed_at && nonempty a.totp_secret
          then (stage_totp fresh.new_ticket, issue fresh.new_ticket a.pk false none w)
          else (
            stage_enroll fresh.new_ticket fresh.new_secret,
            issue fresh.new_ticket a.pk true (some (x.encrypt fresh.new_secret)) w,
          ))

  unfoldable pub check_operator : Fresh → Text → PlatformAdmin → World → Answer × World
  check_operator fresh password a w =
      if not a.is_active
      then (refused invalid_credentials, record_action admin_login none failure unknown_operator w)
      else (if is_locked w.now a
          then (refused account_locked, record_action admin_login (some a.pk) failure locked w)
          else (if not (check_password x.hashers a password)
              then (refused invalid_credentials, fail_attempt a bad_password w)
              else open_second_step fresh a w))

  -- `LoginView.post`
  unfoldable pub login : Fresh → Text → Text → World → Answer × World
  login fresh raw_email password w = elim (find_email (lower (strip raw_email)) w) [
    | none ↦
        (refused invalid_credentials, record_action admin_login none failure unknown_operator w)
    | some a ↦ check_operator fresh password a w
  ]

  -- The session, once the second factor is through.
  unfoldable pub finish : Fresh → Text → PlatformAdmin → World → Answer × World
  finish fresh ticket a w =
      let revoked = revoke ticket w in
      let started : World = record revoked {
        sessions =
            record { key = fresh.new_session; admin_id = a.pk; expires = w.now + session_seconds }
            ∷ revoked.sessions;
        admins = save (note_success w.now a) revoked.admins;
      } in
      (signed_in a.pk, record_action admin_login (some a.pk) success no_error started)

  -- An enrolling operator's secret is saved with the first code that it makes.
  unfoldable pub enroll : Text → PlatformAdmin → World → PlatformAdmin × World
  enroll secret a w =
      let enrolled : PlatformAdmin = record a {
        totp_secret = x.encrypt secret;
        totp_confirmed_at = some w.now;
      } in
      (
        enrolled,
        record_action admin_totp_enroll (some a.pk) success no_error
            (record w { admins = save enrolled w.admins }),
      )

  unfoldable pub check_totp : Fresh → Text → Text → Ticket → PlatformAdmin → World → Answer × World
  check_totp fresh ticket code payload a w =
      let secret : Option Text =
        if payload.enrolling
        then elim payload.pending_secret [ none ↦ none | some s ↦ decrypt_stored x s ]
        else decrypt_stored x a.totp_secret in
      elim secret [
        | none ↦ (refused invalid_mfa_code, fail_attempt a bad_totp w)
        | some s ↦
            let (valid, w') = verify x s code a.pk w in
            if not valid
            then (refused invalid_mfa_code, fail_attempt a bad_totp w')
            else (if payload.enrolling
                then finish fresh ticket (enroll s a w').0 (enroll s a w').1
                else finish fresh ticket a w')
      ]

  unfoldable pub check_factor :
      Fresh → Text → Text → Ticket → PlatformAdmin → World → Answer × World
  check_factor fresh ticket code payload a w =
      if uses_access_code x.hashers a
      then (if not (check_access_code x.hashers a code)
          then (refused invalid_access_code, fail_attempt a bad_access_code w)
          else finish fresh ticket a w)
      else check_totp fresh ticket code payload a w

  unfoldable pub check_ticket : Fresh → Text → Text → Ticket → World → Answer × World
  check_ticket fresh ticket code payload w = elim (find_active payload.admin_id w) [
    | none ↦ (refused invalid_credentials, revoke ticket w)
    | some a ↦
        if is_locked w.now a
        then (
          refused account_locked,
          record_action admin_login (some a.pk) failure locked (revoke ticket w),
        )
        else check_factor fresh ticket code payload a w
  ]

  -- `LoginVerifyView.post`
  unfoldable pub login_verify : Fresh → Text → Text → World → Answer × World
  login_verify fresh raw_ticket raw_code w = elim (load (strip raw_ticket) w) [
    | none ↦ (refused mfa_expired, w)
    | some payload ↦ check_ticket fresh (strip raw_ticket) (strip raw_code) payload w
  ]
