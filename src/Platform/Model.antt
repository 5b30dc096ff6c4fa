-- ===== src/Platform/Model.antt =====
-- apps/platform_admin/models.py: an operator with the password, the second factor and the lockout.
-- Times are seconds.
use opencloud_backend.Base.{
  ℕ, ◌+◌, ◌*◌, Bool, true, false, ◌&&◌, Option, none, some, Text, [], nonempty, ltb, leb,
  if◌then◌else◌,
}

pub data Role : Type 0 where
  owner ops support finance : Role

-- What Django's hashers do; the hash of a password is their matter. `usable` is
-- `is_password_usable`, `check raw hash` is `check_password`.
pub record Hashers : Type 0 where
  pub make : Text → Text
  pub usable : Text → Bool
  pub check : Text → Text → Bool

-- The database of characters behind `str.isdigit` and `str.isalpha`, by code point.
pub record Characters : Type 0 where
  pub is_digit : ℕ → Bool
  pub is_letter : ℕ → Bool

pub record PlatformAdmin : Type 0 where
  pub pk : ℕ
  pub email : Text
  pub role : Role
  pub password_hash : Text
  pub is_active : Bool
  -- The secret as `totp.encrypt` leaves it; empty until enrolment.
  pub totp_secret : Text
  pub totp_confirmed_at : Option ℕ
  pub access_code_hash : Text
  pub failed_attempts : ℕ
  pub locked_until : Option ℕ
  pub last_login_at : Option ℕ

abbrev pub max_failed_attempts : ℕ
max_failed_attempts = 5

abbrev pub lockout_seconds : ℕ
lockout_seconds = 15 * 60

module _ (h : Hashers) where
  unfoldable pub check_password : PlatformAdmin → Text → Bool
  check_password a raw = h.usable a.password_hash && h.check raw a.password_hash

  unfoldable pub uses_access_code : PlatformAdmin → Bool
  uses_access_code a = nonempty a.access_code_hash && h.usable a.access_code_hash

  unfoldable pub check_access_code : PlatformAdmin → Text → Bool
  unfolding uses_access_code
  check_access_code a raw = uses_access_code a && h.check raw a.access_code_hash

  unfoldable pub set_access_code : PlatformAdmin → Option Text → PlatformAdmin
  set_access_code a none = record a { access_code_hash = [] }
  set_access_code a (some raw) = record a {
    access_code_hash = if nonempty raw then h.make raw else [];
  }

unfoldable pub is_locked : ℕ → PlatformAdmin → Bool
is_locked now a = elim a.locked_until [ none ↦ false | some until ↦ ltb now until ]

unfoldable pub note_failure : ℕ → PlatformAdmin → PlatformAdmin
note_failure now a =
    if leb max_failed_attempts (a.failed_attempts + 1)
    then record a { failed_attempts = 0; locked_until = some (now + lockout_seconds) }
    else record a { failed_attempts = a.failed_attempts + 1 }

unfoldable pub note_success : ℕ → PlatformAdmin → PlatformAdmin
note_success now a = record a { failed_attempts = 0; locked_until = none; last_login_at = some now }

abbrev pub can_write : PlatformAdmin → Bool
can_write a = elim a.role [ owner ↦ true | ops ↦ true | _ ↦ false ]

abbrev pub can_bill : PlatformAdmin → Bool
can_bill a = elim a.role [ owner ↦ true | finance ↦ true | _ ↦ false ]
