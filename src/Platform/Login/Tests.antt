-- ===== src/Platform/Login/Tests.antt =====
-- The theorems on the operators' login at concrete inputs.
use opencloud_backend.Base.{
  ◌≡◌, refl, true, false, none, some, List, [], ◌∷◌, length, All, txt, text_eq, strip, strip_left,
  is_space, nonempty, ltb, leb, ◌&&◌, arith,
}
use opencloud_backend.Platform.Model.{PlatformAdmin, owner, is_locked, uses_access_code}
use opencloud_backend.Platform.Login.{
  External, Fresh, Ticket, World, Session, refused, mfa_expired, find_active, load, login_verify,
  verify, clean_code, all_digits, check_ticket, check_factor, check_totp, finish, add_used,
  decrypt_stored,
}
use opencloud_backend.Platform.Login.Totp.{verify_once}
use opencloud_backend.Platform.Login.Factors.{IsSignedIn, PassesFactor, login_verify-factor}
use opencloud_backend.Platform.Login.Traces.{
  Event, signs, verifies, waits, run, HasProved, run_needs_password,
}
use opencloud_backend.Platform.Login.Tickets.{login_verify_once}
use opencloud_backend.Platform.Permissions.{authenticate, authenticate_operator}

-- Hashes that are the text itself, a cipher that leaves it as it is, and one code for every secret.
abbrev libraries : External
libraries = record {
  hashers = record {
    make = λ raw. raw;
    usable = λ hash. nonempty hash;
    check = λ raw hash. text_eq raw hash;
  };
  characters = record {
    is_digit = λ c. leb b'0' c && leb c b'9';
    is_letter = λ c. leb b'a' c && leb c b'z';
  };
  encrypt = λ s. s;
  decrypt = λ s. some s;
  totp_valid = λ secret code now. text_eq code (txt "123456");
}

abbrev drawn : Fresh
drawn = record { new_ticket = txt "t1"; new_secret = txt "JBSW"; new_session = txt "s1" }

abbrev anna : PlatformAdmin
anna = record {
  pk = 1;
  email = txt "anna@x.uz";
  role = owner;
  password_hash = txt "secret";
  is_active = true;
  totp_secret = txt "ABCD";
  totp_confirmed_at = some 5;
  access_code_hash = [];
  failed_attempts = 0;
  locked_until = none;
  last_login_at = none;
}

abbrev locked_anna : PlatformAdmin
locked_anna = record anna { locked_until = some 500 }

abbrev world_of : PlatformAdmin → World
world_of a = record {
  now = 100;
  admins = a ∷ [];
  tickets = [];
  used_codes = [];
  sessions = [];
  log = [];
}

abbrev ticket : Ticket
ticket = record {
  ticket = txt "t1";
  admin_id = 1;
  enrolling = false;
  pending_secret = none;
  expires = 300;
}

abbrev with_ticket : PlatformAdmin → World
with_ticket a = record (world_of a) { tickets = ticket ∷ [] }

abbrev used : World
used = (verify libraries (txt "ABCD") (txt " 123 456") 1 (world_of anna)).1

verify_once_example :
    (length (clean_code (txt " 123 456")) ≡ 6)
    × (all_digits libraries.characters (clean_code (txt " 123 456")) ≡ true)
    × (libraries.totp_valid (txt "ABCD") (clean_code (txt " 123 456")) 100 ≡ true)
    × ((verify libraries (txt "ABCD") (txt "123456") 1 (record used { now = 189 })).0 ≡ false)
unfolding verify clean_code add_used text_eq strip strip_left is_space
verify_once_example =
    verify_once libraries (txt "ABCD") (txt " 123 456") 1 (world_of anna) refl (txt "ABCD")
      (txt "123456") [] (record used { now = 189 }) refl refl (omega arith)

login_verify-IsSignedIn :
    IsSignedIn (login_verify libraries drawn (txt "t1") (txt "123456") (with_ticket anna)).0
unfolding login_verify load check_ticket check_factor check_totp uses_access_code is_locked verify
    clean_code add_used decrypt_stored finish text_eq strip strip_left is_space
login_verify-IsSignedIn = tt

login_verify-factor_example :
    (payload : Ticket) × (a : PlatformAdmin) × (load (strip (txt "t1")) (with_ticket anna)
      ≡ some payload)
    × (find_active payload.admin_id (with_ticket anna) ≡ some a)
    × (is_locked 100 a ≡ false)
    × PassesFactor libraries (strip (txt "123456")) payload a (with_ticket anna)
login_verify-factor_example =
    login_verify-factor libraries drawn (txt "t1") (txt "123456") (with_ticket anna)
      login_verify-IsSignedIn

abbrev after_login : World
after_login = (login_verify libraries drawn (txt "t1") (txt "123456") (with_ticket anna)).1

login_verify_once_example :
    login_verify libraries drawn (txt "t1") (txt "654321") after_login
    ≡ (refused mfa_expired, after_login)
login_verify_once_example =
    login_verify_once libraries drawn (txt "t1") (txt "123456") (with_ticket anna)
      login_verify-IsSignedIn drawn (txt "654321") after_login refl

abbrev requests : List Event
requests =
    signs drawn (txt "anna@x.uz") (txt "secret")
    ∷ waits 20
    ∷ verifies drawn (txt "t1") (txt "123456")
    ∷ []

run_needs_password_example :
    All
      (λ (t : Ticket). HasProved libraries requests (world_of anna) t.admin_id)
      (run libraries requests (world_of anna)).tickets
    × All
        (λ (s : Session). HasProved libraries requests (world_of anna) s.admin_id)
        (run libraries requests (world_of anna)).sessions
run_needs_password_example = run_needs_password libraries requests (world_of anna) refl refl

abbrev with_session : World
with_session = record (world_of anna) {
  sessions = record { key = txt "s1"; admin_id = 1; expires = 500 } ∷ [];
}

authenticate_operator_example :
    (anna.is_active ≡ true)
    × ((s : Session) × (text_eq s.key (txt "s1") ≡ true)
        × (ltb 100 s.expires ≡ true)
        × (s.admin_id ≡ 1))
unfolding authenticate text_eq
authenticate_operator_example = authenticate_operator (txt "s1") with_session anna refl
