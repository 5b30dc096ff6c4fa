-- ===== src/Platform/Own/Tests.antt =====
-- The theorems on an operator's own account at concrete inputs.
use opencloud_backend.Base.{
  ◌≡◌, ℕ, true, false, ◌&&◌, ◌||◌, ◌==◌, none, [], ◌∷◌, txt, text_eq, nonempty, leb, if◌then◌else◌,
}
use opencloud_backend.Platform.Model.{Hashers, Characters, PlatformAdmin, support}
use opencloud_backend.Platform.Login.{World}
use opencloud_backend.Platform.Own.{
  change_password, changed, may_change, row_of, with_hash, change_password_lem,
}

abbrev plain : Hashers
plain = record {
  make = λ raw. raw;
  usable = λ hash. nonempty hash;
  check = λ raw hash. text_eq raw hash;
}

abbrev boris : PlatformAdmin
boris = record {
  pk = 2;
  email = txt "boris@x.uz";
  role = support;
  password_hash = txt "old secret 1";
  is_active = true;
  totp_secret = [];
  totp_confirmed_at = none;
  access_code_hash = [];
  failed_attempts = 0;
  locked_until = none;
  last_login_at = none;
}

abbrev world : World
world = record {
  now = 100;
  admins = boris ∷ [];
  tickets = [];
  used_codes = [];
  sessions =
      record { key = txt "s1"; admin_id = 2; expires = 500 }
      ∷ record { key = txt "s2"; admin_id = 2; expires = 500 }
      ∷ [];
  log = [];
}

abbrev ascii : Characters
ascii = record {
  is_digit = λ c. leb b'0' c && leb c b'9';
  is_letter = λ c. leb b'a' c && leb c b'z' || leb b'A' c && leb c b'Z';
}

change_password_lem_example :
    let (answer, after) =
      change_password plain ascii (txt "old secret 1") (txt "new secret 2") boris world in
    (elim answer [ changed ↦ true | _ ↦ false ]
      ≡ may_change plain ascii (txt "old secret 1") (txt "new secret 2") boris)
    × ((pk : ℕ)
        → row_of pk after.admins ≡ (
            if may_change plain ascii (txt "old secret 1") (txt "new secret 2") boris && pk == 2
            then with_hash (txt "new secret 2") (row_of pk world.admins)
            else row_of pk world.admins))
    × (after.sessions ≡ world.sessions)
change_password_lem_example =
    change_password_lem plain ascii (txt "old secret 1") (txt "new secret 2") boris world
