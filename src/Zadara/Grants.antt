-- ===== src/Zadara/Grants.antt =====
-- apps/integrations/zadara/auth.py (_parse_auth_body, _enrollment_error), dto.py: what a token says
-- of its user. `quoted` is Python's `quote`.
use opencloud_backend.Base.{Option, List, ◌++◌, map, filter_by, Text, txt, nonempty, if◌then◌else◌}
use opencloud_backend.Base.Json.{
  Json, get, text_of, text_or_none, list_of, or_word, or_json, is_dict,
}

-- The fields of an AuthResult that are read, but the token and its scope; an email that is missing is
-- empty.
pub record Identity : Type 0 where
  pub user_id : Text
  pub user_name : Text
  pub email : Text
  pub account_id : Option Text
  pub account_name : Text
  pub project_id : Option Text
  pub project_name : Option Text
  pub roles : List Text

abbrev pub role_name : Json → Text
role_name r = text_of (if is_dict r then get (txt "name") r else r)

-- `_parse_auth_body`
unfoldable pub parse_auth_body : Json → Text → Identity
parse_auth_body body fallback_account =
    let token = get (txt "token") body in
    let user = get (txt "user") token in
    let project = get (txt "project") token in
    let domain =
      or_json (get (txt "domain") token)
        (or_json (get (txt "domain") project) (get (txt "domain") user)) in
    record {
      user_id = or_word (text_of (get (txt "id") user)) (text_of (get (txt "name") user));
      user_name = text_of (get (txt "name") user);
      email = text_of (get (txt "email") user);
      account_id = text_or_none (get (txt "id") domain);
      account_name = or_word (text_of (get (txt "name") domain)) fallback_account;
      project_id = text_or_none (get (txt "id") project);
      project_name = text_or_none (get (txt "name") project);
      roles =
          filter_by (λ (r : Text). nonempty r) (map role_name (list_of (get (txt "roles") token)));
    }

-- The address that `_enrollment_error` hands on, for a QR code.
unfoldable pub otpauth_uri : (Text → Text) → Text → Text → Text → Text
otpauth_uri quoted secret account username =
    txt "otpauth://totp/"
    ++ quoted (account ++ txt ":" ++ username)
    ++ txt "?secret="
    ++ secret
    ++ txt "&issuer="
    ++ quoted account
    ++ txt "&algorithm=SHA1&digits=6&period=30"
