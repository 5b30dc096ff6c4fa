-- ===== src/Zadara/Identity.antt =====
-- apps/integrations/zadara/identity.py: the users and roles of an account, changed with the
-- administrator's own token. What the cloud answers is an argument, by the payload.
use opencloud_backend.Base.{
  Bool, ◌||◌, not, Option, none, some, List, [], ◌∷◌, Text, txt, nonempty, ◌==◌, if◌then◌else◌,
}
use opencloud_backend.Base.Json.{Json, bool, str, is_dict, dict}
use opencloud_backend.Zadara.Http.{
  Sent, response, error, forbidden, not_found, conflict, invalid_request, upstream_error,
}
use opencloud_backend.Zadara.Auth.{is_ok}
use opencloud_backend.Zadara.Cache.{Result, ok, failed}

-- A body that is a dict.
abbrev pub dict_body : Option Json → Option Json
dict_body none = none
dict_body (some body) = if is_dict body then some body else none

-- `_result`
unfoldable pub result_of : Sent → Result (Option Json)
result_of (error code) = failed code
result_of (response r) =
    if r.status == 401 || r.status == 403
    then failed forbidden
    else if r.status == 404
    then failed not_found
    else if r.status == 409
    then failed conflict
    else if r.status == 400
    then failed invalid_request
    else if not (is_ok r)
    then failed upstream_error
    else ok (dict_body r.body)

pub record NewUser : Type 0 where
  pub domain_id : Text
  pub name : Text
  pub email : Text
  pub password : Text
  pub must_change_password : Bool
  pub project_id : Text

-- `create_user`
unfoldable pub create_user : (Json → Sent) → NewUser → Result (Option Json)
create_user ask u = result_of (
    ask (
      dict (
        (txt "name", str u.name)
        ∷ (txt "email", str u.email)
        ∷ (txt "password", str u.password)
        ∷ (txt "project_id", str u.project_id)
        ∷ (txt "domain_id", str u.domain_id)
        ∷ (txt "must_change_password", bool u.must_change_password)
        ∷ [])))

-- `{k: v for k, v in fields.items() if v is not None}`
unfoldable pub given : List (Text × Option Json) → List (Text × Json)
given [] = []
given ((key, none) ∷ fields) = given fields
given ((key, some v) ∷ fields) = (key, v) ∷ given fields

-- `update_user`
unfoldable pub update_user : (Json → Sent) → List (Text × Option Json) → Result (Option Json)
update_user ask fields =
    if not (nonempty (given fields))
    then failed invalid_request
    else result_of (ask (dict (given fields)))

abbrev pub no_value : Result (Option Json) → Result Unit
no_value (failed code) = failed code
no_value (ok body) = ok tt

-- `delete_user`, `grant_project_role` and `revoke_project_role`, of what the cloud answers
unfoldable pub delete_user : Sent → Result Unit
delete_user sent = no_value (result_of sent)

unfoldable pub grant_project_role : Sent → Result Unit
grant_project_role sent = no_value (result_of sent)

unfoldable pub revoke_project_role : Sent → Result Unit
revoke_project_role sent = no_value (result_of sent)
