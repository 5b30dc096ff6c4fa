-- ===== src/Zadara/Service.antt =====
-- apps/integrations/zadara/service.py: the token of the service account and what is read with it. Times
-- are seconds. What the cloud answers is an argument, by the path and the token.
mod Tests
pub mod Token
pub mod Directory
use opencloud_backend.Base.{
  ℕ, ◌+◌, ◌*◌, ◌≡◌, Bool, true, false, ◌&&◌, ◌||◌, not, Option, none, some, List, [], ◌∷◌, ◌++◌,
  map, Text, txt, text_eq, member_text, nonempty, lower, filter_by, first_by, or_default, ltb, ◌==◌,
  if◌then◌else◌,
}
use opencloud_backend.Base.Dict.{Dict, lookup, insert}
use opencloud_backend.Base.Json.{
  Json, null, bool, str, get, truthy, text_of, text_value, show_json, list_of, dicts, is_dict, dict,
  id_at, word_at, flag_at, optional_at,
}
use opencloud_backend.Zadara.Http.{
  Response, Sent, response, error, ErrorCode, unexpected, upstream_error,
}
use opencloud_backend.Zadara.Auth.{AuthResult, signed_in, refused, is_ok}
use opencloud_backend.Zadara.Cache.{Result, ok, failed}
use opencloud_backend.Zadara.Volumes.{items}

abbrev pub token_ttl : ℕ
token_ttl = 3 * 60 * 60

-- `_cache`: the token, and until when it is taken to be good; an empty token is none.
pub record TokenCache : Type 0 where
  pub token : Text
  pub exp : ℕ

-- What the client keeps: the token, and the bodies of the directory with their times.
pub record Client : Type 0 where
  pub now : ℕ
  pub kept : TokenCache
  pub directory : Dict (Json × ℕ)

-- Where the service account is configured, `sign_in` is what `authenticate` makes of it; the number
-- counts the sign-ins of one call, since each may have its own answer.
pub record Service : Type 0 where
  pub configured : Bool
  pub sign_in : ℕ → AuthResult
  pub ask : Text → Text → Sent

unfoldable pub keep_token : AuthResult → Client → Result Text × Client
keep_token (refused code) s = (failed code, s)
keep_token (signed_in scope token) s =
    (ok token, record s { kept = record { token = token; exp = s.now + token_ttl } })

-- `get_service_token`; `now < exp - 120` is written with the margin on the other side.
unfoldable pub get_service_token : Service → Bool → ℕ → Client → Result Text × Client
get_service_token service force turn s =
    if not force && nonempty s.kept.token && ltb (s.now + 120) s.kept.exp
    then (ok s.kept.token, s)
    else if not service.configured
    then (failed unexpected, s)
    else keep_token (service.sign_in turn) s

abbrev pub received : Sent → Result Response
received (error code) = failed code
received (response r) = ok r

-- The request with a token, where there is one.
unfoldable pub ask_with : Service → Text → Result Text → Result Response
ask_with service path (failed code) = failed code
ask_with service path (ok token) = received (service.ask path token)

-- What the answer is worth: a failure, or the body.
unfoldable pub read_body : Result Response → Result (Option Json)
read_body (failed code) = failed code
read_body (ok r) = if is_ok r then ok r.body else failed upstream_error

-- The second request, with a token that is signed in for anew, where the first was answered 401.
unfoldable pub retry : Service → Text → Result Response → Client → Result Response × Client
retry service path (failed code) s = (failed code, s)
retry service path (ok r) s =
    if r.status == 401
    then (let next = get_service_token service true 1 s in (ask_with service path next.0, next.1))
    else (ok r, s)

-- `_svc_get`
unfoldable pub svc_get : Service → Text → Client → Result (Option Json) × Client
svc_get service path s =
    let first = get_service_token service false 0 s in
    let answer = retry service path (ask_with service path first.0) first.1 in
    (read_body answer.0, answer.1)

abbrev pub directory_ttl : ℕ
directory_ttl = 300

abbrev pub is_live : ℕ → Option (Json × ℕ) → Option Json
is_live now none = none
is_live now (some (body, expires)) = if ltb now expires then some body else none

unfoldable pub keep_body : Text → Result (Option Json) → Client → Result (Option Json) × Client
keep_body path (ok (some body)) s =
    (ok (some body), record s { directory = insert path (body, s.now + directory_ttl) s.directory })
keep_body path answer s = (answer, s)

-- `_svc_get_cached`; the digest of the path is taken to be the path.
unfoldable pub svc_get_cached : Service → Text → Client → Result (Option Json) × Client
svc_get_cached service path s = elim (is_live s.now (lookup path s.directory)) [
  | some body ↦ (ok (some body), s)
  | none ↦ let answer = svc_get service path s in keep_body path answer.0 answer.1
]
