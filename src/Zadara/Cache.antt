-- ===== src/Zadara/Cache.antt =====
-- apps/integrations/zadara/resources.py: the requests of the resource client and its read-through
-- cache. The digest of a token or a path (SHA-256, sixteen digits of it) is an argument.
mod Tests
pub mod Fresh
use opencloud_backend.Base.{
  ℕ, ◌+◌, ◌≡◌, Bool, true, false, ◌&&◌, ◌||◌, not, Option, none, some, List, [], ◌∷◌, Text, text_eq,
  first_by, filter_by, or_default, ltb, ◌==◌, if◌then◌else◌,
}
use opencloud_backend.Base.Dict.{Dict, lookup, insert}
use opencloud_backend.Base.Json.{Json}
use opencloud_backend.Zadara.Http.{
  Response, Sent, response, error, ErrorCode, session_expired, forbidden, not_found, conflict,
  upstream_error,
}
use opencloud_backend.Zadara.Auth.{is_ok}

-- A value, or a ZadaraError.
pub data Result (A : Type 0) : Type 0 where
  ok : A → Result A
  failed : ErrorCode → Result A

-- `_authed_get`, of what the request came to; the body is none where it is not JSON.
unfoldable pub authed_get : Sent → Result (Option Json)
authed_get (error code) = failed code
authed_get (response r) =
    if r.status == 401
    then failed session_expired
    else if r.status == 403
    then failed forbidden
    else if not (is_ok r)
    then failed upstream_error
    else ok r.body

-- `_authed_post`
unfoldable pub authed_post : Sent → Result (Option Json)
authed_post (error code) = failed code
authed_post (response r) =
    if r.status == 401
    then failed session_expired
    else if r.status == 403
    then failed forbidden
    else if r.status == 404
    then failed not_found
    else if r.status == 409
    then failed conflict
    else if not (is_ok r)
    then failed upstream_error
    else ok r.body

abbrev pub response_ttl : ℕ
response_ttl = 45

-- An entry under `zadara:resp:{scope}:{version}:{path digest}`.
pub record CacheEntry : Type 0 where
  pub scope : Text
  pub version : ℕ
  pub path : Text
  pub value : Json
  pub expires : ℕ

-- The entries, and the counters under `zadara:ver:{scope}`, which do not expire.
pub record Cache : Type 0 where
  pub entries : List CacheEntry
  pub versions : Dict ℕ

unfoldable pub scope_version : Text → Cache → ℕ
scope_version scope c = or_default (lookup scope c.versions) 0

abbrev pub is_entry : Text → ℕ → Text → CacheEntry → Bool
is_entry scope version path e = text_eq e.scope scope && e.version == version && text_eq e.path path

-- `cache.get(key)`
unfoldable pub cache_get : ℕ → Text → ℕ → Text → Cache → Option CacheEntry
cache_get now scope version path c =
    first_by (λ (e : CacheEntry). is_entry scope version path e && ltb now e.expires) c.entries

-- `cache.set(key, value, ttl)`
unfoldable pub cache_set : ℕ → Text → ℕ → Text → Json → Cache → Cache
cache_set now scope version path value c = record c {
  entries =
      record {
        scope = scope;
        version = version;
        path = path;
        value = value;
        expires = now + response_ttl;
      }
      ∷ filter_by (λ (e : CacheEntry). not (is_entry scope version path e)) c.entries;
}

-- What `_cached_get` does with what it finds, and, where it finds nothing, with what it is answered.
unfoldable pub settle :
    ℕ
    → Text
    → ℕ
    → Text
    → Option CacheEntry
    → Result (Option Json)
    → Cache
    → Result (Option Json) × Cache
settle now scope version path (some hit) answer c = (ok (some hit.value), c)
settle now scope version path none (failed code) c = (failed code, c)
settle now scope version path none (ok none) c = (ok none, c)
settle now scope version path none (ok (some body)) c =
    (ok (some body), cache_set now scope version path body c)

module _ (digest : Text → Text) where
  -- `invalidate`
  unfoldable pub invalidate : Text → Cache → Cache
  invalidate token c =
      let scope = digest token in
      record c { versions = insert scope (scope_version scope c + 1) c.versions }

  abbrev pub find : ℕ → Text → Text → Cache → Option CacheEntry
  find now token path c =
      cache_get now (digest token) (scope_version (digest token) c) (digest path) c

  -- `_cached_get`; `asked` is what the cloud answers, where it is asked.
  unfoldable pub cached_get : ℕ → Text → Text → Sent → Cache → Result (Option Json) × Cache
  cached_get now path token asked c =
      settle now (digest token) (scope_version (digest token) c) (digest path)
        (find now token path c) (authed_get asked) c
