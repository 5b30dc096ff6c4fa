-- ===== src/Zadara/Machines/Console.antt =====
-- apps/integrations/zadara/resources.py: the address of a machine's console.
use opencloud_backend.Base.{
  Bool, ◌&&◌, ◌||◌, not, none, some, List, [], ◌∷◌, ◌++◌, Text, txt, nonempty, starts_with, strip,
  contains_text, ◌==◌, if◌then◌else◌, ℕ,
}
use opencloud_backend.Base.Json.{Json, str, get, truthy, text_of, is_dict}
use opencloud_backend.Zadara.Http.{
  Response, not_found, session_expired, upstream_error, console_forbidden, console_unavailable,
}
use opencloud_backend.Zadara.Auth.{is_ok}
use opencloud_backend.Zadara.Cache.{Result, ok, failed}

unfoldable pub left_slashes : Text → Text
left_slashes [] = []
left_slashes (c ∷ s) = if c == b'/' then left_slashes s else c ∷ s

-- `s.rstrip('/')`
unfoldable pub right_slashes : Text → Text
right_slashes [] = []
right_slashes (c ∷ s) =
    let rest = right_slashes s in if c == b'/' && not (nonempty rest) then [] else c ∷ rest

-- `_absolute`; an address that is missing is empty.
unfoldable pub absolute : Text → Text → Text
absolute api_url url =
    if not (nonempty url)
    then []
    else if starts_with url (txt "http://") || starts_with url (txt "https://")
    then url
    else right_slashes api_url ++ txt "/" ++ left_slashes url

-- `url or body[key] or ...`, over the keys.
unfoldable pub first_key : List Text → Json → Text
first_key [] body = []
first_key (key ∷ keys) body =
    let rest = first_key keys body in if truthy (get key body) then text_of (get key body) else rest

-- The address in the body: a text, or under one of the keys, or in the console's object.
unfoldable pub body_url : Json → Text
body_url (str s) = strip s
body_url body =
    let named = first_key (txt "url" ∷ txt "console_url" ∷ txt "link" ∷ txt "href" ∷ []) body in
    let console = get (txt "console") body in
    if nonempty named
    then named
    else if is_dict console
    then text_of (get (txt "url") console)
    else []

pub record Console : Type 0 where
  pub url : Text
  pub status : ℕ

-- The answer to the request for a console: the response, and what only this request reads of it.
pub record ConsoleAnswer : Type 0 where
  pub response : Response
  pub is_redirect : Bool
  pub content_type : Text
  pub location : Text

unfoldable pub console_url : Text → ConsoleAnswer → Text
console_url api_url answer =
    let body =
      if contains_text (txt "json") answer.content_type then answer.response.body else none in
    absolute api_url (
      if nonempty answer.location
      then answer.location
      else elim body [ none ↦ [] | some b ↦ body_url b ])

-- `get_vm_console`
unfoldable pub get_vm_console : Text → ConsoleAnswer → Result Console
get_vm_console api_url answer =
    let status = answer.response.status in
    if status == 404
    then failed not_found
    else if status == 403
    then failed console_forbidden
    else if status == 401
    then failed session_expired
    else if not (is_ok answer.response || answer.is_redirect)
    then failed upstream_error
    else if not (nonempty (console_url api_url answer))
    then failed console_unavailable
    else ok (record { url = console_url api_url answer; status = status })
