-- ===== src/Zadara/Service/Directory.antt =====
-- apps/integrations/zadara/service.py: the directory of accounts, users and projects that is read for the
-- service, and a user's projects.
use opencloud_backend.Base.{
  Bool, true, ◌&&◌, not, Option, none, some, List, [], ◌∷◌, ◌++◌, map, Text, txt, text_eq,
  member_text, nonempty, lower, filter_by, first_by, or_default, if◌then◌else◌,
}
use opencloud_backend.Base.Dict.{Dict, lookup, insert}
use opencloud_backend.Base.Json.{
  Json, null, bool, get, truthy, text_of, show_json, dicts, dict, id_at, word_at, flag_at,
  optional_at,
}
use opencloud_backend.Zadara.Cache.{Result, ok, failed}
use opencloud_backend.Zadara.Volumes.{items}
use opencloud_backend.Zadara.Service.{Client, Service, svc_get, svc_get_cached}

-- A result, changed where there is one.
unfoldable pub on_body : {A : Type 0} → (Option Json → A) → Result (Option Json) → Result A
on_body f (failed code) = failed code
on_body f (ok body) = ok (f body)

pub record Named : Type 0 where
  pub id : Text
  pub name : Text

unfoldable pub read_named : Json → Named
read_named d = record { id = text_of (get (txt "id") d); name = text_of (get (txt "name") d) }

-- `[… for d in items if d.get('id')]`
unfoldable pub read_directory : Text → Option Json → List Named
read_directory key body =
    map read_named (filter_by (λ (d : Json). truthy (get (txt "id") d)) (items body key))

abbrev pub domains_path : Text
domains_path = txt "/api/v2/identity/domains"

-- `list_domains`
unfoldable pub list_domains : Service → Client → Result (List Named) × Client
list_domains service s =
    let answer = svc_get_cached service domains_path s in
    (on_body (read_directory (txt "domains")) answer.0, answer.1)

-- The names are compared without their case.
abbrev pub has_name : Text → Json → Bool
has_name name d = text_eq (lower (text_of (get (txt "name") d))) (lower name)

unfoldable pub find_domain : Text → Option Json → Option Text
find_domain name body = elim (first_by (has_name name) (items body (txt "domains"))) [
  | none ↦ none
  | some d ↦ some (text_of (get (txt "id") d))
]

-- `resolve_domain_id`
unfoldable pub resolve_domain_id : Service → Text → Client → Result (Option Text) × Client
resolve_domain_id service account s =
    let answer = svc_get_cached service domains_path s in
    (on_body (find_domain account) answer.0, answer.1)

pub record DirectoryUser : Type 0 where
  pub id : Text
  pub name : Json
  pub email : Json
  pub domain_id : Text
  pub default_project_id : Json

unfoldable pub find_user : Text → Text → Option Json → Option DirectoryUser
find_user domain_id username body = elim (first_by (has_name username) (items body (txt "users"))) [
  | none ↦ none
  | some u ↦ some (record {
    id = show_json (get (txt "id") u);
    name = get (txt "name") u;
    email = get (txt "email") u;
    domain_id = domain_id;
    default_project_id = get (txt "default_project_id") u;
  })
]

unfoldable pub resolve_in :
    Service → Text → Result (Option Text) → Client → Result (Option DirectoryUser) × Client
resolve_in service username (failed code) s = (failed code, s)
resolve_in service username (ok none) s = (ok none, s)
resolve_in service username (ok (some domain_id)) s =
    if not (nonempty domain_id)
    then (ok none, s)
    else (let answer = svc_get service (txt "/api/v2/identity/users?domain_id=" ++ domain_id) s in
        (on_body (find_user domain_id username) answer.0, answer.1))

-- `resolve_user`
unfoldable pub resolve_user :
    Service → Text → Text → Client → Result (Option DirectoryUser) × Client
resolve_user service account username s =
    let domain = resolve_domain_id service account s in
    resolve_in service username domain.0 domain.1

-- The loop of `get_user_project_ids`: each project once. The ids are taken to be texts.
unfoldable pub add_projects : List Json → List Text → List Text
add_projects [] ids = ids
add_projects (a ∷ assignments) ids =
    let pid = get (txt "id") (get (txt "project") (get (txt "scope") a)) in
    add_projects assignments
      (if truthy pid && not (member_text (text_of pid) ids) then ids ++ text_of pid ∷ [] else ids)

-- `get_user_project_ids`
unfoldable pub get_user_project_ids : Service → Text → Client → Result (List Text) × Client
get_user_project_ids service user_id s =
    let answer = svc_get service (txt "/api/v2/identity/role_assignments?user.id=" ++ user_id) s in
    (
      on_body (λ (body : Option Json). add_projects (items body (txt "role_assignments")) [])
          answer.0,
      answer.1,
    )

abbrev pub projects_path : Text → Text
projects_path domain_id = txt "/api/v2/identity/projects?domain_id=" ++ domain_id

unfoldable pub project_names : List Named → Dict Text → Dict Text
project_names [] names = names
project_names (p ∷ projects) names = project_names projects (insert p.id p.name names)

-- `list_domain_projects`
unfoldable pub list_domain_projects : Service → Text → Client → Result (Dict Text) × Client
list_domain_projects service domain_id s =
    let answer = svc_get_cached service (projects_path domain_id) s in
    (
      on_body (λ (body : Option Json). project_names (read_directory (txt "projects") body) [])
          answer.0,
      answer.1,
    )

unfoldable pub name_projects : List Text → Result (Dict Text) → Result (List Named)
name_projects ids (failed code) = failed code
name_projects ids (ok names) =
    ok (map (λ (pid : Text). record { id = pid; name = or_default (lookup pid names) pid }) ids)

unfoldable pub projects_in :
    Service → Text → Result (List Text) → Client → Result (List Named) × Client
projects_in service domain_id (failed code) s = (failed code, s)
projects_in service domain_id (ok ids) s =
    let names = list_domain_projects service domain_id s in (name_projects ids names.0, names.1)

unfoldable pub projects_of :
    Service → Result (Option DirectoryUser) → Client → Result (List Named) × Client
projects_of service (failed code) s = (failed code, s)
projects_of service (ok none) s = (ok [], s)
projects_of service (ok (some user)) s =
    let ids = get_user_project_ids service user.id s in
    projects_in service user.domain_id ids.0 ids.1

-- `get_user_projects`
unfoldable pub get_user_projects : Service → Text → Text → Client → Result (List Named) × Client
get_user_projects service account username s =
    let user = resolve_user service account username s in projects_of service user.0 user.1

unfoldable pub domain_user : Json → Json
domain_user u = dict (
    (txt "id", id_at (txt "id") u)
    ∷ (txt "name", word_at (txt "name") [] u)
    ∷ (txt "email", get (txt "email") u)
    ∷ (txt "enabled", flag_at (txt "enabled") u)
    ∷ (txt "mfaEnabled", flag_at (txt "mfa_enabled") u)
    ∷ (txt "isLocal", flag_at (txt "is_local") u)
    ∷ (txt "systemUser", flag_at (txt "system_user") u)
    ∷ (txt "createdAt", get (txt "created_at") u)
    ∷ (txt "passwordExpiresAt", get (txt "password_expires_at") u)
    ∷ (txt "defaultProjectId", get (txt "default_project_id") u)
    ∷ [])

-- `list_domain_users`
unfoldable pub list_domain_users : Service → Text → Client → Result (List Json) × Client
list_domain_users service domain_id s =
    let answer = svc_get service (txt "/api/v2/identity/users?domain_id=" ++ domain_id) s in
    (
      on_body (λ (body : Option Json). map domain_user (dicts (items body (txt "users")))) answer.0,
      answer.1,
    )

-- `p.get('enabled', True)`, where a null counts as missing
abbrev pub enabled_of : Json → Json
enabled_of p = elim (get (txt "enabled") p) [ null ↦ bool true | v ↦ v ]

unfoldable pub project_details : Json → Json
project_details p = dict (
    (txt "id", id_at (txt "id") p)
    ∷ (txt "name", word_at (txt "name") [] p)
    ∷ (txt "description", optional_at (txt "description") p)
    ∷ (txt "enabled", bool (truthy (enabled_of p)))
    ∷ (txt "isVpc", flag_at (txt "is_vpc") p)
    ∷ [])

-- `list_domain_project_details`
unfoldable pub list_domain_project_details : Service → Text → Client → Result (List Json) × Client
list_domain_project_details service domain_id s =
    let answer = svc_get_cached service (projects_path domain_id) s in
    (
      on_body
          (λ (body : Option Json). map project_details (
            filter_by (λ (p : Json). not (truthy (get (txt "is_domain") p)))
              (dicts (items body (txt "projects")))))
          answer.0,
      answer.1,
    )
