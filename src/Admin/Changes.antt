-- ===== src/Admin/Changes.antt =====
-- apps/admin_api/views.py: the administrator changes and deletes users of the account.
use opencloud_backend.Base.{
  Bool, false, ◌&&◌, not, Option, none, some, List, [], ◌∷◌, map, Text, txt, text_eq, nonempty,
  strip, first_by, filter_by, if◌then◌else◌,
}
use opencloud_backend.Base.Json.{Json, null, bool, str, arr, get, text_of, dict}
use opencloud_backend.Zadara.Http.{Sent, invalid_request, not_found}
use opencloud_backend.Zadara.Cache.{Result, ok, failed}
use opencloud_backend.Zadara.Identity.{result_of, no_value, given}
use opencloud_backend.Zadara.Lists.{items_of}
use opencloud_backend.Platform.Snapshot.{sort}
use opencloud_backend.Platform.Snapshot.Build.{text_before}
use opencloud_backend.Admin.Views.{LocalUser}
use opencloud_backend.Admin.{
  Directory, Reply, reply, app_error, account_domain, admin_token, then_reply, or_502,
}
use opencloud_backend.Admin.Users.{Call, Outcome, refuses, on_reply, write_failed, updates, deletes}

abbrev pub has_id : Text → Json → Bool
has_id user_id u = text_eq (text_of (get (txt "id") u)) user_id

abbrev pub found_or_404 : Option Json → Reply Json
found_or_404 none = app_error not_found 404
found_or_404 (some u) = reply u

-- `_user_of_account`
unfoldable pub user_of_account : Directory → Text → Text → Reply Json
user_of_account dir account user_id = then_reply (account_domain dir account) (λ own.
    then_reply (or_502 (dir.list_domain_users own.1))
      (λ users. found_or_404 (first_by (has_id user_id) users)))

-- What a change gives; a value that is missing or null is none, but an empty password too.
pub record PatchRequest : Type 0 where
  pub name : Option Text
  pub email : Option Text
  pub enabled : Option Bool
  pub password : Text
  pub password_never_expires : Option Bool

abbrev pub stripped : Option Text → Option Json
stripped none = none
stripped (some t) = some (str (strip t))

abbrev pub as_bool : Option Bool → Option Json
as_bool none = none
as_bool (some b) = some (bool b)

-- `changes`
unfoldable pub changes_of : PatchRequest → List (Text × Json)
changes_of q = given (
    (txt "name", stripped q.name)
    ∷ (txt "email", stripped q.email)
    ∷ (txt "enabled", as_bool q.enabled)
    ∷ (txt "password", if nonempty q.password then some (str q.password) else none)
    ∷ (txt "password_never_expires", as_bool q.password_never_expires)
    ∷ [])

abbrev pub disables : Option Bool → Bool
disables none = false
disables (some b) = not b

abbrev pub target_name : Json → Text
target_name target = text_of (get (txt "name") target)

-- The names of the fields that were changed, but the secret's.
unfoldable pub changed_names : List (Text × Json) → List Text
changed_names [] = []
changed_names ((key, v) ∷ changes) =
    let rest = changed_names changes in if text_eq key (txt "password") then rest else key ∷ rest

-- What changed, never the new secret itself.
unfoldable pub patch_detail : PatchRequest → Json
patch_detail q = dict (
    (txt "fields", arr (items_of (map str (sort text_before (changed_names (changes_of q))))))
    ∷ (txt "passwordSet", bool (nonempty q.password))
    ∷ [])

unfoldable pub settle_patch :
    Result (Option Json) → Call → Text → PatchRequest → Json → Outcome (Option Json)
settle_patch (failed code) call user_id q target =
    write_failed (txt "user.update") user_id (target_name target) call code
settle_patch (ok body) call user_id q target = record {
  answer = reply body;
  calls = call ∷ [];
  audit =
      record {
        action = txt "user.update";
        resource_id = user_id;
        resource_name = target_name target;
        error_code = none;
        detail = patch_detail q;
      }
      ∷ [];
}

-- The rows of the cabinet's users, once the cloud has deleted one.
unfoldable pub settle_delete : Result Unit → Text → Json → List LocalUser → Outcome (List LocalUser)
settle_delete (failed code) user_id target locals =
    write_failed (txt "user.delete") user_id (target_name target) (deletes user_id) code
settle_delete (ok _) user_id target locals = record {
  answer = reply (filter_by (λ (l : LocalUser). not (text_eq l.zadara_user_id user_id)) locals);
  calls = deletes user_id ∷ [];
  audit =
      record {
        action = txt "user.delete";
        resource_id = user_id;
        resource_name = target_name target;
        error_code = none;
        detail = null;
      }
      ∷ [];
}

module _ (cloud : Call → Sent) where
  unfoldable pub patch_found : Text → Text → PatchRequest → Json → Outcome (Option Json)
  patch_found self user_id q target =
      let call = updates user_id (changes_of q) in
      if not (nonempty (changes_of q))
      then refuses invalid_request 400
      else if disables q.enabled && text_eq user_id self
      then refuses invalid_request 400
      else settle_patch (result_of (cloud call)) call user_id q target

  -- `AdminUserDetailView.patch`; `self` is the id of the administrator.
  unfoldable pub patch_user :
      Directory → Text → Text → Option Text → Text → PatchRequest → Outcome (Option Json)
  patch_user dir account self token user_id q =
      on_reply (user_of_account dir account user_id)
        (λ target. on_reply (admin_token token) (λ _. patch_found self user_id q target))

  unfoldable pub delete_found : Text → Text → List LocalUser → Json → Outcome (List LocalUser)
  delete_found self user_id locals target =
      if text_eq user_id self
      then refuses invalid_request 400
      else settle_delete (no_value (result_of (cloud (deletes user_id)))) user_id target locals

  -- `AdminUserDetailView.delete`
  unfoldable pub delete_user :
      Directory → Text → Text → Option Text → Text → List LocalUser → Outcome (List LocalUser)
  delete_user dir account self token user_id locals =
      on_reply (user_of_account dir account user_id)
        (λ target. on_reply (admin_token token) (λ _. delete_found self user_id locals target))
