-- ===== src/Admin/Users.antt =====
-- apps/admin_api/views.py: the administrator creates users of the account, and what a change of them
-- has the cloud do. Each view returns its reply, the calls to the cloud in their order, and the rows of the audit.
use opencloud_backend.Base.{
  ℕ, Bool, true, false, ◌&&◌, ◌||◌, not, Option, none, some, is_some, List, [], ◌∷◌, Text, txt,
  nonempty, strip, if◌then◌else◌,
}
use opencloud_backend.Base.Dict.{Dict, lookup}
use opencloud_backend.Base.Json.{Json, null, bool, str, get, text_of, dict}
use opencloud_backend.Zadara.Http.{Sent, ErrorCode, invalid_request, unexpected}
use opencloud_backend.Zadara.Cache.{Result, ok, failed}
use opencloud_backend.Zadara.Identity.{NewUser, result_of, no_value}
use opencloud_backend.Admin.{
  Directory, Reply, reply, app_error, account_domain, admin_token, write_status,
}

-- A call with the administrator's own token.
pub data Call : Type 0 where
  creates : NewUser → Call
  grants : (project_id user_id : Text) → Call
  updates : (user_id : Text) (fields : List (Text × Json)) → Call
  deletes : (user_id : Text) → Call

-- A row of the audit; the code of the error where the action failed.
pub record AuditRow : Type 0 where
  pub action : Text
  pub resource_id : Text
  pub resource_name : Text
  pub error_code : Option ErrorCode
  pub detail : Json

pub record Outcome (A : Type 0) : Type 0 where
  pub answer : Reply A
  pub calls : List Call
  pub audit : List AuditRow

-- What is refused before the cloud is asked to change anything.
abbrev pub refuses : {A : Type 0} → ErrorCode → ℕ → Outcome A
refuses code status = record { answer = app_error code status; calls = []; audit = [] }

-- The next step, where there was no error.
unfoldable pub on_reply : {A B : Type 0} → Reply A → (A → Outcome B) → Outcome B
on_reply (app_error code status) next = refuses code status
on_reply (reply a) next = next a

-- `_write_failed`
unfoldable pub write_failed : {A : Type 0} → Text → Text → Text → Call → ErrorCode → Outcome A
write_failed action resource_id resource_name call code = record {
  answer = app_error code (write_status code);
  calls = call ∷ [];
  audit =
      record {
        action = action;
        resource_id = resource_id;
        resource_name = resource_name;
        error_code = some code;
        detail = null;
      }
      ∷ [];
}

pub record CreateRequest : Type 0 where
  pub name : Text
  pub email : Text
  pub password : Text
  pub project_id : Text
  -- none where it is not given
  pub must_change : Option Bool

abbrev pub must_change_of : Option Bool → Bool
must_change_of none = true
must_change_of (some b) = b

abbrev pub new_user : Text → CreateRequest → NewUser
new_user domain_id q = record {
  domain_id = domain_id;
  name = strip q.name;
  email = strip q.email;
  password = q.password;
  must_change_password = must_change_of q.must_change;
  project_id = strip q.project_id;
}

abbrev pub body_id : Option Json → Text
body_id none = []
body_id (some body) = text_of (get (txt "id") body)

-- What is answered to a creation: the body, and whether the role was granted.
abbrev pub Created : Type 0
Created = Option Json × Bool

abbrev pub create_row : Text → NewUser → Bool → AuditRow
create_row user_id u granted = record {
  action = txt "user.create";
  resource_id = user_id;
  resource_name = u.name;
  error_code = none;
  detail = dict (
      (txt "projectId", str u.project_id)
      ∷ (txt "roleGranted", bool granted)
      ∷ (txt "mustChangePassword", bool u.must_change_password)
      ∷ []);
}

abbrev pub failed_grant : Text → NewUser → ErrorCode → AuditRow
failed_grant user_id u code = record {
  action = txt "user.grant_role";
  resource_id = user_id;
  resource_name = u.name;
  error_code = some code;
  detail = dict ((txt "projectId", str u.project_id) ∷ []);
}

-- The role of the new user, once it was asked for.
unfoldable pub settle_grant : Result Unit → NewUser → Option Json → Outcome Created
settle_grant (ok _) u body = record {
  answer = reply (body, true);
  calls = creates u ∷ grants u.project_id (body_id body) ∷ [];
  audit = create_row (body_id body) u true ∷ [];
}
settle_grant (failed code) u body = record {
  answer = reply (body, false);
  calls = creates u ∷ grants u.project_id (body_id body) ∷ [];
  audit = failed_grant (body_id body) u code ∷ create_row (body_id body) u false ∷ [];
}

module _ (cloud : Call → Sent) where
  -- A refused grant leaves the new user without a role, and the creation stands.
  unfoldable pub settle_create : Result (Option Json) → NewUser → Outcome Created
  settle_create (failed code) u = write_failed (txt "user.create") [] u.name (creates u) code
  settle_create (ok body) u =
      if nonempty u.project_id && nonempty (body_id body)
      then settle_grant (no_value (result_of (cloud (grants u.project_id (body_id body))))) u body
      else record {
        answer = reply (body, false);
        calls = creates u ∷ [];
        audit = create_row (body_id body) u false ∷ [];
      }

  abbrev pub do_create : NewUser → Outcome Created
  do_create u = settle_create (result_of (cloud (creates u))) u

  -- The project that is named must be one of the account. An error of the list is not caught: 500.
  unfoldable pub create_in : Result (Dict Text) → NewUser → Outcome Created
  create_in (failed code) u = refuses unexpected 500
  create_in (ok projects) u =
      if is_some (lookup u.project_id projects) then do_create u else refuses invalid_request 400

  unfoldable pub create_checked : Directory → Text → CreateRequest → Outcome Created
  create_checked dir domain_id q =
      let u = new_user domain_id q in
      if not (nonempty u.name) || not (nonempty u.password)
      then refuses invalid_request 400
      else if nonempty u.project_id
      then create_in (dir.list_domain_projects domain_id) u
      else do_create u

  -- `AdminUserCreateView.post`
  unfoldable pub create_user : Directory → Text → Option Text → CreateRequest → Outcome Created
  create_user dir account token q =
      on_reply (account_domain dir account)
        (λ own. on_reply (admin_token token) (λ _. create_checked dir own.1 q))
