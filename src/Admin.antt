-- ===== src/Admin.antt =====
-- apps/admin_api/views.py, apps/common/tenancy.py: the administrator of an account sees and changes what
-- is of that account only. What the service account reads is an interface; an error of its token counts as
-- one of the list that needs it.
mod Tests
pub mod Views
pub mod Users
pub mod Changes
pub mod Boundary
pub mod Calls
pub mod Tenants
use opencloud_backend.Base.{
  ℕ, ◌≡◌, Bool, true, false, ◌&&◌, ◌||◌, not, Option, none, some, List, [], ◌∷◌, Text, txt,
  nonempty, strip, if◌then◌else◌,
}
use opencloud_backend.Base.Dict.{Dict}
use opencloud_backend.Base.Json.{Json}
use opencloud_backend.Accounts.Roles.{AppRole, admin}
use opencloud_backend.Zadara.Http.{
  Sent, ErrorCode, session_expired, account_not_found, forbidden, not_found, conflict,
  invalid_request,
}
use opencloud_backend.Zadara.Cache.{Result, ok, failed}
use opencloud_backend.Zadara.Machines.{ListedVm}
use opencloud_backend.Zadara.Lists.Quotas.{Quota}

-- What the service account reads for the views.
pub record Directory : Type 0 where
  pub resolve_domain_id : Text → Result (Option Text)
  pub list_domain_projects : Text → Result (Dict Text)
  pub list_domain_users : Text → Result (List Json)
  pub list_domain_project_details : Text → Result (List Json)
  pub list_vms : Bool → Result (List ListedVm)
  pub list_domain_quotas : Text → Result (List Quota)
  pub list_project_quotas : Text → Result (List Quota)

-- A response, or an AppError with its code and status.
pub data Reply (A : Type 0) : Type 0 where
  reply : A → Reply A
  app_error : ErrorCode → ℕ → Reply A

-- `IsAdmin` for a user who is signed in
abbrev pub is_admin : AppRole → Bool
is_admin admin = true
is_admin _ = false

-- The status of an error in the envelope: an expired session is a 401 wherever it surfaces.
unfoldable pub envelope_status : ErrorCode → ℕ → ℕ
envelope_status session_expired status = 401
envelope_status code status = status

-- A domain that was looked up.
unfoldable pub domain_or_error : Text → Result (Option Text) → Reply (Text × Text)
domain_or_error account (failed code) = app_error code 502
domain_or_error account (ok none) = app_error account_not_found 404
domain_or_error account (ok (some domain_id)) =
    if nonempty domain_id then reply (account, domain_id) else app_error account_not_found 404

-- `account_domain`: the caller's account and its id.
unfoldable pub account_domain : Directory → Text → Reply (Text × Text)
account_domain dir account =
    if nonempty (strip account)
    then domain_or_error (strip account) (dir.resolve_domain_id (strip account))
    else app_error session_expired 401

-- `_WRITE_STATUS.get(code, 502)`
unfoldable pub write_status : ErrorCode → ℕ
write_status forbidden = 403
write_status not_found = 404
write_status conflict = 409
write_status invalid_request = 400
write_status _ = 502

-- `_admin_token`, where the vault has one
unfoldable pub admin_token : Option Text → Reply Text
admin_token none = app_error session_expired 401
admin_token (some token) = if nonempty token then reply token else app_error session_expired 401

-- The next step, where there was no error.
unfoldable pub then_reply : {A B : Type 0} → Reply A → (A → Reply B) → Reply B
then_reply (app_error code status) next = app_error code status
then_reply (reply a) next = next a

-- A ZadaraError, which the views answer with 502.
unfoldable pub or_502 : {A : Type 0} → Result A → Reply A
or_502 (failed code) = app_error code 502
or_502 (ok a) = reply a
