-- ===== src/Accounts/Roles.antt =====
-- apps/accounts/roles.py: which cloud roles make an administrator of the account.
use opencloud_backend.Base.{List, [], ◌∷◌, Text, txt, lower, member_text, any_by, if◌then◌else◌}

pub data AppRole : Type 0 where
  user admin : AppRole

abbrev pub admin_roles : List Text
admin_roles =
    txt "admin"
    ∷ txt "tenant_admin"
    ∷ txt "account_admin"
    ∷ txt "accountadmin"
    ∷ txt "cloud_admin"
    ∷ txt "superadmin"
    ∷ txt "msp_admin"
    ∷ []

-- `normalized & _ADMIN_ROLES` is not empty: some role, in lower case, is one of the set.
unfoldable pub resolve_app_role : List Text → AppRole
resolve_app_role zadara_roles =
    if any_by (λ r. member_text (lower r) admin_roles) zadara_roles then admin else user
