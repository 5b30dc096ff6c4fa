-- ===== src/Admin/Calls.antt =====
-- What an administrator's requests have the cloud do: only to users and projects of the own account.
use opencloud_backend.Base.{
  ◌≡◌, ◌⊎◌, refl, ap, true, false, ◌&&◌, ◌||◌, not, Option, none, some, is_some, List, All,
  first_by, Text, text_eq, nonempty, strip, Bool-cases, inl, inr,
}
use opencloud_backend.Base.Dict.{Dict, lookup}
use opencloud_backend.Base.Json.{Json}
use opencloud_backend.Zadara.Http.{Sent}
use opencloud_backend.Zadara.Cache.{Result, ok, failed}
use opencloud_backend.Zadara.Identity.{NewUser, result_of}
use opencloud_backend.Admin.{
  Directory, Reply, reply, app_error, account_domain, admin_token, or_502,
}
use opencloud_backend.Admin.Views.{LocalUser}
use opencloud_backend.Admin.Boundary.{
  reply_injective, error≢reply, then_reply_lem, or_502_lem, account_domain_lem,
}
use opencloud_backend.Admin.Users.{
  Call, creates, grants, updates, deletes, Outcome, on_reply, write_failed, CreateRequest, new_user,
  body_id, settle_grant, settle_create, create_in, create_checked, create_user,
}
use opencloud_backend.Admin.Changes.{
  has_id, found_or_404, user_of_account, settle_delete, delete_found, delete_user, settle_patch,
  patch_found, patch_user, PatchRequest, changes_of, disables,
}

-- The project is one of the account's.
abbrev pub IsProject : Directory → Text → Text → Type 0
IsProject dir domain_id pid =
    (projects : Dict Text) × (dir.list_domain_projects domain_id ≡ ok projects)
    × (is_some (lookup pid projects) ≡ true)

-- The user is one of the account's.
abbrev pub IsMember : Directory → Text → Text → Type 0
IsMember dir account user_id =
    (domain_id : Text) × (users : List Json) × (u : Json) × (dir.resolve_domain_id (strip account)
      ≡ ok (some domain_id))
    × (dir.list_domain_users domain_id ≡ ok users)
    × (first_by (has_id user_id) users ≡ some u)

-- The call is within the account, and deletes somebody else.
abbrev pub IsOwn : Directory → Text → Text → Call → Type 0
IsOwn dir account self (creates u) =
    (dir.resolve_domain_id (strip account) ≡ ok (some u.domain_id))
    × ((nonempty u.project_id ≡ false) ⊎ IsProject dir u.domain_id u.project_id)
IsOwn dir account self (grants pid user_id) =
    (domain_id : Text) × (dir.resolve_domain_id (strip account) ≡ ok (some domain_id))
    × IsProject dir domain_id pid
IsOwn dir account self (updates user_id fields) = IsMember dir account user_id
IsOwn dir account self (deletes user_id) =
    IsMember dir account user_id × (text_eq user_id self ≡ false)

on_reply-All :
    {A B : Type 0} (P : Call → Type 0) (r : Reply A) (next : A → Outcome B)
    → ((a : A) → r ≡ reply a → All P (next a).calls)
    → All P (on_reply r next).calls
unfolding on_reply
on_reply-All P (app_error code status) next h = tt
on_reply-All P (reply a) next h = h a refl

module _ (dir : Directory) (account self : Text) where
  abbrev AllOwn : List Call → Type 0
  AllOwn calls = All (IsOwn dir account self) calls

  settle_grant-AllOwn :
      (granted : Result Unit) (u : NewUser) (body : Option Json)
      → dir.resolve_domain_id (strip account) ≡ ok (some u.domain_id)
      → IsProject dir u.domain_id u.project_id
      → AllOwn (settle_grant granted u body).calls
  unfolding settle_grant
  settle_grant-AllOwn (ok _) u body own project =
      ((own, inr project), ((u.domain_id, own, project), tt))
  settle_grant-AllOwn (failed code) u body own project =
      ((own, inr project), ((u.domain_id, own, project), tt))

  settle_create-AllOwn :
      (cloud : Call → Sent) (answer : Result (Option Json)) (u : NewUser)
      → dir.resolve_domain_id (strip account) ≡ ok (some u.domain_id)
      → (nonempty u.project_id ≡ false) ⊎ IsProject dir u.domain_id u.project_id
      → AllOwn (settle_create cloud answer u).calls
  unfolding settle_create write_failed
  settle_create-AllOwn cloud (failed code) u own project = ((own, project), tt)
  settle_create-AllOwn cloud (ok body) u own (inl none_given) =
      rw none_given ((own, inl none_given), tt)
  settle_create-AllOwn cloud (ok body) u own (inr project) =
      elim (Bool-cases (nonempty u.project_id && nonempty (body_id body))) [
        | inl e ↦ rw e (settle_grant-AllOwn _ u body own project)
        | inr e ↦ rw e ((own, inr project), tt)
      ]

  create_in-AllOwn :
      (cloud : Call → Sent) (projects : Result (Dict Text)) (u : NewUser)
      → dir.list_domain_projects u.domain_id ≡ projects
      → dir.resolve_domain_id (strip account) ≡ ok (some u.domain_id)
      → AllOwn (create_in cloud projects u).calls
  unfolding create_in
  create_in-AllOwn cloud (failed code) u listed own = tt
  create_in-AllOwn cloud (ok projects) u listed own =
      elim (Bool-cases (is_some (lookup u.project_id projects))) [
        | inl e ↦ rw e (
            settle_create-AllOwn cloud (result_of (cloud (creates u))) u own
              (inr (projects, listed, e)))
        | inr e ↦ rw e tt
      ]

  create_checked-AllOwn :
      (cloud : Call → Sent) (domain_id : Text) (q : CreateRequest)
      → dir.resolve_domain_id (strip account) ≡ ok (some domain_id)
      → AllOwn (create_checked cloud dir domain_id q).calls
  unfolding create_checked
  create_checked-AllOwn cloud domain_id q own =
      let u = new_user domain_id q in
      elim (Bool-cases (not (nonempty u.name) || not (nonempty u.password))) [
        | inl e ↦ rw e tt
        | inr e ↦ elim (Bool-cases (nonempty u.project_id)) [
          | inl p ↦
              rw (e, p) (create_in-AllOwn cloud (dir.list_domain_projects domain_id) u refl own)
          | inr p ↦
              rw (e, p) (settle_create-AllOwn cloud (result_of (cloud (creates u))) u own (inl p))
        ]
      ]

  found-IsMember :
      (user_id : Text) (target : Json)
      → user_of_account dir account user_id ≡ reply target
      → IsMember dir account user_id
  unfolding user_of_account
  found-IsMember user_id target h =
      let (own, found, rest) = then_reply_lem (account_domain dir account) _ target h in
      let (users, listed, after) =
        then_reply_lem (or_502 (dir.list_domain_users own.1)) _ target rest in
      (
        own.1,
        users,
        target,
        account_domain_lem dir account own found,
        or_502_lem _ users listed,
        found_lem (first_by (has_id user_id) users) after,
      )
    where
      found_lem : (found : Option Json) → found_or_404 found ≡ reply target → found ≡ some target
      found_lem none e = absurd (error≢reply e)
      found_lem (some u) e = ap some (reply_injective e)

-- Everything that the creation of a user has the cloud do is within the administrator's account: the new
-- user is of its domain, and a project that is named, and that a role is granted in, is one of its
-- projects.
pub create_user-IsOwn :
    (cloud : Call → Sent) (dir : Directory) (account self : Text) (token : Option Text)
    (q : CreateRequest)
    → All (IsOwn dir account self) (create_user cloud dir account token q).calls
unfolding create_user
create_user-IsOwn cloud dir account self token q =
    on_reply-All _ (account_domain dir account) _ (λ own found.
      on_reply-All _ (admin_token token) _ (λ t _.
        create_checked-AllOwn dir account self cloud own.1 q
          (account_domain_lem dir account own found)))

settle_delete-AllOwn :
    (dir : Directory) (account self user_id : Text) (answer : Result Unit) (target : Json)
    (locals : List LocalUser)
    → IsMember dir account user_id
    → text_eq user_id self ≡ false
    → All (IsOwn dir account self) (settle_delete answer user_id target locals).calls
unfolding settle_delete write_failed
settle_delete-AllOwn dir account self user_id (failed code) target locals member other =
    ((member, other), tt)
settle_delete-AllOwn dir account self user_id (ok _) target locals member other =
    ((member, other), tt)

-- A deletion has the cloud delete a user of the administrator's account only, and never the administrator.
pub delete_user-IsOwn :
    (cloud : Call → Sent) (dir : Directory) (account self : Text) (token : Option Text)
    (user_id : Text) (locals : List LocalUser)
    → All (IsOwn dir account self) (delete_user cloud dir account self token user_id locals).calls
unfolding delete_user delete_found
delete_user-IsOwn cloud dir account self token user_id locals =
    on_reply-All _ (user_of_account dir account user_id) _ (λ target found.
      on_reply-All _ (admin_token token) _ (λ t _. elim (Bool-cases (text_eq user_id self)) [
        | inl e ↦ rw e tt
        | inr e ↦ rw e (
            settle_delete-AllOwn dir account self user_id _ target locals
              (found-IsMember dir account self user_id target found) e)
      ]))

settle_patch-AllOwn :
    (dir : Directory) (account self user_id : Text) (answer : Result (Option Json))
    (fields : List (Text × Json)) (q : PatchRequest) (target : Json)
    → IsMember dir account user_id
    → All
        (IsOwn dir account self)
        (settle_patch answer (updates user_id fields) user_id q target).calls
unfolding settle_patch write_failed
settle_patch-AllOwn dir account self user_id (failed code) fields q target member = (member, tt)
settle_patch-AllOwn dir account self user_id (ok body) fields q target member = (member, tt)

-- A change is asked for of a user of the administrator's account only.
pub patch_user-IsOwn :
    (cloud : Call → Sent) (dir : Directory) (account self : Text) (token : Option Text)
    (user_id : Text) (q : PatchRequest)
    → All (IsOwn dir account self) (patch_user cloud dir account self token user_id q).calls
unfolding patch_user patch_found
patch_user-IsOwn cloud dir account self token user_id q =
    on_reply-All _ (user_of_account dir account user_id) _ (λ target found.
      on_reply-All _ (admin_token token) _ (λ t _.
        elim (Bool-cases (not (nonempty (changes_of q)))) [
          | inl e ↦ rw e tt
          | inr e ↦ elim (Bool-cases (disables q.enabled && text_eq user_id self)) [
            | inl d ↦ rw (e, d) tt
            | inr d ↦
                rw (e, d)
                  (settle_patch-AllOwn dir account self user_id _ (changes_of q) q target
                    (found-IsMember dir account self user_id target found))
          ]
        ]))
