-- ===== src/Admin/Boundary.antt =====
-- The boundary of the account: what the administrator is shown is of that account.
use opencloud_backend.Base.{
  ℕ, ◌≡◌, refl, sym, ap, true, Option, none, some, is_some, List, [], ◌∷◌, map, All, filter_by,
  Text, nonempty, strip, Bool-cases, Option-cases, inl, inr, and-true_right, false≢true,
}
use opencloud_backend.Base.Dict.{Dict, lookup}
use opencloud_backend.Zadara.Http.{ErrorCode}
use opencloud_backend.Zadara.Cache.{Result, ok, failed}
use opencloud_backend.Zadara.Machines.{ListedVm}
use opencloud_backend.Admin.{
  Directory, Reply, reply, app_error, domain_or_error, account_domain, then_reply, or_502,
}
use opencloud_backend.Admin.Views.{
  AccountVm, ResourcesPage, is_allowed, with_project, resources_page, admin_resources,
}

pub reply_injective : {A : Type 0} {a b : A} → reply a ≡ reply b → a ≡ b
reply_injective h = cc

pub error≢reply :
    {A : Type 0} {a : A} {code : ErrorCode} {status : ℕ}
    (h : ◌≡◌ {A = Reply A} (app_error code status) (reply a))
    → ⊥
error≢reply h = cc

pub then_reply_lem :
    {A B : Type 0} (r : Reply A) (next : A → Reply B) (b : B)
    → then_reply r next ≡ reply b
    → (a : A) × (r ≡ reply a) × (next a ≡ reply b)
unfolding then_reply
then_reply_lem (app_error code status) next b h = absurd (error≢reply h)
then_reply_lem (reply a) next b h = (a, refl, h)

pub or_502_lem : {A : Type 0} (r : Result A) (a : A) → or_502 r ≡ reply a → r ≡ ok a
unfolding or_502
or_502_lem (failed code) a h = absurd (error≢reply h)
or_502_lem (ok b) a h = ap ok (reply_injective h)

domain_or_error_lem :
    (account : Text) (found : Result (Option Text)) (own : Text × Text)
    → domain_or_error account found ≡ reply own
    → found ≡ ok (some own.1)
unfolding domain_or_error
domain_or_error_lem account (failed code) own h = absurd (error≢reply h)
domain_or_error_lem account (ok none) own h = absurd (error≢reply h)
domain_or_error_lem account (ok (some id)) own h = elim (Bool-cases (nonempty id)) [
  | inl e ↦ ap (λ (o : Text × Text). ok (some o.1)) (reply_injective (rw e at h))
  | inr e ↦ absurd (error≢reply (rw e at h))
]

pub account_domain_lem :
    (dir : Directory) (account : Text) (own : Text × Text)
    → account_domain dir account ≡ reply own
    → dir.resolve_domain_id (strip account) ≡ ok (some own.1)
unfolding account_domain
account_domain_lem dir account own h = elim (Bool-cases (nonempty (strip account))) [
  | inl e ↦
      domain_or_error_lem (strip account) (dir.resolve_domain_id (strip account)) own (rw e at h)
  | inr e ↦ absurd (error≢reply (rw e at h))
]

-- The machine is in one of the projects.
abbrev pub IsOf : Dict Text → AccountVm → Type 0
IsOf projects v =
    (pid : Text) × (v.listed.vm.project_id ≡ some pid) × (is_some (lookup pid projects) ≡ true)

is_allowed-IsOf :
    (projects : Dict Text) (requested : Text) (v : ListedVm)
    → is_allowed projects requested v ≡ true
    → IsOf projects (with_project projects v)
unfolding is_allowed with_project
is_allowed-IsOf projects requested v h = elim (Option-cases v.vm.project_id) [
  | inl e ↦ absurd (false≢true (rw e at h))
  | inr (pid, e) ↦ (pid, e, and-true_right _ _ (rw e at h))
]

filter_by-IsOf :
    (projects : Dict Text) (requested : Text) (vms : List ListedVm)
    → All
        (IsOf projects)
        (map (with_project projects) (filter_by (is_allowed projects requested) vms))
filter_by-IsOf projects requested [] = tt
filter_by-IsOf projects requested (v ∷ vms) = elim (Bool-cases (is_allowed projects requested v)) [
  | inl e ↦ rw e (is_allowed-IsOf projects requested v e, filter_by-IsOf projects requested vms)
  | inr e ↦ rw e (filter_by-IsOf projects requested vms)
]

-- Whatever project is asked for, and whatever machines of the cluster the service account reads: the
-- machines that an administrator is shown are in projects of the administrator's own account.
pub admin_resources-IsOf :
    (dir : Directory) (account requested : Text) (page : ResourcesPage)
    → admin_resources dir account requested ≡ reply page
    → (domain_id : Text) × (projects : Dict Text) × (dir.resolve_domain_id (strip account)
        ≡ ok (some domain_id))
      × (dir.list_domain_projects domain_id ≡ ok projects)
      × All (IsOf projects) page.vms
unfolding admin_resources resources_page
admin_resources-IsOf dir account requested page h =
    let (own, found, rest) = then_reply_lem (account_domain dir account) _ page h in
    let (projects, listed, after) =
      then_reply_lem (or_502 (dir.list_domain_projects own.1)) _ page rest in
    let (vms, read, same) = then_reply_lem (or_502 (dir.list_vms true)) _ page after in
    (
      own.1,
      projects,
      account_domain_lem dir account own found,
      or_502_lem _ projects listed,
      rw (sym (reply_injective same)) (filter_by-IsOf projects requested vms),
    )
