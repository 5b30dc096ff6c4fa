-- ===== src/Admin/Views.antt =====
-- apps/admin_api/views.py: what the administrator is shown, machines, users, projects and quotas.
use opencloud_backend.Base.{
  ℕ, ◌+◌, Bool, true, false, ◌&&◌, ◌||◌, not, Option, none, some, is_some, or_default, List, [],
  ◌∷◌, map, length, Text, txt, text_eq, nonempty, strip, lower, iexact, filter_by, any_by, first_by,
  member_text, ltb, leb, ◌==◌, if◌then◌else◌,
}
use opencloud_backend.Base.Dict.{Dict, lookup, adjust}
use opencloud_backend.Base.Json.{Json, get, truthy, text_of}
use opencloud_backend.Accounts.Roles.{AppRole}
use opencloud_backend.Zadara.Cache.{Result, ok, failed}
use opencloud_backend.Zadara.Machines.{ListedVm}
use opencloud_backend.Zadara.Lists.Quotas.{Quota}
use opencloud_backend.Platform.Snapshot.{sort}
use opencloud_backend.Platform.Snapshot.Build.{text_before}
use opencloud_backend.Admin.{Directory, Reply, reply, account_domain, then_reply, or_502}

-- A machine of the account, with the name of its project.
pub record AccountVm : Type 0 where
  pub listed : ListedVm
  pub project_name : Text

-- `v.get('projectId') in allowed`, of the projects of the account and the one that is asked for
unfoldable pub is_allowed : Dict Text → Text → ListedVm → Bool
is_allowed projects requested v = elim v.vm.project_id [
  | none ↦ false
  | some pid ↦ (not (nonempty requested) || text_eq requested pid) && is_some (lookup pid projects)
]

unfoldable pub with_project : Dict Text → ListedVm → AccountVm
with_project projects v = record {
  listed = v;
  project_name = or_default (lookup (or_default v.vm.project_id []) projects) [];
}

abbrev pub has_disk_info : ListedVm → Bool
has_disk_info v = elim v.disks [ none ↦ false | some d ↦ is_some d.disk_gib ]

pub record ResourcesPage : Type 0 where
  pub vms : List AccountVm
  pub total : ℕ
  pub disk_info : Bool
  pub account : Text
  pub projects : Dict Text

unfoldable pub resources_page : Text → Text → Dict Text → List ListedVm → ResourcesPage
resources_page account requested projects vms =
    let shown : List ListedVm = filter_by (is_allowed projects requested) vms in
    record {
      vms = map (with_project projects) shown;
      total = length shown;
      disk_info = any_by has_disk_info shown;
      account = account;
      projects = sort (λ (p q : Text × Text). text_before p.1 q.1) projects;
    }

-- `AdminResourcesView.get`; `requested` is empty where no project is asked for.
unfoldable pub admin_resources : Directory → Text → Text → Reply ResourcesPage
admin_resources dir account requested = then_reply (account_domain dir account) (λ own.
    then_reply (or_502 (dir.list_domain_projects own.1)) (λ projects.
      then_reply (or_502 (dir.list_vms true))
        (λ vms. reply (resources_page own.0 requested projects vms))))

-- An entry of the audit, as the filters read it.
pub record AuditLog : Type 0 where
  pub account : Text
  pub action : Text
  pub username : Text
  pub resource_id : Text
  pub success : Bool

-- A filter with a value keeps the entries that have it.
abbrev pub filter_field : Text → (AuditLog → Text) → List AuditLog → List AuditLog
filter_field value field entries =
    if nonempty (strip value)
    then filter_by (λ (e : AuditLog). text_eq (field e) (strip value)) entries
    else entries

-- `AdminAuditView.get_queryset`
unfoldable pub audit_entries : Text → Text → Text → Text → Text → List AuditLog → List AuditLog
audit_entries account action username resource_id outcome entries =
    filter_field outcome (λ (e : AuditLog). if e.success then txt "SUCCESS" else txt "FAILURE")
      (filter_field resource_id (λ (e : AuditLog). e.resource_id)
        (filter_field username (λ (e : AuditLog). e.username)
          (filter_field action (λ (e : AuditLog). e.action)
            (filter_by (λ (e : AuditLog). text_eq e.account account) entries))))

-- A user's row in the cabinet.
pub record LocalUser : Type 0 where
  pub zadara_user_id : Text
  pub account : Text
  pub app_role : AppRole
  pub is_blocked : Bool
  pub last_seen_at : ℕ

-- A user of the account, with what the cabinet knows.
pub record AccountUser : Type 0 where
  pub cloud : Json
  pub local_user : Option LocalUser

unfoldable pub join_user : Text → List LocalUser → Json → AccountUser
join_user account locals u = record {
  cloud = u;
  local_user =
      first_by
        (λ (l : LocalUser).
          iexact l.account account && text_eq l.zadara_user_id (text_of (get (txt "id") u)))
        locals;
}

-- The key `(systemUser, name.lower())`
abbrev pub user_before : AccountUser → AccountUser → Bool
user_before u v =
    let system = truthy (get (txt "systemUser") u.cloud) in
    let system' = truthy (get (txt "systemUser") v.cloud) in
    (not system && system')
    || ((system && system' || not system && not system')
        && text_before (lower (text_of (get (txt "name") u.cloud)))
            (lower (text_of (get (txt "name") v.cloud))))

-- `AdminUsersView.get`
unfoldable pub admin_users : Directory → Text → List LocalUser → Reply (List AccountUser)
admin_users dir account locals = then_reply (account_domain dir account) (λ own.
    then_reply (or_502 (dir.list_domain_users own.1))
      (λ users. reply (sort user_before (map (join_user own.0 locals) users))))

-- What the machines of a project come to.
pub record ProjectUsage : Type 0 where
  pub vms : ℕ
  pub running : ℕ
  pub vcpus : ℕ
  pub ram_mb : ℕ

abbrev pub no_usage : ProjectUsage
no_usage = record { vms = 0; running = 0; vcpus = 0; ram_mb = 0 }

abbrev pub is_running : ListedVm → Bool
is_running v = member_text (lower v.vm.status) (txt "active" ∷ txt "running" ∷ [])

unfoldable pub use_vm : ListedVm → ProjectUsage → ProjectUsage
use_vm v u = record {
  vms = u.vms + 1;
  running = u.running + (if is_running v then 1 else 0);
  vcpus = u.vcpus + v.vm.vcpus;
  ram_mb = u.ram_mb + v.vm.ram_mb;
}

-- `pid in owned`
abbrev pub owns : List Text → Option Text → Bool
owns owned none = false
owns owned (some pid) = member_text pid owned

unfoldable pub count_vm : List Text → Option Text → ListedVm → Dict ProjectUsage → Dict ProjectUsage
count_vm owned none v usage = usage
count_vm owned (some pid) v usage =
    if member_text pid owned then adjust pid no_usage (use_vm v) usage else usage

-- The loop over the machines of the whole cluster.
unfoldable pub count_vms : List Text → List ListedVm → Dict ProjectUsage → Dict ProjectUsage
count_vms owned [] usage = usage
count_vms owned (v ∷ vms) usage = count_vms owned vms (count_vm owned v.vm.project_id v usage)

pub record Tenant : Type 0 where
  pub project : Json
  pub usage : ProjectUsage

unfoldable pub tenant_of : Dict ProjectUsage → Json → Tenant
tenant_of usage p = record {
  project = p;
  usage = or_default (lookup (text_of (get (txt "id") p)) usage) no_usage;
}

-- The key `(-vms, name.lower())`
abbrev pub tenant_before : Tenant → Tenant → Bool
tenant_before s t =
    ltb t.usage.vms s.usage.vms
    || (s.usage.vms == t.usage.vms
        && text_before (lower (text_of (get (txt "name") s.project)))
            (lower (text_of (get (txt "name") t.project))))

unfoldable pub tenants : List Json → List ListedVm → List Tenant
tenants projects vms =
    let owned = map (λ (p : Json). text_of (get (txt "id") p)) projects in
    sort tenant_before (map (tenant_of (count_vms owned vms [])) projects)

-- `AdminTenantsView.get`
unfoldable pub admin_tenants : Directory → Text → Reply (List Tenant)
admin_tenants dir account = then_reply (account_domain dir account) (λ own.
    then_reply (or_502 (dir.list_domain_project_details own.1))
      (λ projects. then_reply (or_502 (dir.list_vms false)) (λ vms. reply (tenants projects vms))))

pub record ProjectQuotas : Type 0 where
  pub id : Text
  pub name : Text
  pub quotas : List Quota

pub record QuotaPage : Type 0 where
  pub account : List Quota
  pub projects : List ProjectQuotas
  pub unavailable : List Text
  pub limits_set : ℕ
  pub near_limit : ℕ

-- A row that carries usage or a limit.
abbrev pub is_used : Quota → Bool
is_used q = not (q.allocated == 0) || not q.unlimited

-- `(q['usedPercent'] or 0) >= 80`, in tenths
abbrev pub is_near : Quota → Bool
is_near q = leb 800 (or_default q.used_percent 0)

-- The loop over the projects: those that can be read, and the names of the others.
unfoldable pub add_project :
    Text × Text
    → Result (List Quota)
    → List ProjectQuotas × List Text
    → List ProjectQuotas × List Text
add_project (pid, name) (failed code) (rows, unavailable) = (rows, name ∷ unavailable)
add_project (pid, name) (ok quotas) (rows, unavailable) =
    (record { id = pid; name = name; quotas = filter_by is_used quotas } ∷ rows, unavailable)

unfoldable pub project_quotas : Directory → Dict Text → List ProjectQuotas × List Text
project_quotas dir [] = ([], [])
project_quotas dir (p ∷ projects) =
    add_project p (dir.list_project_quotas p.0) (project_quotas dir projects)

unfoldable pub quota_page : Directory → List Quota → Dict Text → QuotaPage
quota_page dir account_quotas projects =
    let named = sort (λ (p q : Text × Text). text_before (lower p.1) (lower q.1)) projects in
    let limited = filter_by (λ (q : Quota). not q.unlimited) account_quotas in
    record {
      account = account_quotas;
      projects = (project_quotas dir named).0;
      unavailable = (project_quotas dir named).1;
      limits_set = length limited;
      near_limit = length (filter_by is_near limited);
    }

-- `AdminQuotaView.get`
unfoldable pub admin_quotas : Directory → Text → Reply QuotaPage
admin_quotas dir account = then_reply (account_domain dir account) (λ own.
    then_reply (or_502 (dir.list_domain_quotas own.1)) (λ account_quotas.
      then_reply (or_502 (dir.list_domain_projects own.1))
        (λ projects. reply (quota_page dir account_quotas projects))))
