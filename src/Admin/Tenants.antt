-- ===== src/Admin/Tenants.antt =====
-- What the machines of each project of the account come to.
use opencloud_backend.Base.{
  ◌+◌, ◌≡◌, refl, ◌∙◌, Bool, true, false, Option, none, some, or_default, List, [], ◌∷◌, filter_by,
  length, sum_by, Text, txt, text_eq, text_eq_iff, text_eq_refl, member_text, Bool-cases, inl, inr,
  if◌then◌else◌, arith,
}
use opencloud_backend.Base.Dict.{Dict, lookup, lookup-adjust}
use opencloud_backend.Base.Json.{Json, get, text_of}
use opencloud_backend.Zadara.Machines.{ListedVm}
use opencloud_backend.Admin.Views.{
  ProjectUsage, no_usage, is_running, use_vm, count_vm, count_vms, tenant_of,
}

abbrev pub names_project : Text → Option Text → Bool
names_project pid none = false
names_project pid (some j) = text_eq j pid

abbrev pub is_in : Text → ListedVm → Bool
is_in pid v = names_project pid v.vm.project_id

count_vm-lookup :
    (owned : List Text) (host : Option Text) (v : ListedVm) (usage : Dict ProjectUsage) (pid : Text)
    → member_text pid owned ≡ true
    → or_default (lookup pid (count_vm owned host v usage)) no_usage ≡ (
        if names_project pid host
        then use_vm v (or_default (lookup pid usage) no_usage)
        else or_default (lookup pid usage) no_usage)
unfolding count_vm
count_vm-lookup owned none v usage pid h = refl
count_vm-lookup owned (some j) v usage pid h = elim (Bool-cases (text_eq j pid)) [
  | inl e ↦
      rw
        (
          (text_eq_iff j pid).0 e,
          h,
          lookup-adjust pid pid no_usage (use_vm v) usage,
          text_eq_refl pid,
        )
        refl
  | inr e ↦ elim (Bool-cases (member_text j owned)) [
    | inl m ↦ rw (e, m, lookup-adjust j pid no_usage (use_vm v) usage, e) refl
    | inr m ↦ rw (e, m) refl
  ]
]

-- The machines, added up one by one.
use_vms : List ListedVm → ProjectUsage → ProjectUsage
use_vms [] u = u
use_vms (v ∷ vms) u = use_vms vms (use_vm v u)

count_vms-lookup :
    (owned : List Text) (vms : List ListedVm) (usage : Dict ProjectUsage) (pid : Text)
    → member_text pid owned ≡ true
    → or_default (lookup pid (count_vms owned vms usage)) no_usage
      ≡ use_vms (filter_by (is_in pid) vms) (or_default (lookup pid usage) no_usage)
unfolding count_vms use_vms
count_vms-lookup owned [] usage pid h = refl
count_vms-lookup owned (v ∷ vms) usage pid h =
    count_vms-lookup owned vms (count_vm owned v.vm.project_id v usage) pid h
    ∙ rw (count_vm-lookup owned v.vm.project_id v usage pid h)
        (elim (Bool-cases (is_in pid v)) [ inl e ↦ rw e refl | inr e ↦ rw e refl ])

use_vms_sums :
    (vms : List ListedVm) (u : ProjectUsage)
    → ((use_vms vms u).vms ≡ u.vms + length vms)
      × ((use_vms vms u).running ≡ u.running + length (filter_by is_running vms))
      × ((use_vms vms u).vcpus ≡ u.vcpus + sum_by (λ (v : ListedVm). v.vm.vcpus) vms)
      × ((use_vms vms u).ram_mb ≡ u.ram_mb + sum_by (λ (v : ListedVm). v.vm.ram_mb) vms)
unfolding use_vms use_vm
use_vms_sums [] u = (omega arith, omega arith, omega arith, omega arith)
use_vms_sums (v ∷ vms) u =
    let (count, running, vcpus, ram) = use_vms_sums vms (use_vm v u) in
    (omega (arith, count), ground (arith, running), omega (arith, vcpus), omega (arith, ram))

-- What a project of the account is shown with: the number of its machines, how many run, and the sums of
-- their cores and memory, over the machines of the cluster that name that project and no others.
pub tenant_of_usage :
    (owned : List Text) (vms : List ListedVm) (project : Json)
    → member_text (text_of (get (txt "id") project)) owned ≡ true
    → let mine = filter_by (is_in (text_of (get (txt "id") project))) vms in
      let shown = (tenant_of (count_vms owned vms []) project).usage in
      (shown.vms ≡ length mine)
      × (shown.running ≡ length (filter_by is_running mine))
      × (shown.vcpus ≡ sum_by (λ (v : ListedVm). v.vm.vcpus) mine)
      × (shown.ram_mb ≡ sum_by (λ (v : ListedVm). v.vm.ram_mb) mine)
unfolding tenant_of lookup
tenant_of_usage owned vms project h =
    let pid = text_of (get (txt "id") project) in
    let (count, running, vcpus, ram) = use_vms_sums (filter_by (is_in pid) vms) no_usage in
    rw (count_vms-lookup owned vms [] pid h)
      (omega (arith, count), omega (arith, running), omega (arith, vcpus), omega (arith, ram))
