-- ===== src/Billing/Collector.antt =====
-- apps/billing/collector.py: the daily measurement of every project, and the rows it writes.
-- The lists come from the cloud; `none` is a source that failed with a ZadaraError.
pub mod Totals
pub mod Capture
mod Tests
use opencloud_backend.Base.{
  ℕ, ◌+◌, Bool, true, false, ◌&&◌, ◌||◌, Option, none, some, List, [], ◌∷◌, Text, txt, text_eq,
  lower, member_text, nonempty, or_default, ◌==◌, if◌then◌else◌,
}
use opencloud_backend.Base.Dict.{Dict, lookup, insert, adjust}
use opencloud_backend.Accounts.Backups.{SnapshotMark, is_backup}
use opencloud_backend.Billing.Model.{UsageSnapshot}

-- What the resource lists report of each row.
pub record Vm : Type 0 where
  pub project_id : Option Text
  pub status : Text
  pub vcpus : ℕ
  pub ram_mb : ℕ

pub record Volume : Type 0 where
  pub project_id : Option Text
  pub media : Text
  pub size_gib : ℕ

pub record ElasticIp : Type 0 where
  pub project_id : Option Text

pub record VolumeSnapshot : Type 0 where
  pub project_id : Option Text
  pub size_gib : ℕ
  pub mark : SnapshotMark

pub record Sources : Type 0 where
  pub machines : Option (List Vm)
  pub volumes : Option (List Volume)
  pub addresses : Option (List ElasticIp)
  pub snapshots : Option (List VolumeSnapshot)

-- A bucket of the measurements.
pub record Measurement : Type 0 where
  pub vms_total : ℕ
  pub vms_running : ℕ
  pub vcpus : ℕ
  pub ram_mb : ℕ
  pub ssd_gib : ℕ
  pub hdd_gib : ℕ
  pub unlabelled_gib : ℕ
  pub elastic_ips : ℕ
  pub snapshot_gib : ℕ
  pub backup_snapshot_gib : ℕ

abbrev pub blank : Measurement
blank = record {
  vms_total = 0;
  vms_running = 0;
  vcpus = 0;
  ram_mb = 0;
  ssd_gib = 0;
  hdd_gib = 0;
  unlabelled_gib = 0;
  elastic_ips = 0;
  snapshot_gib = 0;
  backup_snapshot_gib = 0;
}

abbrev pub running : List Text
running = txt "active" ∷ txt "running" ∷ []

abbrev pub is_running : Vm → Bool
is_running vm = member_text (lower vm.status) running

-- A resource with no project goes in no bucket.
unfoldable pub bucket :
    Option Text → (Measurement → Measurement) → Dict Measurement → Dict Measurement
bucket none change buckets = buckets
bucket (some project_id) change buckets =
    if nonempty project_id then adjust project_id blank change buckets else buckets

unfoldable pub add_vm : Vm → Measurement → Measurement
add_vm vm m =
    let seen : Measurement = record m { vms_total = m.vms_total + 1 } in
    if is_running vm
    then record seen {
      vms_running = seen.vms_running + 1;
      vcpus = seen.vcpus + vm.vcpus;
      ram_mb = seen.ram_mb + vm.ram_mb;
    }
    else seen

unfoldable pub add_volume : Volume → Measurement → Measurement
add_volume v m =
    if text_eq v.media (txt "SSD")
    then record m { ssd_gib = m.ssd_gib + v.size_gib }
    else if text_eq v.media (txt "HDD")
    then record m { hdd_gib = m.hdd_gib + v.size_gib }
    else record m { unlabelled_gib = m.unlabelled_gib + v.size_gib }

unfoldable pub add_address : ElasticIp → Measurement → Measurement
add_address e m = record m { elastic_ips = m.elastic_ips + 1 }

unfoldable pub add_snapshot : VolumeSnapshot → Measurement → Measurement
add_snapshot s m =
    let seen : Measurement = record m { snapshot_gib = m.snapshot_gib + s.size_gib } in
    if is_backup s.mark
    then record seen { backup_snapshot_gib = seen.backup_snapshot_gib + s.size_gib }
    else seen

-- One of the four loops.
unfoldable pub measure_rows :
    {A : Type 0}
    → (A → Option Text)
    → (A → Measurement → Measurement)
    → List A
    → Dict Measurement
    → Dict Measurement
measure_rows project add [] buckets = buckets
measure_rows project add (x ∷ xs) buckets =
    measure_rows project add xs (bucket (project x) (add x) buckets)

unfoldable pub measure_cluster : Sources → Dict Measurement
measure_cluster sources =
    let machines =
      measure_rows (λ (v : Vm). v.project_id) add_vm (or_default sources.machines []) [] in
    let volumes =
      measure_rows (λ (v : Volume). v.project_id) add_volume (or_default sources.volumes [])
        machines in
    let addresses =
      measure_rows (λ (e : ElasticIp). e.project_id) add_address (or_default sources.addresses [])
        volumes in
    measure_rows (λ (s : VolumeSnapshot). s.project_id) add_snapshot
      (or_default sources.snapshots []) addresses

pub record Domain : Type 0 where
  pub id : Text
  pub name : Text
  -- `list_domain_projects(id)`: the names by project id, or a ZadaraError.
  pub projects : Option (List (Text × Text))

pub record Owner : Type 0 where
  pub account : Text
  pub domain_id : Text
  pub name : Text

unfoldable pub add_projects : Domain → List (Text × Text) → Dict Owner → Dict Owner
add_projects domain [] directory = directory
add_projects domain ((project_id, name) ∷ projects) directory = add_projects domain projects (
    insert project_id (record { account = domain.name; domain_id = domain.id; name = name })
      directory)

unfoldable pub project_directory : List Domain → Dict Owner → Dict Owner
unfolding add_projects
project_directory [] directory = directory
project_directory (d ∷ domains) directory =
    project_directory domains (add_projects d (or_default d.projects []) directory)

-- The row of one project on one day. A project with no known owner has the account ''.
unfoldable pub snapshot_of : ℕ → Text → Option Owner → Measurement → UsageSnapshot
snapshot_of taken_on project_id known m =
    let owner : Owner = or_default known (record { account = []; domain_id = []; name = [] }) in
    record {
      taken_on = taken_on;
      account = owner.account;
      domain_id = owner.domain_id;
      project_id = project_id;
      project_name = owner.name;
      vms_total = m.vms_total;
      vms_running = m.vms_running;
      vcpus = m.vcpus;
      ram_mb = m.ram_mb;
      ssd_gib = m.ssd_gib;
      hdd_gib = m.hdd_gib;
      unlabelled_gib = m.unlabelled_gib;
      elastic_ips = m.elastic_ips;
      snapshot_gib = m.snapshot_gib;
      backup_snapshot_gib = m.backup_snapshot_gib;
    }

abbrev pub is_row : Text → ℕ → UsageSnapshot → Bool
is_row project_id taken_on s = text_eq s.project_id project_id && s.taken_on == taken_on

-- `update_or_create(project_id=…, taken_on=…, defaults=…)`
unfoldable pub update_or_create : UsageSnapshot → List UsageSnapshot → List UsageSnapshot
update_or_create row [] = row ∷ []
update_or_create row (s ∷ table) =
    if is_row row.project_id row.taken_on s then row ∷ table else s ∷ update_or_create row table

pub record Captured : Type 0 where
  pub table : List UsageSnapshot
  pub projects : ℕ
  pub unattributed : ℕ

unfoldable pub capture_rows : ℕ → Dict Owner → Dict Measurement → Captured → Captured
capture_rows taken_on directory [] c = c
capture_rows taken_on directory ((project_id, m) ∷ measurements) c =
    let known = lookup project_id directory in
    capture_rows taken_on directory measurements (record {
      table = update_or_create (snapshot_of taken_on project_id known m) c.table;
      projects = c.projects + 1;
      unattributed = elim known [ none ↦ c.unattributed + 1 | some _ ↦ c.unattributed ];
    })

unfoldable pub capture : ℕ → Sources → List Domain → List UsageSnapshot → Captured
capture taken_on sources domains table =
    capture_rows taken_on (project_directory domains []) (measure_cluster sources)
      (record { table = table; projects = 0; unattributed = 0 })
