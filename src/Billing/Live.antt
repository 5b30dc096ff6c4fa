-- ===== src/Billing/Live.antt =====
-- apps/billing/views.py (_live_measurements): the shape of one project, for the estimate of a user.
-- The lists are those of the collector; `none` is a source that failed with a ZadaraError.
pub mod Bucket
pub mod Shape
mod Tests
use opencloud_backend.Base.{
  ℕ, ◌+◌, Bool, true, false, ◌||◌, not, Option, none, some, List, [], ◌∷◌, ◌++◌, is_some, Text, txt,
  text_eq, filter_by, or_default, if◌then◌else◌,
}
use opencloud_backend.Accounts.Backups.{is_backup}
use opencloud_backend.Billing.Collector.{Vm, Volume, ElasticIp, VolumeSnapshot, Sources, is_running}

-- `values`
pub record LiveMeasurement : Type 0 where
  pub vms_total : ℕ
  pub vms_running : ℕ
  pub vcpus : ℕ
  pub ram_mb : ℕ
  pub ssd_gib : ℕ
  pub hdd_gib : ℕ
  pub unlabelled_gib : ℕ
  pub elastic_ips : ℕ
  pub snapshot_gib : ℕ

abbrev pub no_values : LiveMeasurement
no_values = record {
  vms_total = 0;
  vms_running = 0;
  vcpus = 0;
  ram_mb = 0;
  ssd_gib = 0;
  hdd_gib = 0;
  unlabelled_gib = 0;
  elastic_ips = 0;
  snapshot_gib = 0;
}

-- `item.get('projectId') == project_id`
abbrev pub is_mine : Text → Option Text → Bool
is_mine project_id none = false
is_mine project_id (some p) = text_eq p project_id

abbrev pub mine : {A : Type 0} → Text → (A → Option Text) → Option (List A) → List A
mine {A = A} project_id project source =
    filter_by (λ (x : A). is_mine project_id (project x)) (or_default source [])

unfoldable pub live_vm : Vm → LiveMeasurement → LiveMeasurement
live_vm vm m =
    let seen : LiveMeasurement = record m { vms_total = m.vms_total + 1 } in
    if is_running vm
    then record seen {
      vms_running = seen.vms_running + 1;
      vcpus = seen.vcpus + vm.vcpus;
      ram_mb = seen.ram_mb + vm.ram_mb;
    }
    else seen

unfoldable pub live_volume : Volume → LiveMeasurement → LiveMeasurement
live_volume v m =
    if text_eq v.media (txt "SSD")
    then record m { ssd_gib = m.ssd_gib + v.size_gib }
    else if text_eq v.media (txt "HDD")
    then record m { hdd_gib = m.hdd_gib + v.size_gib }
    else record m { unlabelled_gib = m.unlabelled_gib + v.size_gib }

unfoldable pub live_address : ElasticIp → LiveMeasurement → LiveMeasurement
live_address e m = record m { elastic_ips = m.elastic_ips + 1 }

unfoldable pub live_snapshot : Bool → VolumeSnapshot → LiveMeasurement → LiveMeasurement
live_snapshot with_backups s m =
    if with_backups || not (is_backup s.mark)
    then record m { snapshot_gib = m.snapshot_gib + s.size_gib }
    else m

-- One of the four loops.
unfoldable pub add_rows : {A V : Type 0} → (A → V → V) → List A → V → V
add_rows add [] values = values
add_rows add (x ∷ xs) values = add_rows add xs (add x values)

-- The name of a source that failed.
abbrev pub failed : {A : Type 0} → Text → Option (List A) → List Text
failed name none = name ∷ []
failed name (some rows) = []

abbrev pub unavailable_sources : Sources → List Text
unavailable_sources sources =
    failed (txt "machines") sources.machines
    ++ failed (txt "volumes") sources.volumes
    ++ failed (txt "addresses") sources.addresses
    ++ failed (txt "snapshots") sources.snapshots

unfoldable pub live_values : Bool → Sources → Text → LiveMeasurement
live_values with_backups sources project_id =
    let machines =
      add_rows live_vm (mine project_id (λ (v : Vm). v.project_id) sources.machines) no_values in
    let volumes =
      add_rows live_volume (mine project_id (λ (v : Volume). v.project_id) sources.volumes)
        machines in
    let addresses =
      add_rows live_address (mine project_id (λ (e : ElasticIp). e.project_id) sources.addresses)
        volumes in
    add_rows (live_snapshot with_backups)
      (mine project_id (λ (s : VolumeSnapshot). s.project_id) sources.snapshots) addresses

unfoldable pub live_measurements : Bool → Sources → Text → LiveMeasurement × List Text
live_measurements with_backups sources project_id =
    (live_values with_backups sources project_id, unavailable_sources sources)
