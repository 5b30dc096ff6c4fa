-- ===== src/Platform/Snapshot.antt =====
-- apps/platform_admin/snapshot.py: the picture of the whole cluster, and `media_totals` of
-- apps/integrations/zadara/resources.py. The lists of the cloud are arguments: `none` is a list that
-- could not be read. A project is taken to stand in one account only, so its entry in the account and
-- the one in the dict of projects are the same object; here the dict holds it.
pub mod Build
pub mod Conservation
pub mod Totals
pub mod Fallback
pub mod Media
mod Tests
use opencloud_backend.Base.{
  ℕ, ◌+◌, ◌*◌, Bool, true, false, ◌&&◌, ◌||◌, not, Option, none, some, List, [], ◌∷◌, ◌++◌, map,
  length, sum_by, filter_by, first_by, Text, txt, text_eq, lower, member_text, nonempty, is_some,
  or_default, ltb, leb, ◌==◌, if◌then◌else◌,
}
use opencloud_backend.Base.Dict.{Dict, lookup, insert, adjust}
use opencloud_backend.Accounts.Backups.{SnapshotMark, is_backup}

pub data Source : Type 0 where
  vms volumes volume_snapshots vm_snapshots public_ips vpcs subnets security_groups : Source

-- SOURCES
abbrev pub sources : List Source
sources =
    vms ∷ volumes ∷ volume_snapshots ∷ vm_snapshots ∷ public_ips ∷ vpcs ∷ subnets ∷ security_groups
    ∷ []

-- What is read of a row of any list; a missing number is 0 and a missing text is empty.
pub record Row : Type 0 where
  pub project_id : Text
  pub status : Text
  pub vcpus : ℕ
  pub ram_mb : ℕ
  pub size_gib : ℕ
  pub media : Text
  pub mark : SnapshotMark

pub record Usage : Type 0 where
  pub vm_count : ℕ
  pub running_vms : ℕ
  pub used_vcpus : ℕ
  pub used_ram_mb : ℕ
  pub volume_count : ℕ
  pub storage_gib : ℕ
  pub volume_snapshot_count : ℕ
  pub volume_snapshot_gib : ℕ
  pub backup_snapshot_count : ℕ
  pub backup_snapshot_gib : ℕ
  pub vm_snapshot_count : ℕ
  pub public_ip_count : ℕ
  pub vpc_count : ℕ
  pub subnet_count : ℕ
  pub security_group_count : ℕ

abbrev pub blank_usage : Usage
blank_usage = record {
  vm_count = 0;
  running_vms = 0;
  used_vcpus = 0;
  used_ram_mb = 0;
  volume_count = 0;
  storage_gib = 0;
  volume_snapshot_count = 0;
  volume_snapshot_gib = 0;
  backup_snapshot_count = 0;
  backup_snapshot_gib = 0;
  vm_snapshot_count = 0;
  public_ip_count = 0;
  vpc_count = 0;
  subnet_count = 0;
  security_group_count = 0;
}

abbrev pub running_states : List Text
running_states = txt "running" ∷ txt "active" ∷ []

abbrev pub runs : Row → Bool
runs row = member_text (lower row.status) running_states

unfoldable pub add_vm : Row → Usage → Usage
add_vm vm u =
    let seen : Usage = record u {
      vm_count = u.vm_count + 1;
      used_vcpus = u.used_vcpus + vm.vcpus;
      used_ram_mb = u.used_ram_mb + vm.ram_mb;
    } in
    if runs vm then record seen { running_vms = seen.running_vms + 1 } else seen

unfoldable pub add_volume : Row → Usage → Usage
add_volume v u = record u {
  volume_count = u.volume_count + 1;
  storage_gib = u.storage_gib + v.size_gib;
}

unfoldable pub add_volume_snapshot : Row → Usage → Usage
add_volume_snapshot s u =
    let seen : Usage = record u {
      volume_snapshot_count = u.volume_snapshot_count + 1;
      volume_snapshot_gib = u.volume_snapshot_gib + s.size_gib;
    } in
    if is_backup s.mark
    then record seen {
      backup_snapshot_count = seen.backup_snapshot_count + 1;
      backup_snapshot_gib = seen.backup_snapshot_gib + s.size_gib;
    }
    else seen

-- _FOLD
unfoldable pub fold : Source → Row → Usage → Usage
unfolding add_vm add_volume add_volume_snapshot
fold vms row u = add_vm row u
fold volumes row u = add_volume row u
fold volume_snapshots row u = add_volume_snapshot row u
fold vm_snapshots row u = record u { vm_snapshot_count = u.vm_snapshot_count + 1 }
fold public_ips row u = record u { public_ip_count = u.public_ip_count + 1 }
fold vpcs row u = record u { vpc_count = u.vpc_count + 1 }
fold subnets row u = record u { subnet_count = u.subnet_count + 1 }
fold security_groups row u = record u { security_group_count = u.security_group_count + 1 }

pub record MediaTotal : Type 0 where
  pub media : Text
  pub volumes : ℕ
  pub total_gib : ℕ

-- `sorted(…, key=…)`: stable, `before` is the strict order of the keys.
unfoldable pub insert_sorted {ℓ} : {A : Type ℓ} → (A → A → Bool) → A → List A → List A
insert_sorted before x [] = x ∷ []
insert_sorted before x (y ∷ ys) = if before y x then y ∷ insert_sorted before x ys else x ∷ y ∷ ys

unfoldable pub sort {ℓ} : {A : Type ℓ} → (A → A → Bool) → List A → List A
unfolding insert_sorted
sort before [] = []
sort before (x ∷ xs) = insert_sorted before x (sort before xs)

unfoldable pub media_buckets : List Row → Dict MediaTotal → Dict MediaTotal
media_buckets [] buckets = buckets
media_buckets (v ∷ rows) buckets = media_buckets rows (
    adjust v.media (record { media = v.media; volumes = 0; total_gib = 0 })
      (λ (b : MediaTotal). record b {
        volumes = b.volumes + 1;
        total_gib = b.total_gib + v.size_gib;
      })
      buckets)

-- The labelled media first, the largest first.
abbrev pub media_before : MediaTotal → MediaTotal → Bool
media_before a b =
    if nonempty a.media
    then (if nonempty b.media then ltb b.total_gib a.total_gib else true)
    else (if nonempty b.media then false else ltb b.total_gib a.total_gib)

unfoldable pub media_totals : List Row → List MediaTotal
unfolding media_buckets sort
media_totals rows = sort media_before (map (λ (e : Text × MediaTotal). e.1) (media_buckets rows []))
