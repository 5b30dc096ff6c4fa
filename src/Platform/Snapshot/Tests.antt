-- ===== src/Platform/Snapshot/Tests.antt =====
-- The theorems on the picture of the cluster at concrete inputs.
use opencloud_backend.Base.{
  ℕ, ◌≡◌, refl, true, false, Option, none, some, List, [], ◌∷◌, Text, txt, inr, arith, or_default,
  if◌then◌else◌,
}
use opencloud_backend.Platform.Snapshot.{
  Source, vms, volumes, volume_snapshots, public_ips, Row, blank_usage,
}
use opencloud_backend.Platform.Snapshot.Build.{
  Domain, Cloud, Cluster, SnapshotCache, mark_unavailable, build, get, live,
}
use opencloud_backend.Platform.Snapshot.Totals.{Conserves, attribute_totals, is_up, of_protection}
use opencloud_backend.Platform.Snapshot.Fallback.{get_falls_back}

abbrev disk : Text → Text → ℕ → Row
disk project media size = record {
  project_id = project;
  status = txt "active";
  vcpus = 2;
  ram_mb = 1024;
  size_gib = size;
  media = media;
  mark = record { protection_group_id = []; protection_group = [] };
}

-- A project of the account, one that nobody lists, and a list that failed.
abbrev lists : Source → Option (List Row)
lists vms = some (disk (txt "p1") [] 0 ∷ disk (txt "p9") [] 0 ∷ [])
lists volumes = some (disk (txt "p1") (txt "SSD") 40 ∷ disk (txt "p1") [] 10 ∷ [])
lists volume_snapshots = none
lists _ = some []

abbrev domains : List Domain
domains =
    record {
      id = txt "d1";
      name = txt "acme";
      projects = some (record { id = txt "p1"; name = txt "web" } ∷ []);
    }
    ∷ record { id = txt "d2"; name = txt "other"; projects = none }
    ∷ []

abbrev cloud : Cloud
cloud = record { domains = some domains; lists = lists }

abbrev down : Cloud
down = record { domains = none; lists = lists }

abbrev empty_cache : SnapshotCache
empty_cache = record { fresh = none; fallback = none }

attribute_totals_example :
    Conserves domains lists (λ u. u.vm_count) vms (λ r. 1)
    × Conserves domains lists (λ u. u.running_vms) vms (λ r. if is_up r then 1 else 0)
    × Conserves domains lists (λ u. u.used_vcpus) vms (λ r. r.vcpus)
    × Conserves domains lists (λ u. u.used_ram_mb) vms (λ r. r.ram_mb)
    × Conserves domains lists (λ u. u.volume_count) volumes (λ r. 1)
    × Conserves domains lists (λ u. u.storage_gib) volumes (λ r. r.size_gib)
    × Conserves domains lists (λ u. u.volume_snapshot_count) volume_snapshots (λ r. 1)
    × Conserves domains lists (λ u. u.volume_snapshot_gib) volume_snapshots (λ r. r.size_gib)
    × Conserves domains lists
        (λ u. u.backup_snapshot_count)
        volume_snapshots
        (λ r. if of_protection r then 1 else 0)
    × Conserves domains lists
        (λ u. u.backup_snapshot_gib)
        volume_snapshots
        (λ r. if of_protection r then r.size_gib else 0)
    × Conserves domains lists (λ u. u.public_ip_count) public_ips (λ r. 1)
attribute_totals_example = attribute_totals domains lists

abbrev nothing : Cluster
nothing = record {
  accounts = [];
  account_count = 0;
  project_count = 0;
  cluster_usage = mark_unavailable (λ _. true) blank_usage [];
  unattributed = [];
  unavailable = [];
  unreadable_accounts = [];
  built_at = 0;
  stale = false;
}

abbrev picture : Cluster
picture = or_default (build 1000 cloud) nothing

get_falls_back_example :
    let after = (get false 1000 cloud empty_cache).1 in
    get false 2000 down after ≡ (some (record picture { stale = true }), after)
unfolding build live
get_falls_back_example =
    get_falls_back false false 1000 2000 cloud down empty_cache picture (inr refl) refl refl
      (inr refl) (omega arith)
