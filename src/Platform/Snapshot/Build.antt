-- ===== src/Platform/Snapshot/Build.antt =====
-- `_fetch`, `_build`, `_mark_unavailable`, `_totals`, `get` and `account` of
-- apps/platform_admin/snapshot.py.
use opencloud_backend.Base.{
  ℕ, ◌+◌, ◌*◌, Bool, true, false, ◌||◌, not, Option, none, some, List, [], ◌∷◌, ◌++◌, map, length,
  sum_by, filter_by, first_by, Text, text_eq, lower, member_text, nonempty, is_some, or_default,
  ltb, ◌==◌, if◌then◌else◌,
}
use opencloud_backend.Base.Dict.{Dict, lookup, insert}
use opencloud_backend.Accounts.Backups.{is_backup}
use opencloud_backend.Platform.Snapshot.{
  Source, vms, volumes, volume_snapshots, vm_snapshots, public_ips, vpcs, subnets, security_groups,
  sources, Row, Usage, blank_usage, runs, fold, MediaTotal, media_totals, sort,
}

pub record Project : Type 0 where
  pub id : Text
  pub name : Text

pub record Domain : Type 0 where
  pub id : Text
  pub name : Text
  -- `list_domain_project_details(id)`, or a ZadaraError
  pub projects : Option (List Project)

-- What the cloud answers at one time. The token and the list of domains may fail as a whole.
pub record Cloud : Type 0 where
  pub domains : Option (List Domain)
  pub lists : Source → Option (List Row)

-- The object of an account or a project while it is filled; `held` are its volumes.
pub record Entry : Type 0 where
  pub usage : Usage
  pub held : List Row

abbrev pub blank_entry : Entry
blank_entry = record { usage = blank_usage; held = [] }

unfoldable pub blank_accounts : List Domain → Dict Entry → Dict Entry
blank_accounts [] accounts = accounts
blank_accounts (d ∷ domains) accounts = blank_accounts domains (insert d.id blank_entry accounts)

-- account_of_project, one domain at a time
unfoldable pub add_owned : Text → List Project → Dict Text → Dict Text
add_owned domain_id [] directory = directory
add_owned domain_id (p ∷ projects) directory =
    add_owned domain_id projects (insert p.id domain_id directory)

unfoldable pub owners : List Domain → Dict Text → Dict Text
owners [] directory = directory
owners (d ∷ domains) directory =
    owners domains (add_owned d.id (or_default d.projects []) directory)

unfoldable pub blank_projects : List Project → Dict Entry → Dict Entry
blank_projects [] projects = projects
blank_projects (p ∷ listed) projects = blank_projects listed (insert p.id blank_entry projects)

unfoldable pub all_projects : List Domain → Dict Entry → Dict Entry
all_projects [] projects = projects
all_projects (d ∷ domains) projects =
    all_projects domains (blank_projects (or_default d.projects []) projects)

-- `accounts[key]` changed in place; the key is there.
unfoldable pub change_at : Text → (Entry → Entry) → Dict Entry → Dict Entry
change_at k change [] = []
change_at k change ((j, e) ∷ d) =
    if text_eq j k then (j, change e) ∷ d else (j, e) ∷ change_at k change d

-- The account of a row, if its project is known.
unfoldable pub account_of : Dict Text → Row → Option Text
account_of directory row = elim (lookup row.project_id directory) [
  | none ↦ none
  | some account_id ↦ if nonempty account_id then some account_id else none
]

-- `fold(entry, row)`, and the row kept aside where it is a volume
unfoldable pub take_row : Source → Row → Entry → Entry
take_row volumes row e = record { usage = fold volumes row e.usage; held = e.held ++ row ∷ [] }
take_row source row e = record e { usage = fold source row e.usage }

pub record Tally : Type 0 where
  pub accounts : Dict Entry
  pub projects : Dict Entry

-- The loop over one list; the number counts the rows of no known account.
unfoldable pub fold_rows : Dict Text → Source → List Row → Tally → ℕ → Tally × ℕ
fold_rows directory source [] t n = (t, n)
fold_rows directory source (row ∷ rows) t n = elim (account_of directory row) [
  | none ↦ fold_rows directory source rows t (n + 1)
  | some account_id ↦
      fold_rows directory source rows
        (record {
          accounts = change_at account_id (take_row source row) t.accounts;
          projects = change_at row.project_id (take_row source row) t.projects;
        })
        n
]

-- The loop over the lists that were read.
unfoldable pub fold_sources :
    (Source → Option (List Row)) → Dict Text → List Source → Tally → Tally × List (Source × ℕ)
fold_sources lists directory [] t = (t, [])
fold_sources lists directory (source ∷ rest) t = elim (lists source) [
  | none ↦ fold_sources lists directory rest t
  | some rows ↦
      let folded = fold_rows directory source rows t 0 in
      let others = fold_sources lists directory rest folded.0 in
      (others.0, (source, folded.1) ∷ others.1)
]

-- `rows.get(source) or []`
abbrev pub rows_of : (Source → Option (List Row)) → Source → List Row
rows_of lists source = or_default (lists source) []

-- The figures of `_totals`, from the raw lists.
unfoldable pub totals : (Source → Option (List Row)) → Usage
totals lists =
    let scheduled = filter_by (λ (s : Row). is_backup s.mark) (rows_of lists volume_snapshots) in
    record {
      vm_count = length (rows_of lists vms);
      running_vms = length (filter_by runs (rows_of lists vms));
      used_vcpus = sum_by (λ (v : Row). v.vcpus) (rows_of lists vms);
      used_ram_mb = sum_by (λ (v : Row). v.ram_mb) (rows_of lists vms);
      volume_count = length (rows_of lists volumes);
      storage_gib = sum_by (λ (v : Row). v.size_gib) (rows_of lists volumes);
      volume_snapshot_count = length (rows_of lists volume_snapshots);
      volume_snapshot_gib = sum_by (λ (s : Row). s.size_gib) (rows_of lists volume_snapshots);
      backup_snapshot_count = length scheduled;
      backup_snapshot_gib = sum_by (λ (s : Row). s.size_gib) scheduled;
      vm_snapshot_count = length (rows_of lists vm_snapshots);
      public_ip_count = length (rows_of lists public_ips);
      vpc_count = length (rows_of lists vpcs);
      subnet_count = length (rows_of lists subnets);
      security_group_count = length (rows_of lists security_groups);
    }

-- The accounts and the projects of `_build` once every list is folded in, and what was left over.
unfoldable pub attribute : List Domain → (Source → Option (List Row)) → Tally × List (Source × ℕ)
attribute domains lists =
    fold_sources lists (owners domains []) sources
      (record { accounts = blank_accounts domains []; projects = all_projects domains [] })

-- A figure after `_mark_unavailable`: none is a number that nobody could read.
abbrev pub known {ℓ} : {A : Type ℓ} → Bool → A → Option A
known unavailable x = if unavailable then none else some x

pub record Reported : Type 0 where
  pub vm_count : Option ℕ
  pub running_vms : Option ℕ
  pub used_vcpus : Option ℕ
  pub used_ram_mb : Option ℕ
  pub volume_count : Option ℕ
  pub storage_gib : Option ℕ
  pub storage_by_media : Option (List MediaTotal)
  pub volume_snapshot_count : Option ℕ
  pub volume_snapshot_gib : Option ℕ
  pub backup_snapshot_count : Option ℕ
  pub backup_snapshot_gib : Option ℕ
  pub vm_snapshot_count : Option ℕ
  pub public_ip_count : Option ℕ
  pub vpc_count : Option ℕ
  pub subnet_count : Option ℕ
  pub security_group_count : Option ℕ

-- FIELDS_BY_SOURCE and `_mark_unavailable`
unfoldable pub mark_unavailable : (Source → Bool) → Usage → List MediaTotal → Reported
mark_unavailable unavailable u by_media = record {
  vm_count = known (unavailable vms) u.vm_count;
  running_vms = known (unavailable vms) u.running_vms;
  used_vcpus = known (unavailable vms) u.used_vcpus;
  used_ram_mb = known (unavailable vms) u.used_ram_mb;
  volume_count = known (unavailable volumes) u.volume_count;
  storage_gib = known (unavailable volumes) u.storage_gib;
  storage_by_media = known (unavailable volumes) by_media;
  volume_snapshot_count = known (unavailable volume_snapshots) u.volume_snapshot_count;
  volume_snapshot_gib = known (unavailable volume_snapshots) u.volume_snapshot_gib;
  backup_snapshot_count = known (unavailable volume_snapshots) u.backup_snapshot_count;
  backup_snapshot_gib = known (unavailable volume_snapshots) u.backup_snapshot_gib;
  vm_snapshot_count = known (unavailable vm_snapshots) u.vm_snapshot_count;
  public_ip_count = known (unavailable public_ips) u.public_ip_count;
  vpc_count = known (unavailable vpcs) u.vpc_count;
  subnet_count = known (unavailable subnets) u.subnet_count;
  security_group_count = known (unavailable security_groups) u.security_group_count;
}

pub record Account : Type 0 where
  pub id : Text
  pub name : Text
  pub projects : List (Project × Reported)
  pub usage : Reported

pub record Cluster : Type 0 where
  pub accounts : List Account
  pub account_count : ℕ
  pub project_count : ℕ
  pub cluster_usage : Reported
  pub unattributed : List (Source × ℕ)
  pub unavailable : List Source
  pub unreadable_accounts : List Text
  pub built_at : ℕ
  pub stale : Bool

abbrev pub report : (Source → Bool) → Entry → Reported
report unavailable e = mark_unavailable unavailable e.usage (media_totals e.held)

abbrev pub entry_of : Text → Dict Entry → Entry
entry_of k d = or_default (lookup k d) blank_entry

-- An account as it is shown; its own figures are unknown where its projects could not be listed.
unfoldable pub show_account : (Source → Bool) → List Text → Tally → Domain → Account
show_account unavailable unreadable t d = record {
  id = d.id;
  name = d.name;
  projects =
      map (λ (p : Project). (p, report unavailable (entry_of p.id t.projects)))
        (or_default d.projects []);
  usage = report (λ s. member_text d.name unreadable || unavailable s) (entry_of d.id t.accounts);
}

-- The order of `a['name'].lower()`, by code points.
abbrev pub text_before : Text → Text → Bool
text_before [] [] = false
text_before [] (d ∷ t) = true
text_before (c ∷ s) [] = false
text_before (c ∷ s) (d ∷ t) = if ltb c d then true else (if c == d then text_before s t else false)

abbrev pub project_total : List Domain → ℕ
project_total = sum_by (λ (d : Domain). length (or_default d.projects []))

-- `_build`; `none` is a ZadaraError. Without the machines there is no picture.
unfoldable pub build : ℕ → Cloud → Option Cluster
build now cloud = elim cloud.domains [
  | none ↦ none
  | some domains ↦ elim (cloud.lists vms) [
    | none ↦ none
    | some _ ↦
        let (t, left_over) = attribute domains cloud.lists in
        let lost : Source → Bool = (λ s. not (is_some (cloud.lists s))) in
        let unreadable : List Text =
          map (λ (d : Domain). d.name)
            (filter_by (λ (d : Domain). not (is_some d.projects)) domains) in
        some (record {
          accounts =
              sort (λ (a : Account) (b : Account). text_before (lower a.name) (lower b.name))
                (map (show_account lost unreadable t) domains);
          account_count = length domains;
          project_count = project_total domains;
          cluster_usage =
              mark_unavailable lost (totals cloud.lists)
                (media_totals (rows_of cloud.lists volumes));
          unattributed = left_over;
          unavailable = filter_by lost sources;
          unreadable_accounts = unreadable;
          built_at = now;
          stale = false;
        })
  ]
]

abbrev pub snapshot_ttl : ℕ
snapshot_ttl = 120

abbrev pub fallback_ttl : ℕ
fallback_ttl = 24 * 60 * 60

-- The two cache entries, each with the time at which the cache drops it.
pub record SnapshotCache : Type 0 where
  pub fresh : Option (Cluster × ℕ)
  pub fallback : Option (Cluster × ℕ)

-- `cache.get`
unfoldable pub live : ℕ → Option (Cluster × ℕ) → Option Cluster
live now none = none
live now (some (c, expires)) = if ltb now expires then some c else none

-- A picture that is built is stored twice; one that is not is replaced by the last good one.
unfoldable pub rebuild : ℕ → Cloud → SnapshotCache → Option Cluster × SnapshotCache
rebuild now cloud cache = elim (build now cloud) [
  | some c ↦ (
    some c,
    record { fresh = some (c, now + snapshot_ttl); fallback = some (c, now + fallback_ttl) },
  )
  | none ↦ elim (live now cache.fallback) [
    | some c ↦ (some (record c { stale = true }), cache)
    | none ↦ (none, cache)
  ]
]

unfoldable pub get : Bool → ℕ → Cloud → SnapshotCache → Option Cluster × SnapshotCache
get refresh now cloud cache =
    if refresh
    then rebuild now cloud cache
    else elim (live now cache.fresh) [ some c ↦ (some c, cache) | none ↦ rebuild now cloud cache ]

-- `account`
unfoldable pub find_account : Text → Cluster → Option Account
find_account account_id c = first_by (λ (a : Account). text_eq a.id account_id) c.accounts
