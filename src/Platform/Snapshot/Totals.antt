-- ===== src/Platform/Snapshot/Totals.antt =====
-- The totals of the cluster against the figures of its accounts.
use opencloud_backend.Base.{
  ℕ, ◌+◌, ◌≡◌, refl, ◌∙◌, Bool, Option, List, [], ◌∷◌, sum_by, sum_by-length, filter_by, arith, txt,
  nonempty, member_text, lower, ◌||◌, Text, if◌then◌else◌,
}
use opencloud_backend.Base.Dict.{Dict}
use opencloud_backend.Accounts.Backups.{is_backup}
use opencloud_backend.Platform.Snapshot.{
  Source, vms, volumes, volume_snapshots, vm_snapshots, public_ips, vpcs, subnets, security_groups,
  Row, Usage, blank_usage, fold, add_vm, add_volume, add_volume_snapshot,
}
use opencloud_backend.Platform.Snapshot.Build.{Domain, owners, rows_of, totals, attribute}
use opencloud_backend.Platform.Snapshot.Conservation.{sum_entries, unowned, attribute-sum}

-- The machine runs, by the words of the cloud for it.
abbrev pub is_up : Row → Bool
is_up r = member_text (lower r.status) (txt "running" ∷ txt "active" ∷ [])

-- A protection group took the snapshot.
abbrev pub of_protection : Row → Bool
of_protection r = nonempty r.mark.protection_group_id || nonempty r.mark.protection_group

-- A weight on the rows of one list.
abbrev on_vms : (Row → ℕ) → Source → Row → ℕ
on_vms weight vms r = weight r
on_vms weight _ r = 0

abbrev on_volumes : (Row → ℕ) → Source → Row → ℕ
on_volumes weight volumes r = weight r
on_volumes weight _ r = 0

abbrev on_volume_snapshots : (Row → ℕ) → Source → Row → ℕ
on_volume_snapshots weight volume_snapshots r = weight r
on_volume_snapshots weight _ r = 0

abbrev on_public_ips : (Row → ℕ) → Source → Row → ℕ
on_public_ips weight public_ips r = weight r
on_public_ips weight _ r = 0

sum_by-zero : (rows : List Row) → sum_by (λ r. 0) rows ≡ 0
sum_by-zero [] = refl
sum_by-zero (r ∷ rows) = omega (arith, sum_by-zero rows)

unowned-zero : (directory : Dict Text) (rows : List Row) → unowned directory (λ r. 0) rows ≡ 0
unowned-zero directory [] = refl
unowned-zero directory (r ∷ rows) = ground (arith, unowned-zero directory rows)

sum_by-filter_by :
    (keep : Row → Bool) (weight : Row → ℕ) (rows : List Row)
    → sum_by (λ r. if keep r then weight r else 0) rows ≡ sum_by weight (filter_by keep rows)
sum_by-filter_by keep weight [] = refl
sum_by-filter_by keep weight (r ∷ rows) = ground (arith, sum_by-filter_by keep weight rows)

-- A figure's sum over the accounts, with what the rows of no known account hold, is its total.
abbrev pub Conserves :
    List Domain → (Source → Option (List Row)) → (Usage → ℕ) → Source → (Row → ℕ) → Type 0
Conserves domains lists f s weight =
    sum_entries f (attribute domains lists).0.accounts
      + unowned (owners domains []) weight (rows_of lists s)
    ≡ f (totals lists)

zeros :
    (directory : Dict Text) (rows : List Row)
    → (unowned directory (λ r. 0) rows ≡ 0) × (sum_by (λ (r : Row). 0) rows ≡ 0)
zeros directory rows = (unowned-zero directory rows, sum_by-zero rows)

conserve_vms :
    (f : Usage → ℕ) (weight : Row → ℕ) (domains : List Domain) (lists : Source → Option (List Row))
    → ((t : Source) (r : Row) (u : Usage) → f (fold t r u) ≡ f u + on_vms weight t r)
    → f blank_usage ≡ 0
    → sum_entries f (attribute domains lists).0.accounts
        + unowned (owners domains []) weight (rows_of lists vms)
      ≡ sum_by weight (rows_of lists vms)
conserve_vms f weight domains lists step z =
    let none_of = (λ (s : Source). zeros (owners domains []) (rows_of lists s)) in
    omega (
      arith,
      attribute-sum f (on_vms weight) domains lists step z,
      none_of volumes,
      none_of volume_snapshots,
      none_of vm_snapshots,
      none_of public_ips,
      none_of vpcs,
      none_of subnets,
      none_of security_groups,
    )

conserve_volumes :
    (f : Usage → ℕ) (weight : Row → ℕ) (domains : List Domain) (lists : Source → Option (List Row))
    → ((t : Source) (r : Row) (u : Usage) → f (fold t r u) ≡ f u + on_volumes weight t r)
    → f blank_usage ≡ 0
    → sum_entries f (attribute domains lists).0.accounts
        + unowned (owners domains []) weight (rows_of lists volumes)
      ≡ sum_by weight (rows_of lists volumes)
conserve_volumes f weight domains lists step z =
    let none_of = (λ (s : Source). zeros (owners domains []) (rows_of lists s)) in
    omega (
      arith,
      attribute-sum f (on_volumes weight) domains lists step z,
      none_of vms,
      none_of volume_snapshots,
      none_of vm_snapshots,
      none_of public_ips,
      none_of vpcs,
      none_of subnets,
      none_of security_groups,
    )

conserve_volume_snapshots :
    (f : Usage → ℕ) (weight : Row → ℕ) (domains : List Domain) (lists : Source → Option (List Row))
    → ((t : Source) (r : Row) (u : Usage) → f (fold t r u) ≡ f u + on_volume_snapshots weight t r)
    → f blank_usage ≡ 0
    → sum_entries f (attribute domains lists).0.accounts
        + unowned (owners domains []) weight (rows_of lists volume_snapshots)
      ≡ sum_by weight (rows_of lists volume_snapshots)
conserve_volume_snapshots f weight domains lists step z =
    let none_of = (λ (s : Source). zeros (owners domains []) (rows_of lists s)) in
    omega (
      arith,
      attribute-sum f (on_volume_snapshots weight) domains lists step z,
      none_of vms,
      none_of volumes,
      none_of vm_snapshots,
      none_of public_ips,
      none_of vpcs,
      none_of subnets,
      none_of security_groups,
    )

conserve_public_ips :
    (f : Usage → ℕ) (weight : Row → ℕ) (domains : List Domain) (lists : Source → Option (List Row))
    → ((t : Source) (r : Row) (u : Usage) → f (fold t r u) ≡ f u + on_public_ips weight t r)
    → f blank_usage ≡ 0
    → sum_entries f (attribute domains lists).0.accounts
        + unowned (owners domains []) weight (rows_of lists public_ips)
      ≡ sum_by weight (rows_of lists public_ips)
conserve_public_ips f weight domains lists step z =
    let none_of = (λ (s : Source). zeros (owners domains []) (rows_of lists s)) in
    omega (
      arith,
      attribute-sum f (on_public_ips weight) domains lists step z,
      none_of vms,
      none_of volumes,
      none_of volume_snapshots,
      none_of vm_snapshots,
      none_of vpcs,
      none_of subnets,
      none_of security_groups,
    )

-- What one row adds to the figures.
fold_figures :
    (t : Source) (r : Row) (u : Usage)
    → ((fold t r u).vm_count ≡ u.vm_count + on_vms (λ r. 1) t r)
      × ((fold t r u).running_vms ≡ u.running_vms + on_vms (λ r. if is_up r then 1 else 0) t r)
      × ((fold t r u).used_vcpus ≡ u.used_vcpus + on_vms (λ r. r.vcpus) t r)
      × ((fold t r u).used_ram_mb ≡ u.used_ram_mb + on_vms (λ r. r.ram_mb) t r)
      × ((fold t r u).volume_count ≡ u.volume_count + on_volumes (λ r. 1) t r)
      × ((fold t r u).storage_gib ≡ u.storage_gib + on_volumes (λ r. r.size_gib) t r)
      × ((fold t r u).volume_snapshot_gib
          ≡ u.volume_snapshot_gib + on_volume_snapshots (λ r. r.size_gib) t r)
      × ((fold t r u).backup_snapshot_gib
          ≡ u.backup_snapshot_gib
            + on_volume_snapshots (λ r. if of_protection r then r.size_gib else 0) t r)
      × ((fold t r u).public_ip_count ≡ u.public_ip_count + on_public_ips (λ r. 1) t r)
      × ((fold t r u).volume_snapshot_count
          ≡ u.volume_snapshot_count + on_volume_snapshots (λ r. 1) t r)
      × ((fold t r u).backup_snapshot_count
          ≡ u.backup_snapshot_count
            + on_volume_snapshots (λ r. if of_protection r then 1 else 0) t r)
unfolding fold add_vm add_volume add_volume_snapshot is_backup
fold_figures vms r u = ground arith
fold_figures volumes r u = ground arith
fold_figures volume_snapshots r u = ground arith
fold_figures vm_snapshots r u = ground arith
fold_figures public_ips r u = ground arith
fold_figures vpcs r u = ground arith
fold_figures subnets r u = ground arith
fold_figures security_groups r u = ground arith

-- The figures of the accounts, over all accounts, are those of the raw lists less what the rows hold
-- whose project no account lists: machines, running machines, processors, memory, volumes and their
-- capacity, snapshots and their capacity, the backups among them and theirs, and public addresses.
pub attribute_totals :
    (domains : List Domain) (lists : Source → Option (List Row))
    → Conserves domains lists (λ u. u.vm_count) vms (λ r. 1)
      × Conserves domains lists (λ u. u.running_vms) vms (λ r. if is_up r then 1 else 0)
      × Conserves domains lists (λ u. u.used_vcpus) vms (λ r. r.vcpus)
      × Conserves domains lists (λ u. u.used_ram_mb) vms (λ r. r.ram_mb)
      × Conserves domains lists (λ u. u.volume_count) volumes (λ r. 1)
      × Conserves domains lists (λ u. u.storage_gib) volumes (λ r. r.size_gib)
      × Conserves domains lists (λ u. u.volume_snapshot_count) volume_snapshots (λ r. 1)
      × Conserves domains lists (λ u. u.volume_snapshot_gib) volume_snapshots (λ r. r.size_gib)
      × Conserves domains lists
          (λ u. u.backup_snapshot_count)
          volume_snapshots
          (λ r. if of_protection r then 1 else 0)
      × Conserves domains lists
          (λ u. u.backup_snapshot_gib)
          volume_snapshots
          (λ r. if of_protection r then r.size_gib else 0)
      × Conserves domains lists (λ u. u.public_ip_count) public_ips (λ r. 1)
unfolding totals is_backup
attribute_totals domains lists = (
  conserve_vms _ _ domains lists (λ t r u. (fold_figures t r u).0) refl ∙ sum_by-length _,
  conserve_vms _ _ domains lists (λ t r u. (fold_figures t r u).1) refl
      ∙ sum_by-filter_by is_up (λ r. 1) _
      ∙ sum_by-length _,
  conserve_vms _ _ domains lists (λ t r u. (fold_figures t r u).2) refl,
  conserve_vms _ _ domains lists (λ t r u. (fold_figures t r u).3) refl,
  conserve_volumes _ _ domains lists (λ t r u. (fold_figures t r u).4) refl ∙ sum_by-length _,
  conserve_volumes _ _ domains lists (λ t r u. (fold_figures t r u).5) refl,
  conserve_volume_snapshots _ _ domains lists (λ t r u. (fold_figures t r u).9) refl
      ∙ sum_by-length _,
  conserve_volume_snapshots _ _ domains lists (λ t r u. (fold_figures t r u).6) refl,
  conserve_volume_snapshots _ _ domains lists (λ t r u. (fold_figures t r u).10) refl
      ∙ sum_by-filter_by of_protection (λ r. 1) _
      ∙ sum_by-length _,
  conserve_volume_snapshots _ _ domains lists (λ t r u. (fold_figures t r u).7) refl
      ∙ sum_by-filter_by of_protection (λ r. r.size_gib) _,
  conserve_public_ips _ _ domains lists (λ t r u. (fold_figures t r u).8) refl ∙ sum_by-length _,
)
