-- ===== src/Billing/Collector/Totals.antt =====
-- No resource is counted twice or lost: the buckets add up to the lists they were made from.
use opencloud_backend.Base.{
  ℕ, ◌+◌, ◌≡◌, ◌∙◌, Option, none, some, List, [], ◌∷◌, sum_by, arith, Text, txt, text_eq,
  text_eq_iff, member_text, lower, ◌||◌, ap, true, false, Bool-cases, inl, inr, nonempty,
  or_default, if◌then◌else◌,
}
use opencloud_backend.Base.Dict.{Dict, adjust}
use opencloud_backend.Accounts.Backups.{is_backup}
use opencloud_backend.Billing.Collector.{
  Vm, Volume, ElasticIp, VolumeSnapshot, Sources, Measurement, blank, bucket, add_vm, add_volume,
  add_address, add_snapshot, measure_rows, measure_cluster,
}

-- The sum of a figure over all buckets.
abbrev pub total : (Measurement → ℕ) → Dict Measurement → ℕ
total f = sum_by (λ (e : Text × Measurement). f e.1)

-- A row that names a project counts, one that names none does not.
abbrev pub counted : Option Text → ℕ → ℕ
counted none n = 0
counted (some project_id) n = if nonempty project_id then n else 0

total-adjust :
    (f : Measurement → ℕ) (n : ℕ) (k : Text) (change : Measurement → Measurement)
    (d : Dict Measurement)
    → f blank ≡ 0
    → ((m : Measurement) → f (change m) ≡ f m + n)
    → total f (adjust k blank change d) ≡ total f d + n
unfolding adjust
total-adjust f n k change [] start step = omega (arith, step blank)
total-adjust f n k change ((j, m) ∷ d) start step =
    ground (arith, step m, total-adjust f n k change d start step)

total-bucket :
    (f : Measurement → ℕ) (n : ℕ) (project : Option Text) (change : Measurement → Measurement)
    (d : Dict Measurement)
    → f blank ≡ 0
    → ((m : Measurement) → f (change m) ≡ f m + n)
    → total f (bucket project change d) ≡ total f d + counted project n
unfolding bucket
total-bucket f n none change d start step = omega arith
total-bucket f n (some p) change d start step =
    ground (arith, total-adjust f n p change d start step)

total-measure_rows :
    {A : Type 0} (f : Measurement → ℕ) (project : A → Option Text)
    (add : A → Measurement → Measurement) (weight : A → ℕ) (xs : List A) (d : Dict Measurement)
    → f blank ≡ 0
    → ((x : A) (m : Measurement) → f (add x m) ≡ f m + weight x)
    → total f (measure_rows project add xs d)
      ≡ total f d + sum_by (λ x. counted (project x) (weight x)) xs
unfolding measure_rows
total-measure_rows f project add weight [] d start step = omega arith
total-measure_rows f project add weight (x ∷ xs) d start step =
    total-measure_rows f project add weight xs (bucket (project x) (add x) d) start step
    ∙ rw (total-bucket f (weight x) (project x) (add x) d start (step x)) (omega arith)

-- The rows of a source that read, or none.
abbrev pub rows {ℓ} : {A : Type ℓ} → Option (List A) → List A
rows source = or_default source []

-- A figure's total over the buckets is the sum of what each row that names a project adds to it.
abbrev pub SumsUp :
    (Measurement → ℕ)
    → Sources
    → (Vm → ℕ)
    → (Volume → ℕ)
    → (ElasticIp → ℕ)
    → (VolumeSnapshot → ℕ)
    → Type 0
SumsUp f s vm volume address snapshot =
    total f (measure_cluster s)
    ≡ sum_by (λ (x : Vm). counted x.project_id (vm x)) (rows s.machines)
      + sum_by (λ (x : Volume). counted x.project_id (volume x)) (rows s.volumes)
      + sum_by (λ (x : ElasticIp). counted x.project_id (address x)) (rows s.addresses)
      + sum_by (λ (x : VolumeSnapshot). counted x.project_id (snapshot x)) (rows s.snapshots)

-- What one row of each source adds to a figure that starts at zero.
abbrev Adds :
    (Measurement → ℕ) → (Vm → ℕ) → (Volume → ℕ) → (ElasticIp → ℕ) → (VolumeSnapshot → ℕ) → Type 0
Adds f vm volume address snapshot =
    (f blank ≡ 0)
    × ((x : Vm) (m : Measurement) → f (add_vm x m) ≡ f m + vm x)
    × ((x : Volume) (m : Measurement) → f (add_volume x m) ≡ f m + volume x)
    × ((x : ElasticIp) (m : Measurement) → f (add_address x m) ≡ f m + address x)
    × ((x : VolumeSnapshot) (m : Measurement) → f (add_snapshot x m) ≡ f m + snapshot x)

total-measure_cluster :
    (f : Measurement → ℕ) (s : Sources) (vm : Vm → ℕ) (volume : Volume → ℕ)
    (address : ElasticIp → ℕ) (snapshot : VolumeSnapshot → ℕ)
    → Adds f vm volume address snapshot
    → SumsUp f s vm volume address snapshot
unfolding measure_cluster
total-measure_cluster f s vm volume address snapshot adds =
    rw
      (total-measure_rows f (λ (x : VolumeSnapshot). x.project_id) add_snapshot snapshot
        (rows s.snapshots) _ adds.0 adds.4)
      (rw
        (total-measure_rows f (λ (x : ElasticIp). x.project_id) add_address address
          (rows s.addresses) _ adds.0 adds.3)
        (rw
          (total-measure_rows f (λ (x : Volume). x.project_id) add_volume volume (rows s.volumes) _
            adds.0 adds.2)
          (rw
            (total-measure_rows f (λ (x : Vm). x.project_id) add_vm vm (rows s.machines) _ adds.0
              adds.1)
            (omega arith))))

-- Which rows a figure counts.
abbrev pub no_row {ℓ} : {A : Type ℓ} → A → ℕ
no_row x = 0

-- Only while the machine runs.
abbrev pub while_up : Vm → ℕ → ℕ
while_up x n = if member_text (lower x.status) (txt "active" ∷ txt "running" ∷ []) then n else 0

-- Only where the disk is of the medium.
abbrev pub of_medium : Text → Volume → ℕ
of_medium medium x = if text_eq x.media medium then x.size_gib else 0

-- Only where the disk is of neither medium.
abbrev pub of_no_medium : Volume → ℕ
of_no_medium x =
    if text_eq x.media (txt "SSD") || text_eq x.media (txt "HDD") then 0 else x.size_gib

-- Only where a protection group took the snapshot.
abbrev pub of_protection : VolumeSnapshot → ℕ
of_protection x =
    if nonempty x.mark.protection_group_id || nonempty x.mark.protection_group
    then x.size_gib
    else 0

-- No disk is of both.
one_medium : (t : Text) → text_eq t (txt "SSD") ≡ true → text_eq t (txt "HDD") ≡ false
unfolding text_eq
one_medium t h = ap (λ (u : Text). text_eq u (txt "HDD")) ((text_eq_iff t (txt "SSD")).0 h)

add_volume-hdd_gib :
    (x : Volume) (m : Measurement) → (add_volume x m).hdd_gib ≡ m.hdd_gib + of_medium (txt "HDD") x
unfolding add_volume
add_volume-hdd_gib x m = elim (Bool-cases (text_eq x.media (txt "SSD"))) [
  | inl e ↦ rw (e, one_medium x.media e) (omega arith)
  | inr e ↦ ground arith
]

-- Every figure of the buckets adds up to the lists: machines, those that run, and their processors
-- and memory while they run; the capacity of the disks of each medium and of those of neither;
-- addresses; the capacity of the snapshots, and of the backups among them.
pub measure_cluster_totals :
    (s : Sources)
    → SumsUp (λ m. m.vms_total) s (λ x. 1) no_row no_row no_row
      × SumsUp (λ m. m.vms_running) s (λ x. while_up x 1) no_row no_row no_row
      × SumsUp (λ m. m.vcpus) s (λ x. while_up x x.vcpus) no_row no_row no_row
      × SumsUp (λ m. m.ram_mb) s (λ x. while_up x x.ram_mb) no_row no_row no_row
      × SumsUp (λ m. m.ssd_gib) s no_row (of_medium (txt "SSD")) no_row no_row
      × SumsUp (λ m. m.hdd_gib) s no_row (of_medium (txt "HDD")) no_row no_row
      × SumsUp (λ m. m.unlabelled_gib) s no_row of_no_medium no_row no_row
      × SumsUp (λ m. m.elastic_ips) s no_row no_row (λ x. 1) no_row
      × SumsUp (λ m. m.snapshot_gib) s no_row no_row no_row (λ x. x.size_gib)
      × SumsUp (λ m. m.backup_snapshot_gib) s no_row no_row no_row of_protection
unfolding add_vm add_volume add_address add_snapshot is_backup
measure_cluster_totals s = (
  total-measure_cluster _ s _ _ _ _ (ground arith),
  total-measure_cluster _ s _ _ _ _ (ground arith),
  total-measure_cluster _ s _ _ _ _ (ground arith),
  total-measure_cluster _ s _ _ _ _ (ground arith),
  total-measure_cluster _ s _ _ _ _ (ground arith),
  total-measure_cluster _ s _ _ _ _
      (ground arith, ground arith, add_volume-hdd_gib, ground arith, ground arith),
  total-measure_cluster _ s _ _ _ _ (ground arith),
  total-measure_cluster _ s _ _ _ _ (ground arith),
  total-measure_cluster _ s _ _ _ _ (ground arith),
  total-measure_cluster _ s _ _ _ _ (ground arith),
)
