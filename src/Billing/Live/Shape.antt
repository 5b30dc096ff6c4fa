-- ===== src/Billing/Live/Shape.antt =====
-- apps/billing/views.py (_live_measurements): the loops beside those of the collector.
use opencloud_backend.Base.{
  ℕ, ◌+◌, ◌≡◌, refl, sym, ap, ◌∙◌, Bool, true, false, List, [], ◌∷◌, Text, text_eq, if◌then◌else◌,
  Bool-cases, inl, inr, arith, txt,
}
use opencloud_backend.Accounts.Backups.{is_backup}
use opencloud_backend.Billing.Collector.{
  Vm, Volume, ElasticIp, VolumeSnapshot, Sources, Measurement, blank, is_running, add_vm,
  add_volume, add_address, add_snapshot,
}
use opencloud_backend.Billing.Live.{
  LiveMeasurement, no_values, mine, live_vm, live_volume, live_address, live_snapshot, add_rows,
  live_values,
}

-- A bucket without its backups, with another figure for the snapshots.
unfoldable pub shape_of : Measurement → ℕ → LiveMeasurement
shape_of m snapshots = record {
  vms_total = m.vms_total;
  vms_running = m.vms_running;
  vcpus = m.vcpus;
  ram_mb = m.ram_mb;
  ssd_gib = m.ssd_gib;
  hdd_gib = m.hdd_gib;
  unlabelled_gib = m.unlabelled_gib;
  elastic_ips = m.elastic_ips;
  snapshot_gib = snapshots;
}

live_vm-shape_of :
    (n : ℕ) (x : Vm) (m : Measurement) → live_vm x (shape_of m n) ≡ shape_of (add_vm x m) n
unfolding live_vm shape_of add_vm
live_vm-shape_of n x m = elim (Bool-cases (is_running x)) [ inl e ↦ rw e refl | inr e ↦ rw e refl ]

live_volume-shape_of :
    (n : ℕ) (x : Volume) (m : Measurement)
    → live_volume x (shape_of m n) ≡ shape_of (add_volume x m) n
unfolding live_volume shape_of add_volume
live_volume-shape_of n x m = elim (Bool-cases (text_eq x.media (txt "SSD"))) [
  | inl e ↦ rw e refl
  | inr e ↦ elim (Bool-cases (text_eq x.media (txt "HDD"))) [
    | inl f ↦ rw (e, f) refl
    | inr f ↦ rw (e, f) refl
  ]
]

live_address-shape_of :
    (n : ℕ) (x : ElasticIp) (m : Measurement)
    → live_address x (shape_of m n) ≡ shape_of (add_address x m) n
unfolding live_address shape_of add_address
live_address-shape_of n x m = refl

add_rows-shape_of :
    {A : Type 0} (live : A → LiveMeasurement → LiveMeasurement)
    (add : A → Measurement → Measurement) (n : ℕ) (xs : List A) (m : Measurement)
    → ((x : A) (m : Measurement) → live x (shape_of m n) ≡ shape_of (add x m) n)
    → add_rows live xs (shape_of m n) ≡ shape_of (add_rows add xs m) n
unfolding add_rows
add_rows-shape_of live add n [] m step = refl
add_rows-shape_of live add n (x ∷ xs) m step =
    ap (add_rows live xs) (step x m) ∙ add_rows-shape_of live add n xs (add x m) step

-- The snapshots that are left out without backups.
abbrev pub left_out : Bool → Measurement → ℕ
left_out with_backups m = if with_backups then 0 else m.backup_snapshot_gib

abbrev pub IsShape : Bool → Measurement → LiveMeasurement → Type 0
IsShape with_backups m live =
    (n : ℕ) × (live ≡ shape_of m n) × (n + left_out with_backups m ≡ m.snapshot_gib)

live_snapshot-IsShape :
    (with_backups : Bool) (x : VolumeSnapshot) (m : Measurement) (n : ℕ)
    → n + left_out with_backups m ≡ m.snapshot_gib
    → IsShape with_backups (add_snapshot x m) (live_snapshot with_backups x (shape_of m n))
unfolding live_snapshot shape_of add_snapshot
live_snapshot-IsShape true x m n h = elim (Bool-cases (is_backup x.mark)) [
  | inl e ↦ rw e (n + x.size_gib, refl, omega (arith, h))
  | inr e ↦ rw e (n + x.size_gib, refl, omega (arith, h))
]
live_snapshot-IsShape false x m n h = elim (Bool-cases (is_backup x.mark)) [
  | inl e ↦ rw e (n, refl, omega (arith, h))
  | inr e ↦ rw e (n + x.size_gib, refl, omega (arith, h))
]

add_rows-IsShape :
    (with_backups : Bool) (xs : List VolumeSnapshot) (m : Measurement) (n : ℕ)
    → n + left_out with_backups m ≡ m.snapshot_gib
    → IsShape with_backups
        (add_rows add_snapshot xs m)
        (add_rows (live_snapshot with_backups) xs (shape_of m n))
unfolding add_rows
add_rows-IsShape with_backups [] m n h = (n, refl, h)
add_rows-IsShape with_backups (x ∷ xs) m n h =
    let (k, e, g) = live_snapshot-IsShape with_backups x m n h in
    rw e (add_rows-IsShape with_backups xs (add_snapshot x m) k g)

no_values-shape_of : no_values ≡ shape_of blank 0
unfolding shape_of
no_values-shape_of = refl

-- The bucket of a project, after the four loops of the collector.
abbrev pub collected : Sources → Text → Measurement
collected sources project_id =
    let machines =
      add_rows add_vm (mine project_id (λ (v : Vm). v.project_id) sources.machines) blank in
    let volumes =
      add_rows add_volume (mine project_id (λ (v : Volume). v.project_id) sources.volumes)
        machines in
    let addresses =
      add_rows add_address (mine project_id (λ (e : ElasticIp). e.project_id) sources.addresses)
        volumes in
    add_rows add_snapshot (mine project_id (λ (s : VolumeSnapshot). s.project_id) sources.snapshots)
      addresses

-- What each row keeps, the rows keep.
add_rows_keep :
    {A : Type 0} (P : Measurement → Type 0) (add : A → Measurement → Measurement) (xs : List A)
    (m : Measurement)
    → P m
    → ((x : A) (m : Measurement) → P m → P (add x m))
    → P (add_rows add xs m)
unfolding add_rows
add_rows_keep P add [] m h step = h
add_rows_keep P add (x ∷ xs) m h step = add_rows_keep P add xs (add x m) (step x m h) step

-- No snapshot is counted yet.
abbrev HasNoSnapshots : Measurement → Type 0
HasNoSnapshots m = (m.snapshot_gib ≡ 0) × (m.backup_snapshot_gib ≡ 0)

add_vm-HasNoSnapshots : (x : Vm) (m : Measurement) → HasNoSnapshots m → HasNoSnapshots (add_vm x m)
unfolding add_vm
add_vm-HasNoSnapshots x m h = elim (Bool-cases (is_running x)) [ inl e ↦ rw e h | inr e ↦ rw e h ]

add_volume-HasNoSnapshots :
    (x : Volume) (m : Measurement) → HasNoSnapshots m → HasNoSnapshots (add_volume x m)
unfolding add_volume
add_volume-HasNoSnapshots x m h = elim (Bool-cases (text_eq x.media (txt "SSD"))) [
  | inl e ↦ rw e h
  | inr e ↦ elim (Bool-cases (text_eq x.media (txt "HDD"))) [
    | inl f ↦ rw (e, f) h
    | inr f ↦ rw (e, f) h
  ]
]

add_address-HasNoSnapshots :
    (x : ElasticIp) (m : Measurement) → HasNoSnapshots m → HasNoSnapshots (add_address x m)
unfolding add_address
add_address-HasNoSnapshots x m h = h

nothing_left_out :
    (with_backups : Bool) (m : Measurement)
    → HasNoSnapshots m
    → 0 + left_out with_backups m ≡ m.snapshot_gib
nothing_left_out true m h = sym h.0
nothing_left_out false m h = omega (arith, h.0, h.1)

pub live_values-IsShape :
    (with_backups : Bool) (sources : Sources) (project_id : Text)
    → IsShape with_backups
        (collected sources project_id)
        (live_values with_backups sources project_id)
unfolding live_values
live_values-IsShape with_backups sources project_id =
    let vms = mine project_id (λ (v : Vm). v.project_id) sources.machines in
    let volumes = mine project_id (λ (v : Volume). v.project_id) sources.volumes in
    let addresses = mine project_id (λ (e : ElasticIp). e.project_id) sources.addresses in
    let snapshots = mine project_id (λ (s : VolumeSnapshot). s.project_id) sources.snapshots in
    let first = add_rows add_vm vms blank in
    let second = add_rows add_volume volumes first in
    let third = add_rows add_address addresses second in
    rw
      (
        no_values-shape_of,
        add_rows-shape_of live_vm add_vm 0 vms blank (live_vm-shape_of 0),
        add_rows-shape_of live_volume add_volume 0 volumes first (live_volume-shape_of 0),
        add_rows-shape_of live_address add_address 0 addresses second (live_address-shape_of 0),
      )
      (add_rows-IsShape with_backups snapshots third 0 (
        nothing_left_out with_backups third (
          add_rows_keep HasNoSnapshots add_address addresses second
            (add_rows_keep HasNoSnapshots add_volume volumes first
              (add_rows_keep HasNoSnapshots add_vm vms blank (refl, refl) add_vm-HasNoSnapshots)
              add_volume-HasNoSnapshots)
            add_address-HasNoSnapshots)))
