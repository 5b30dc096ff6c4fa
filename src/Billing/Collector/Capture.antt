-- ===== src/Billing/Collector/Capture.antt =====
-- A day's capture overwrites that day's rows and leaves the other days alone.
use opencloud_backend.Base.{
  ℕ, ◌≤◌, ◌≡◌, refl, sym, ◌∙◌, false, ◌&&◌, Option, none, some, List, [], ◌∷◌, All, first_by, arith,
  Text, text_eq, text_eq_iff, nonempty, Bool-cases, inl, inr, ◌==◌, ==_refl, ==_iff, if◌then◌else◌,
}
use opencloud_backend.Base.Dict.{Dict, lookup, adjust-All, HasKeysOnce, adjust-HasKeysOnce}
use opencloud_backend.Billing.Model.{UsageSnapshot}
use opencloud_backend.Billing.Collector.{
  Sources, Measurement, blank, bucket, add_vm, add_volume, add_address, add_snapshot, measure_rows,
  measure_cluster, Domain, Owner, project_directory, snapshot_of, is_row, update_or_create,
  Captured, capture_rows, capture,
}

-- What the buckets always satisfy.
abbrev pub IsSane : Measurement → Type 0
IsSane m = (m.vms_running ≤ m.vms_total) × (m.backup_snapshot_gib ≤ m.snapshot_gib)

abbrev pub AllSane : Dict Measurement → Type 0
AllSane d = HasKeysOnce d × All (λ (e : Text × Measurement). IsSane e.1) d

bucket-AllSane :
    (project : Option Text) (change : Measurement → Measurement) (d : Dict Measurement)
    → ((m : Measurement) → IsSane m → IsSane (change m))
    → AllSane d
    → AllSane (bucket project change d)
unfolding bucket
bucket-AllSane none change d keep h = h
bucket-AllSane (some p) change d keep h = elim (Bool-cases (nonempty p)) [
  | inl e ↦ rw e (
    adjust-HasKeysOnce p blank change d h.0,
    adjust-All IsSane p blank change d (omega arith) keep h.1,
  )
  | inr e ↦ rw e h
]

measure_rows-AllSane :
    {A : Type 0} (project : A → Option Text) (add : A → Measurement → Measurement) (xs : List A)
    (d : Dict Measurement)
    → ((x : A) (m : Measurement) → IsSane m → IsSane (add x m))
    → AllSane d
    → AllSane (measure_rows project add xs d)
unfolding measure_rows
measure_rows-AllSane project add [] d keep h = h
measure_rows-AllSane project add (x ∷ xs) d keep h =
    measure_rows-AllSane project add xs (bucket (project x) (add x) d) keep
      (bucket-AllSane (project x) (add x) d (keep x) h)

-- In every bucket the running machines are among the machines and the backups among the snapshots,
-- and no project has two buckets.
pub measure_cluster-AllSane : (s : Sources) → AllSane (measure_cluster s)
unfolding measure_cluster add_vm add_volume add_address add_snapshot
measure_cluster-AllSane s =
    measure_rows-AllSane _ _ _ _ (λ x m h. ground arith)
      (measure_rows-AllSane _ _ _ _ (λ x m h. ground arith)
        (measure_rows-AllSane _ _ _ _ (λ x m h. ground arith)
          (measure_rows-AllSane _ _ _ [] (λ x m h. ground arith) (tt, tt))))

-- The row of a project and a day, after a row was written.
pub first_by-update_or_create :
    (row : UsageSnapshot) (p : Text) (d : ℕ) (table : List UsageSnapshot)
    → first_by (is_row p d) (update_or_create row table)
      ≡ (if is_row p d row then some row else first_by (is_row p d) table)
unfolding update_or_create
first_by-update_or_create row p d [] = refl
first_by-update_or_create row p d (s ∷ table) = ground (
  arith,
  text_eq_iff s.project_id row.project_id,
  text_eq_iff s.project_id p,
  text_eq_iff row.project_id p,
  first_by-update_or_create row p d table,
)

-- Each project has at most one row for a day.
abbrev pub RowsOnce : List UsageSnapshot → Type 0
RowsOnce [] = Unit
RowsOnce (s ∷ table) = (first_by (is_row s.project_id s.taken_on) table ≡ none) × RowsOnce table

update_or_create-RowsOnce :
    (row : UsageSnapshot) (table : List UsageSnapshot)
    → RowsOnce table
    → RowsOnce (update_or_create row table)
unfolding update_or_create
update_or_create-RowsOnce row [] h = (refl, tt)
update_or_create-RowsOnce row (s ∷ table) h = ground (
  arith,
  update_or_create-RowsOnce row table h.1,
  text_eq_iff s.project_id row.project_id,
  text_eq_iff row.project_id s.project_id,
  first_by-update_or_create row s.project_id s.taken_on table,
)

-- The row that a day's measurements give a project.
abbrev pub measured_row : ℕ → Dict Owner → Dict Measurement → Text → Option UsageSnapshot
measured_row taken_on directory measurements p = elim (lookup p measurements) [
  | none ↦ none
  | some m ↦ some (snapshot_of taken_on p (lookup p directory) m)
]

is_row-snapshot_of :
    (p q : Text) (t d : ℕ) (known : Option Owner) (m : Measurement)
    → is_row p d (snapshot_of t q known m) ≡ (text_eq q p && t == d)
unfolding snapshot_of
is_row-snapshot_of p q t d known m = refl

-- The first of two options that is there.
abbrev pub first_of_two : Option UsageSnapshot → Option UsageSnapshot → Option UsageSnapshot
first_of_two none o = o
first_of_two (some s) o = some s

capture_rows-row :
    (t : ℕ) (directory : Dict Owner) (ms : Dict Measurement) (c : Captured) (p : Text)
    → HasKeysOnce ms
    → first_by (is_row p t) (capture_rows t directory ms c).table
      ≡ first_of_two (measured_row t directory ms p) (first_by (is_row p t) c.table)
unfolding capture_rows lookup
capture_rows-row t directory [] c p once = refl
capture_rows-row t directory ((q, m) ∷ ms) c p once =
    let row = snapshot_of t q (lookup q directory) m in
    capture_rows-row t directory ms _ p once.1
    ∙ rw
        (
          first_by-update_or_create row p t c.table,
          is_row-snapshot_of p q t t (lookup q directory) m,
          ==_refl t,
        )
        (elim (Bool-cases (text_eq q p)) [
          | inl e ↦
              let same : q ≡ p = (text_eq_iff q p).0 e in
              let gone : lookup p ms ≡ none = rw (← same) once.0 in ground (arith, e, gone, same)
          | inr e ↦ ground (arith, e)
        ])

capture_rows-other :
    (t : ℕ) (directory : Dict Owner) (ms : Dict Measurement) (c : Captured) (p : Text) (d : ℕ)
    → (t == d) ≡ false
    → first_by (is_row p d) (capture_rows t directory ms c).table ≡ first_by (is_row p d) c.table
unfolding capture_rows
capture_rows-other t directory [] c p d h = refl
capture_rows-other t directory ((q, m) ∷ ms) c p d h =
    let row = snapshot_of t q (lookup q directory) m in
    capture_rows-other t directory ms _ p d h
    ∙ rw
        (
          first_by-update_or_create row p d c.table,
          is_row-snapshot_of p q t d (lookup q directory) m,
          h,
        )
        (elim (Bool-cases (text_eq q p)) [ inl e ↦ rw e | inr e ↦ rw e ])

capture_rows-RowsOnce :
    (t : ℕ) (directory : Dict Owner) (ms : Dict Measurement) (c : Captured)
    → RowsOnce c.table
    → RowsOnce (capture_rows t directory ms c).table
unfolding capture_rows
capture_rows-RowsOnce t directory [] c h = h
capture_rows-RowsOnce t directory ((q, m) ∷ ms) c h =
    capture_rows-RowsOnce t directory ms _ (update_or_create-RowsOnce _ c.table h)

-- After a capture, the row of a project for the captured day is the one measured, or the one that was
-- there where the project was not measured; the rows of every other day are as they were.
pub capture_writes_day :
    (t : ℕ) (sources : Sources) (domains : List Domain) (table : List UsageSnapshot) (p : Text)
    (d : ℕ)
    → first_by (is_row p d) (capture t sources domains table).table ≡ (
        if t == d
        then first_of_two
            (measured_row t (project_directory domains []) (measure_cluster sources) p)
            (first_by (is_row p d) table)
        else first_by (is_row p d) table)
unfolding capture
capture_writes_day t sources domains table p d =
    let directory = project_directory domains [] in
    let ms = measure_cluster sources in
    elim (Bool-cases (t == d)) [
      | inl e ↦
          rw (e, sym ((==_iff t d).0 e))
            (capture_rows-row t directory ms _ p (measure_cluster-AllSane sources).0)
      | inr e ↦ rw e (capture_rows-other t directory ms _ p d e)
    ]

-- No capture gives a project a second row for a day.
capture-RowsOnce :
    (t : ℕ) (sources : Sources) (domains : List Domain) (table : List UsageSnapshot)
    → RowsOnce table
    → RowsOnce (capture t sources domains table).table
unfolding capture
capture-RowsOnce t sources domains table h =
    capture_rows-RowsOnce t (project_directory domains []) (measure_cluster sources) _ h

-- What pricing relies on: the backups of a row are part of its snapshots.
abbrev pub IsSaneRow : UsageSnapshot → Type 0
IsSaneRow s = s.backup_snapshot_gib ≤ s.snapshot_gib

update_or_create-All :
    (row : UsageSnapshot) (table : List UsageSnapshot)
    → IsSaneRow row
    → All IsSaneRow table
    → All IsSaneRow (update_or_create row table)
unfolding update_or_create
update_or_create-All row [] r h = (r, tt)
update_or_create-All row (s ∷ table) r h =
    elim (Bool-cases (is_row row.project_id row.taken_on s)) [
      | inl e ↦ rw e (r, h.1)
      | inr e ↦ rw e (h.0, update_or_create-All row table r h.1)
    ]

capture_rows-IsSaneRow :
    (t : ℕ) (directory : Dict Owner) (ms : Dict Measurement) (c : Captured)
    → All (λ (e : Text × Measurement). IsSane e.1) ms
    → All IsSaneRow c.table
    → All IsSaneRow (capture_rows t directory ms c).table
unfolding capture_rows snapshot_of
capture_rows-IsSaneRow t directory [] c sane h = h
capture_rows-IsSaneRow t directory ((q, m) ∷ ms) c sane h =
    capture_rows-IsSaneRow t directory ms _ sane.1 (update_or_create-All _ c.table sane.0.1 h)

-- In every row that captures write, from a table where it holds, the backups are part of the
-- snapshots, so the difference that pricing takes is never negative.
pub capture-IsSaneRow :
    (t : ℕ) (sources : Sources) (domains : List Domain) (table : List UsageSnapshot)
    → All IsSaneRow table
    → All IsSaneRow (capture t sources domains table).table
unfolding capture
capture-IsSaneRow t sources domains table h =
    capture_rows-IsSaneRow t (project_directory domains []) (measure_cluster sources) _
      (measure_cluster-AllSane sources).1 h
