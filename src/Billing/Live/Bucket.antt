-- ===== src/Billing/Live/Bucket.antt =====
-- apps/billing/views.py (_live_measurements) and collector.py (measure_cluster): a project's shape in
-- the estimate beside the one that is recorded.
use opencloud_backend.Base.{
  ◌≡◌, refl, ap, ◌∙◌, Bool, true, Option, none, some, List, [], ◌∷◌, Text, text_eq, text_eq_iff,
  nonempty, or_default, filter_by, if◌then◌else◌, Bool-cases, inl, inr,
}
use opencloud_backend.Base.Dict.{Dict, lookup, lookup-adjust}
use opencloud_backend.Billing.Collector.{
  Vm, Volume, ElasticIp, VolumeSnapshot, Sources, Measurement, blank, bucket, add_vm, add_volume,
  add_address, add_snapshot, measure_rows, measure_cluster,
}
use opencloud_backend.Billing.Live.{is_mine, mine, add_rows, live_measurements}
use opencloud_backend.Billing.Live.Shape.{IsShape, collected, live_values-IsShape}

-- The bucket of a project, blank where there is none.
abbrev pub bucket_of : Text → Dict Measurement → Measurement
bucket_of project_id buckets = or_default (lookup project_id buckets) blank

bucket_of-bucket :
    (project_id : Text) (q : Option Text) (change : Measurement → Measurement)
    (d : Dict Measurement)
    → nonempty project_id ≡ true
    → bucket_of project_id (bucket q change d)
      ≡ (if is_mine project_id q then change (bucket_of project_id d) else bucket_of project_id d)
unfolding bucket
bucket_of-bucket project_id none change d h = refl
bucket_of-bucket project_id (some p) change d h = elim (Bool-cases (text_eq p project_id)) [
  | inl e ↦
      rw
        (
          e,
          (text_eq_iff p project_id).0 e,
          h,
          lookup-adjust project_id project_id blank change d,
          ← (text_eq_iff p project_id).0 e,
          (text_eq_iff p p).1 refl,
        )
        refl
  | inr e ↦ elim (Bool-cases (nonempty p)) [
    | inl f ↦ rw (e, f, lookup-adjust p project_id blank change d, e) refl
    | inr f ↦ rw (e, f) refl
  ]
]

bucket_of-measure_rows :
    {A : Type 0} (project_id : Text) (project : A → Option Text)
    (add : A → Measurement → Measurement) (xs : List A) (d : Dict Measurement)
    → nonempty project_id ≡ true
    → bucket_of project_id (measure_rows project add xs d)
      ≡ add_rows add
          (filter_by (λ (x : A). is_mine project_id (project x)) xs)
          (bucket_of project_id d)
unfolding measure_rows add_rows
bucket_of-measure_rows project_id project add [] d h = refl
bucket_of-measure_rows project_id project add (x ∷ xs) d h =
    bucket_of-measure_rows project_id project add xs (bucket (project x) (add x) d) h
    ∙ elim (Bool-cases (is_mine project_id (project x))) [
      | inl e ↦ rw (bucket_of-bucket project_id (project x) (add x) d h, e) refl
      | inr e ↦ rw (bucket_of-bucket project_id (project x) (add x) d h, e) refl
    ]

bucket_of_loop :
    {A : Type 0} (project_id : Text) (project : A → Option Text)
    (add : A → Measurement → Measurement) (source : Option (List A)) (d : Dict Measurement)
    (m : Measurement)
    → nonempty project_id ≡ true
    → bucket_of project_id d ≡ m
    → bucket_of project_id (measure_rows project add (or_default source []) d)
      ≡ add_rows add (mine project_id project source) m
bucket_of_loop project_id project add source d m h e =
    bucket_of-measure_rows project_id project add (or_default source []) d h
    ∙ ap (add_rows add (mine project_id project source)) e

bucket_of_nil : (project_id : Text) → bucket_of project_id [] ≡ blank
unfolding lookup
bucket_of_nil project_id = refl

bucket_of-measure_cluster :
    (sources : Sources) (project_id : Text)
    → nonempty project_id ≡ true
    → bucket_of project_id (measure_cluster sources) ≡ collected sources project_id
unfolding measure_cluster
bucket_of-measure_cluster sources project_id h =
    bucket_of_loop project_id (λ (s : VolumeSnapshot). s.project_id) add_snapshot sources.snapshots
      _ _ h
      (bucket_of_loop project_id (λ (e : ElasticIp). e.project_id) add_address sources.addresses _ _
        h
        (bucket_of_loop project_id (λ (v : Volume). v.project_id) add_volume sources.volumes _ _ h
          (bucket_of_loop project_id (λ (v : Vm). v.project_id) add_vm sources.machines [] blank h
            (bucket_of_nil project_id))))

-- For a project with an id, the shape that the estimate shows has every figure that the collector
-- records for the project from the same lists, where a source that failed counts as empty; the
-- snapshots are all of those recorded, or, without backups, the recorded ones less the backups.
pub live_measurements-IsShape :
    (with_backups : Bool) (sources : Sources) (project_id : Text)
    → nonempty project_id ≡ true
    → IsShape with_backups
        (bucket_of project_id (measure_cluster sources))
        (live_measurements with_backups sources project_id).0
unfolding live_measurements
live_measurements-IsShape with_backups sources project_id h =
    rw (bucket_of-measure_cluster sources project_id h)
      (live_values-IsShape with_backups sources project_id)
