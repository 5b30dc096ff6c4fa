-- ===== src/Billing/Live/Tests.antt =====
-- The shape of a project at a concrete input.
use opencloud_backend.Base.{refl, false, some, none, [], ◌∷◌, txt}
use opencloud_backend.Billing.Collector.{Sources, measure_cluster}
use opencloud_backend.Billing.Live.{live_measurements}
use opencloud_backend.Billing.Live.Shape.{IsShape}
use opencloud_backend.Billing.Live.Bucket.{bucket_of, live_measurements-IsShape}

abbrev seen : Sources
seen = record {
  machines = some (
      record { project_id = some (txt "p1"); status = txt "Running"; vcpus = 4; ram_mb = 2048 }
      ∷ record { project_id = some (txt "p2"); status = txt "active"; vcpus = 8; ram_mb = 4096 }
      ∷ []);
  volumes = none;
  addresses = some (record { project_id = some (txt "p1") } ∷ []);
  snapshots = some (
      record {
        project_id = some (txt "p1");
        size_gib = 40;
        mark = record { protection_group_id = txt "g1"; protection_group = [] };
      }
      ∷ []);
}

live_measurements-IsShape_example :
    IsShape false
      (bucket_of (txt "p1") (measure_cluster seen))
      (live_measurements false seen (txt "p1")).0
live_measurements-IsShape_example = live_measurements-IsShape false seen (txt "p1") refl
