-- ===== src/Billing/Collector/Tests.antt =====
-- The theorems on the collector at concrete inputs.
use opencloud_backend.Base.{
  ◌≡◌, none, some, List, [], ◌∷◌, All, first_by, txt, ◌==◌, if◌then◌else◌, arith,
}
use opencloud_backend.Billing.Model.{UsageSnapshot}
use opencloud_backend.Billing.Collector.{
  Sources, Domain, capture, is_row, project_directory, measure_cluster,
}
use opencloud_backend.Billing.Collector.Totals.{
  SumsUp, no_row, while_up, of_medium, of_no_medium, of_protection, measure_cluster_totals,
}
use opencloud_backend.Billing.Collector.Capture.{
  IsSaneRow, measured_row, first_of_two, capture_writes_day, capture-IsSaneRow, AllSane,
  measure_cluster-AllSane,
}

-- The list of disks failed; one machine has no project.
abbrev sources : Sources
sources = record {
  machines = some (
      record { project_id = some (txt "p1"); status = txt "ACTIVE"; vcpus = 4; ram_mb = 8192 }
      ∷ record { project_id = none; status = txt "active"; vcpus = 2; ram_mb = 1024 }
      ∷ record { project_id = some (txt "p2"); status = txt "shut_off"; vcpus = 2; ram_mb = 1024 }
      ∷ []);
  volumes = none;
  addresses = some (record { project_id = some (txt "p1") } ∷ []);
  snapshots = some (
      record {
        project_id = some (txt "p1");
        size_gib = 40;
        mark = record { protection_group_id = txt "g1"; protection_group = [] };
      }
      ∷ []);
}

abbrev domains : List Domain
domains =
    record { id = txt "d1"; name = txt "acme"; projects = some ((txt "p1", txt "web") ∷ []) } ∷ []

abbrev earlier : UsageSnapshot
earlier = record {
  taken_on = 10;
  account = txt "acme";
  domain_id = txt "d1";
  project_id = txt "p1";
  project_name = txt "web";
  vms_total = 1;
  vms_running = 1;
  vcpus = 4;
  ram_mb = 0;
  ssd_gib = 7;
  hdd_gib = 0;
  unlabelled_gib = 0;
  elastic_ips = 0;
  snapshot_gib = 5;
  backup_snapshot_gib = 5;
}

measure_cluster_totals_example :
    SumsUp (λ m. m.vms_total) sources (λ x. 1) no_row no_row no_row
    × SumsUp (λ m. m.vms_running) sources (λ x. while_up x 1) no_row no_row no_row
    × SumsUp (λ m. m.vcpus) sources (λ x. while_up x x.vcpus) no_row no_row no_row
    × SumsUp (λ m. m.ram_mb) sources (λ x. while_up x x.ram_mb) no_row no_row no_row
    × SumsUp (λ m. m.ssd_gib) sources no_row (of_medium (txt "SSD")) no_row no_row
    × SumsUp (λ m. m.hdd_gib) sources no_row (of_medium (txt "HDD")) no_row no_row
    × SumsUp (λ m. m.unlabelled_gib) sources no_row of_no_medium no_row no_row
    × SumsUp (λ m. m.elastic_ips) sources no_row no_row (λ x. 1) no_row
    × SumsUp (λ m. m.snapshot_gib) sources no_row no_row no_row (λ x. x.size_gib)
    × SumsUp (λ m. m.backup_snapshot_gib) sources no_row no_row no_row of_protection
measure_cluster_totals_example = measure_cluster_totals sources

measure_cluster-AllSane_example : AllSane (measure_cluster sources)
measure_cluster-AllSane_example = measure_cluster-AllSane sources

capture_writes_day_example :
    first_by (is_row (txt "p1") 10) (capture 11 sources domains (earlier ∷ [])).table ≡ (
      if 11 == 10
      then first_of_two
          (measured_row 11 (project_directory domains []) (measure_cluster sources) (txt "p1"))
          (first_by (is_row (txt "p1") 10) (earlier ∷ []))
      else first_by (is_row (txt "p1") 10) (earlier ∷ []))
capture_writes_day_example = capture_writes_day 11 sources domains (earlier ∷ []) (txt "p1") 10

capture-IsSaneRow_example : All IsSaneRow (capture 10 sources domains (earlier ∷ [])).table
capture-IsSaneRow_example = capture-IsSaneRow 10 sources domains (earlier ∷ []) (omega arith, tt)
