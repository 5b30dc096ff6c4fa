-- ===== src/Billing/Tests.antt =====
-- The theorems of billing at concrete inputs.
use opencloud_backend.Base.{
  ℕ, ◌+◌, ◌*◌, ◌≡◌, refl, true, false, none, some, List, [], ◌∷◌, map, txt, member_text,
}
use opencloud_backend.Base.Int.{pos}
use opencloud_backend.Accounts.Backups.{AccountSettings, uncounted, counts_backups}
use opencloud_backend.Billing.Model.{vcpu, snapshot_gb, Tariff, UsageSnapshot}
use opencloud_backend.Billing.Rates.{
  ResourceDict, cost_of, cost_line, sorted_items, sorted_resources, estimate_month, rate_map,
}
use opencloud_backend.Billing.Rates.Bill.{total_held, cost_of-lines}
use opencloud_backend.Billing.Rates.Estimate.{shown, estimate_month-eq-cost_of}
use opencloud_backend.Billing.Vat.{
  VatSettings, vat_rate, split_vat, IsNearest, split_vat_inclusive, split_vat_exclusive,
}

abbrev snapshot_on : ℕ → ℕ → UsageSnapshot
snapshot_on day cpus = record {
  taken_on = day;
  account = txt "acme";
  domain_id = txt "d1";
  project_id = txt "p1";
  project_name = txt "web";
  vms_total = 3;
  vms_running = 2;
  vcpus = cpus;
  ram_mb = 3000;
  ssd_gib = 100;
  hdd_gib = 0;
  unlabelled_gib = 0;
  elastic_ips = 1;
  snapshot_gib = 40;
  backup_snapshot_gib = 30;
}

abbrev without_backups : List AccountSettings
without_backups =
    record { domain_id = txt "d1"; account = txt "acme"; count_backup_snapshots = false } ∷ []

abbrev two_days : List UsageSnapshot
two_days = snapshot_on 10 4 ∷ snapshot_on 11 8 ∷ []

abbrev prices : Tariff
prices = record {
  name = txt "Basic";
  currency = txt "UZS";
  account = [];
  is_active = true;
  rates =
      record { resource = vcpu; price_per_month = 1200000 }
      ∷ record { resource = snapshot_gb; price_per_month = 5000 }
      ∷ [];
}

abbrev rates : ResourceDict ℕ
rates = rate_map (some prices)

cost_of-lines_example :
    let without = uncounted without_backups (map (λ (s : UsageSnapshot). s.domain_id) two_days) in
    let cost = cost_of without_backups two_days rates in
    cost.lines
    ≡ map
        (cost_line rates cost.days)
        (sorted_items (total_held without two_days none) sorted_resources)
cost_of-lines_example = cost_of-lines without_backups two_days rates

estimate_month-eq-cost_of_example :
    let cost = cost_of [] (snapshot_on 10 4 ∷ []) rates in
    let estimate = estimate_month (snapshot_on 10 4) rates in
    (map shown cost.lines ≡ estimate.lines) × (cost.total ≡ estimate.total)
unfolding counts_backups uncounted member_text
estimate_month-eq-cost_of_example = estimate_month-eq-cost_of [] (snapshot_on 10 4) rates refl

abbrev inclusive : VatSettings
inclusive = record { billing_vat_rate = some 1200; prices_include_vat = true }

abbrev exclusive : VatSettings
exclusive = record { billing_vat_rate = some 1200; prices_include_vat = false }

split_vat_inclusive_example :
    let (subtotal, vat, total) = split_vat inclusive (pos 12345) in
    (s : ℕ) × (total ≡ pos 12345)
    × (subtotal ≡ pos s)
    × IsNearest (12345 * 10000) (10000 + vat_rate inclusive) s
split_vat_inclusive_example = split_vat_inclusive inclusive 12345 refl

split_vat_exclusive_example :
    let (subtotal, vat, total) = split_vat exclusive (pos 12345) in
    (v : ℕ) × (subtotal ≡ pos 12345)
    × (vat ≡ pos v)
    × (total ≡ pos (12345 + v))
    × IsNearest (12345 * vat_rate exclusive) 10000 v
split_vat_exclusive_example = split_vat_exclusive exclusive 12345 refl
