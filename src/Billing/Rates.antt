-- ===== src/Billing/Rates.antt =====
-- apps/billing/rates.py: measurements into money.
-- A quantity is counted in 1/1024 of its unit, so that `ram_mb / 1024` is exact; the averages and
-- the money are Decimals of two places and are counted in hundredths. A Decimal quotient is exact
-- here; Python's keeps 28 digits, which rounds to the same hundredth for any amount below 10 ^ 15.
pub mod Bill
pub mod Estimate
use opencloud_backend.Base.{
  ℕ, zero, suc, ◌+◌, ◌*◌, Bool, true, false, ◌&&◌, ◌||◌, not, Option, none, some, List, [], ◌∷◌,
  map, length, Text, txt, iexact, text_eq, member_text, first_by, filter_by, or_default, is_some,
  ◌==◌, if◌then◌else◌,
}
use opencloud_backend.Base.Int.{ℤ, pos, ◌+ℤ◌, ◌-ℤ◌, ◌*ℤ◌, is_nonzero, round_half_up, sum_ℤ}
use opencloud_backend.Accounts.Backups.{AccountSettings, uncounted}
use opencloud_backend.Billing.Model.{
  Resource, vcpu, ram_gb, ssd_gb, hdd_gb, elastic_ip, snapshot_gb, same_resource, label, Tariff,
  TariffRate, UsageSnapshot,
}

-- The account's own active price list, else the active default one. `tariffs` is the table in its
-- `Meta.ordering`, which is what `.first()` reads.
unfoldable pub resolve_tariff : List Tariff → Text → Option Tariff
unfolding iexact text_eq
resolve_tariff tariffs account =
    let own : Option Tariff = first_by (λ t. t.is_active && iexact t.account account) tariffs in
    elim own [
      | some t ↦ some t
      | none ↦ first_by (λ t. t.is_active && text_eq t.account []) tariffs
    ]

-- A dict keyed by resources.
abbrev pub ResourceDict : Type 0 → Type 0
ResourceDict V = Resource → Option V

-- `d[r] = v`
abbrev pub put : {V : Type 0} → ResourceDict V → Resource → V → ResourceDict V
put d r v s = if same_resource r s then some v else d s

rate_rows : List TariffRate → ResourceDict ℕ → ResourceDict ℕ
rate_rows [] d = d
rate_rows (rate ∷ rates) d =
    rate_rows rates
      (if rate.price_per_month == 0 then d else put d rate.resource rate.price_per_month)

unfoldable pub rate_map : Option Tariff → ResourceDict ℕ
unfolding rate_rows
rate_map none = λ _. none
rate_map (some tariff) = rate_rows tariff.rates (λ _. none)

-- Python's integers: the difference may be negative.
unfoldable pub snapshot_gib : UsageSnapshot → Bool → ℤ
snapshot_gib s with_backups =
    if with_backups then pos s.snapshot_gib else pos s.snapshot_gib -ℤ pos s.backup_snapshot_gib

-- QUANTITY, in 1/1024 of the unit.
unfoldable pub measure : Resource → UsageSnapshot → ℤ
measure vcpu s = pos (s.vcpus * 1024)
measure ram_gb s = pos s.ram_mb
measure ssd_gb s = pos (s.ssd_gib * 1024)
measure hdd_gb s = pos (s.hdd_gib * 1024)
measure elastic_ip s = pos (s.elastic_ips * 1024)
measure snapshot_gb s = pos (s.snapshot_gib * 1024)

-- `quantities(snapshot, with_backups=…)[resource]`
unfoldable pub quantities : UsageSnapshot → Bool → Resource → ℤ
unfolding measure snapshot_gib
quantities s with_backups r =
    if not with_backups && same_resource r snapshot_gb
    then snapshot_gib s false *ℤ 1024
    else measure r s

-- The order of `sorted` on the stored keys.
abbrev pub sorted_resources : List Resource
sorted_resources = elastic_ip ∷ hdd_gb ∷ ram_gb ∷ snapshot_gb ∷ ssd_gb ∷ vcpu ∷ []

-- `sorted(d.items())`
abbrev pub sorted_items : {V : Type 0} → ResourceDict V → List Resource → List (Resource × V)
sorted_items d [] = []
sorted_items d (r ∷ rs) = elim (d r) [
  | none ↦ sorted_items d rs
  | some v ↦ (r, v) ∷ sorted_items d rs
]

-- `days.add(day)`
unfoldable pub add_day : ℕ → List ℕ → List ℕ
add_day day [] = day ∷ []
add_day day (d ∷ days) = if d == day then d ∷ days else d ∷ add_day day days

-- One turn of the inner loop: a quantity of zero leaves no entry.
unfoldable pub accumulate : ResourceDict ℤ → Resource → ℤ → ResourceDict ℤ
accumulate unit_days r quantity =
    if is_nonzero quantity
    then put unit_days r (or_default (unit_days r) (pos 0) +ℤ quantity)
    else unit_days

unfoldable pub accumulate_all : (Resource → ℤ) → List Resource → ResourceDict ℤ → ResourceDict ℤ
accumulate_all measured [] unit_days = unit_days
accumulate_all measured (r ∷ rs) unit_days =
    accumulate_all measured rs (accumulate unit_days r (measured r))

-- The keys of QUANTITY, in the order of the dict.
abbrev pub measured_resources : List Resource
measured_resources = vcpu ∷ ram_gb ∷ ssd_gb ∷ hdd_gb ∷ elastic_ip ∷ snapshot_gb ∷ []

-- The loop over the snapshots; `without_backups` is the set of accounts that leave backups out.
unfoldable pub measure_period :
    List Text → List UsageSnapshot → ResourceDict ℤ → List ℕ → ResourceDict ℤ × List ℕ
measure_period without_backups [] unit_days days = (unit_days, days)
measure_period without_backups (s ∷ snapshots) unit_days days =
    measure_period without_backups snapshots
      (accumulate_all (quantities s (not (member_text s.domain_id without_backups)))
        measured_resources unit_days)
      (add_day s.taken_on days)

pub record Line : Type 0 where
  pub resource : Resource
  pub line_label : Text
  pub quantity : ℤ
  pub unit_days : ℤ
  pub unit_price : ℕ
  pub cost : ℤ
  pub priced : Bool

pub record Cost : Type 0 where
  pub lines : List Line
  pub total : ℤ
  pub days : ℕ

-- `_money(average * monthly)`: hundredths times ten-thousandths, to hundredths.
unfoldable pub line_cost : ℤ → ℕ → ℤ
unfolding round_half_up
line_cost quantity monthly = round_half_up (quantity *ℤ monthly) 10000

-- `(accumulated / measured).quantize(_CENT, ROUND_HALF_UP) if measured else Decimal(0)`
unfoldable pub average : ℤ → ℕ → ℤ
unfolding round_half_up
average accumulated measured =
    if measured == 0 then pos 0 else round_half_up (accumulated *ℤ 100) (1024 * measured)

unfoldable pub cost_line : ResourceDict ℕ → ℕ → Resource × ℤ → Line
unfolding average line_cost
cost_line rates measured (resource, accumulated) =
    let held = average accumulated measured in
    let monthly = or_default (rates resource) 0 in
    record {
      resource = resource;
      line_label = label resource;
      quantity = held;
      unit_days = round_half_up (accumulated *ℤ 100) 1024;
      unit_price = monthly;
      cost = line_cost held monthly;
      priced = is_some (rates resource);
    }

-- `total += cost` from line to line.
unfoldable pub add_costs : ℤ → List Line → ℤ
add_costs total [] = total
add_costs total (line ∷ lines) = add_costs (total +ℤ line.cost) lines

unfoldable pub cost_of : List AccountSettings → List UsageSnapshot → ResourceDict ℕ → Cost
cost_of settings snapshots rates =
    let without_backups = uncounted settings (map (λ (s : UsageSnapshot). s.domain_id) snapshots) in
    let (unit_days, days) = measure_period without_backups snapshots (λ _. none) [] in
    let lines = map (cost_line rates (length days)) (sorted_items unit_days sorted_resources) in
    record { lines = lines; total = add_costs (pos 0) lines; days = length days }

pub record EstimateLine : Type 0 where
  pub resource : Resource
  pub line_label : Text
  pub quantity : ℤ
  pub unit_price : ℕ
  pub cost : ℤ
  pub priced : Bool

unfoldable pub estimate_line : ResourceDict ℕ → Resource → ℤ → EstimateLine
unfolding line_cost
estimate_line rates resource quantity =
    let held = round_half_up (quantity *ℤ 100) 1024 in
    let monthly = or_default (rates resource) 0 in
    record {
      resource = resource;
      line_label = label resource;
      quantity = held;
      unit_price = monthly;
      cost = line_cost held monthly;
      priced = is_some (rates resource);
    }

-- The loop over the sorted quantities; `if not quantity: continue`.
unfoldable pub estimate_lines : ResourceDict ℕ → (Resource → ℤ) → List Resource → List EstimateLine
estimate_lines rates measured [] = []
estimate_lines rates measured (r ∷ rs) =
    if is_nonzero (measured r)
    then estimate_line rates r (measured r) ∷ estimate_lines rates measured rs
    else estimate_lines rates measured rs

unfoldable pub add_estimates : ℤ → List EstimateLine → ℤ
add_estimates total [] = total
add_estimates total (line ∷ lines) = add_estimates (total +ℤ line.cost) lines

pub record EstimateCost : Type 0 where
  pub lines : List EstimateLine
  pub total : ℤ
  pub days : ℕ

unfoldable pub estimate_month : UsageSnapshot → ResourceDict ℕ → EstimateCost
estimate_month snapshot rates =
    let lines = estimate_lines rates (quantities snapshot true) sorted_resources in
    record { lines = lines; total = add_estimates (pos 0) lines; days = 0 }
