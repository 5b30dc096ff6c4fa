-- ===== src/Billing/Rates/Estimate.antt =====
-- The estimate of a month is the bill of a month that was measured on one day.
use opencloud_backend.Base.{
  ℕ, ◌≡◌, refl, sym, ◌∙◌, ap, Bool, true, false, not, Bool-cases, inl, inr, none, some, List, [],
  ◌∷◌, map, arith, Text, if◌then◌else◌, member_text,
}
use opencloud_backend.Base.Int.{ℤ, pos, ◌+ℤ◌, ◌*ℤ◌, is_nonzero, round_half_up, int_laws}
use opencloud_backend.Accounts.Backups.{AccountSettings, uncounted, counts_backups}
use opencloud_backend.Billing.Model.{Resource, UsageSnapshot}
use opencloud_backend.Billing.Rates.{
  ResourceDict, sorted_resources, sorted_items, quantities, measure_period, add_day, average, Line,
  cost_of, cost_line, EstimateLine, estimate_line, estimate_lines, add_estimates, add_costs,
  estimate_month,
}
use opencloud_backend.Billing.Rates.Bill.{
  total_held, sorted_items-cong, cost_of-lines, cost_of-total,
}

-- A line of a bill without the raw measurement, which an estimate does not show.
abbrev pub shown : Line → EstimateLine
shown l = record {
  resource = l.resource;
  line_label = l.line_label;
  quantity = l.quantity;
  unit_price = l.unit_price;
  cost = l.cost;
  priced = l.priced;
}

average-one : (x : ℤ) → average x 1 ≡ round_half_up (x *ℤ 100) 1024
unfolding average
average-one x = refl

shown-cost_line :
    (rates : ResourceDict ℕ) (r : Resource) (x : ℤ)
    → shown (cost_line rates 1 (r, x)) ≡ estimate_line rates r x
unfolding cost_line estimate_line
shown-cost_line rates r x = rw average-one

-- The entries of one snapshot with a resource dict of its nonzero quantities.
abbrev nonzero : (Resource → ℤ) → ResourceDict ℤ
nonzero q r = if is_nonzero (q r) then some (q r) else none

estimate_lines-nonzero :
    (rates : ResourceDict ℕ) (q : Resource → ℤ) (rs : List Resource)
    → map shown (map (cost_line rates 1) (sorted_items (nonzero q) rs)) ≡ estimate_lines rates q rs
unfolding estimate_lines
estimate_lines-nonzero rates q [] = refl
estimate_lines-nonzero rates q (r ∷ rs) =
    ground (arith, shown-cost_line rates r (q r), estimate_lines-nonzero rates q rs)

add_estimates-shown :
    (t : ℤ) (lines : List Line) → add_estimates t (map shown lines) ≡ add_costs t lines
unfolding add_estimates add_costs
add_estimates-shown t [] = refl
add_estimates-shown t (l ∷ lines) = add_estimates-shown (t +ℤ l.cost) lines

total_held-one :
    (without : List Text) (s : UsageSnapshot) (r : Resource)
    → member_text s.domain_id without ≡ false
    → total_held without (s ∷ []) none r ≡ nonzero (quantities s true) r
total_held-one without s r h = rw h (elim (Bool-cases (is_nonzero (quantities s true r))) [
  | inl e ↦ rw e (ap some (omega int_laws))
  | inr e ↦ rw e
])

days-one :
    (settings : List AccountSettings) (s : UsageSnapshot) (rates : ResourceDict ℕ)
    → (cost_of settings (s ∷ []) rates).days ≡ 1
unfolding cost_of measure_period add_day
days-one settings s rates = refl

lines-one :
    (settings : List AccountSettings) (s : UsageSnapshot) (rates : ResourceDict ℕ)
    → member_text s.domain_id (uncounted settings (s.domain_id ∷ [])) ≡ false
    → (cost_of settings (s ∷ []) rates).lines
      ≡ map (cost_line rates 1) (sorted_items (nonzero (quantities s true)) sorted_resources)
lines-one settings s rates h =
    let without = uncounted settings (s.domain_id ∷ []) in
    cost_of-lines settings (s ∷ []) rates
    ∙ rw (days-one settings s rates) (
        ap (map (cost_line rates 1))
          (sorted_items-cong _ _ sorted_resources (λ r. total_held-one without s r h)))

counted : (b : Bool) → not b ≡ true → b ≡ false
counted b h = ground arith

-- For an account whose backups are counted, the bill of a month with one measured day shows the
-- lines that the estimate from that day shows, and has its total.
pub estimate_month-eq-cost_of :
    (settings : List AccountSettings) (s : UsageSnapshot) (rates : ResourceDict ℕ)
    → counts_backups settings s.domain_id ≡ true
    → let cost = cost_of settings (s ∷ []) rates in
      let estimate = estimate_month s rates in
      (map shown cost.lines ≡ estimate.lines) × (cost.total ≡ estimate.total)
unfolding estimate_month counts_backups
estimate_month-eq-cost_of settings s rates h =
    let lines = cost_of settings (s ∷ []) rates in
    let same : map shown lines.lines ≡ estimate_lines rates (quantities s true) sorted_resources =
      ap (map shown) (lines-one settings s rates (counted _ h))
      ∙ estimate_lines-nonzero rates (quantities s true) sorted_resources in
    (
      same,
      cost_of-total settings (s ∷ []) rates
          ∙ sym (add_estimates-shown (pos 0) lines.lines)
          ∙ ap (add_estimates (pos 0)) same,
    )
