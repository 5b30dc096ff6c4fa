-- ===== src/Billing/Rates/Bill.antt =====
-- What a bill adds up to, and which measurements stand behind each of its lines.
use mathlib.Core.Path.{fun_ext}
use opencloud_backend.Base.{
  ℕ, ◌+◌, ◌≡◌, refl, ◌∙◌, ap, Bool, true, false, ◌&&◌, ◌||◌, not, Option-cases, Option, none, some,
  List, [], ◌∷◌, map, length, All, any_by, arith, Text, or_default, Bool-cases, or-false_left,
  or-false_right, inl, inr, if◌then◌else◌, member_text, ◌==◌,
}
use opencloud_backend.Base.Int.{
  ℤ, pos, ◌+ℤ◌, *ℤ-zero, zero_add, is_nonzero, is_nonzero-false, sum_ℤ, int_laws,
}
use opencloud_backend.Accounts.Backups.{AccountSettings, uncounted}
use opencloud_backend.Billing.Model.{
  Resource, vcpu, ram_gb, ssd_gb, hdd_gb, elastic_ip, snapshot_gb, same_resource, UsageSnapshot,
}
use opencloud_backend.Billing.Rates.{
  ResourceDict, accumulate, accumulate_all, measured_resources, sorted_resources, sorted_items,
  quantities, measure_period, add_day, Line, cost_of, cost_line, line_cost, add_costs,
}

accumulate-at :
    (d : ResourceDict ℤ) (r : Resource) (x : ℤ) (s : Resource)
    → accumulate d r x s ≡ (
        if same_resource r s
        then (if is_nonzero x then some (or_default (d r) (pos 0) +ℤ x) else d s)
        else d s)
unfolding accumulate
accumulate-at d r x s = ground arith

-- After one snapshot a resource's entry is that of its own quantity alone.
pub accumulate_all-at :
    (q : Resource → ℤ) (d : ResourceDict ℤ) (s : Resource)
    → accumulate_all q measured_resources d s ≡ accumulate d s (q s) s
unfolding accumulate_all
accumulate_all-at q d vcpu = simp accumulate-at
accumulate_all-at q d ram_gb = simp accumulate-at
accumulate_all-at q d ssd_gb = simp accumulate-at
accumulate_all-at q d hdd_gb = simp accumulate-at
accumulate_all-at q d elastic_ip = simp accumulate-at
accumulate_all-at q d snapshot_gb = simp accumulate-at

-- The quantities of a resource over a period, with each account's setting applied.
abbrev pub held : List Text → Resource → UsageSnapshot → ℤ
held without_backups r s = quantities s (not (member_text s.domain_id without_backups)) r

-- An entry of `unit_days`, said without the loop: there is one when some quantity is not zero, and
-- it is the sum of them all.
abbrev pub total_held : List Text → List UsageSnapshot → Option ℤ → Resource → Option ℤ
total_held without_backups snapshots start r =
    if any_by (λ s. is_nonzero (held without_backups r s)) snapshots
    then some (or_default start (pos 0) +ℤ sum_ℤ (held without_backups r) snapshots)
    else start

same_resource_refl : (r : Resource) → same_resource r r ≡ true
same_resource_refl vcpu = refl
same_resource_refl ram_gb = refl
same_resource_refl ssd_gb = refl
same_resource_refl hdd_gb = refl
same_resource_refl elastic_ip = refl
same_resource_refl snapshot_gb = refl

accumulate_self :
    (d : ResourceDict ℤ) (r : Resource) (x : ℤ)
    → accumulate d r x r ≡ (if is_nonzero x then some (or_default (d r) (pos 0) +ℤ x) else d r)
accumulate_self d r x = rw (accumulate-at d r x r, same_resource_refl r)

-- A quantity of zero adds nothing, so the sum may be taken over every snapshot.
sum_held :
    (without : List Text) (snapshots : List UsageSnapshot) (r : Resource)
    → any_by (λ s. is_nonzero (held without r s)) snapshots ≡ false
    → sum_ℤ (held without r) snapshots ≡ pos 0
sum_held without [] r h = refl
sum_held without (s ∷ ss) r h =
    let any = any_by (λ s. is_nonzero (held without r s)) ss in
    let e : is_nonzero (held without r s) ≡ false = or-false_left _ any h in
    rw (is_nonzero-false (held without r s) e, sum_held without ss r (or-false_right _ any h))
      (omega int_laws)

-- The entry after one snapshot, then the rest of the period.
add_entry :
    (x rest : ℤ) (o : Option ℤ) (some_rest : Bool)
    → (some_rest ≡ false → rest ≡ pos 0)
    → (let o' : Option ℤ = if is_nonzero x then some (or_default o (pos 0) +ℤ x) else o in
        if some_rest then some (or_default o' (pos 0) +ℤ rest) else o')
      ≡ (if is_nonzero x || some_rest then some (or_default o (pos 0) +ℤ (x +ℤ rest)) else o)
add_entry x rest o some_rest h = elim (Bool-cases (is_nonzero x)) [
  | inl e ↦ rw e (elim (Bool-cases some_rest) [
    | inl more ↦ rw more (ap some (omega int_laws))
    | inr last ↦ rw (last, h last) (ap some (omega int_laws))
  ])
  | inr e ↦ rw (e, is_nonzero-false x e, zero_add rest)
]

pub measure_period-unit_days :
    (without : List Text) (snapshots : List UsageSnapshot) (d : ResourceDict ℤ) (days : List ℕ)
    (r : Resource)
    → (measure_period without snapshots d days).0 r ≡ total_held without snapshots (d r) r
unfolding measure_period
measure_period-unit_days without [] d days r = refl
measure_period-unit_days without (s ∷ ss) d days r =
    let q = quantities s (not (member_text s.domain_id without)) in
    measure_period-unit_days without ss (accumulate_all q measured_resources d)
      (add_day s.taken_on days) r
    ∙ rw (accumulate_all-at q d r, accumulate_self d r (q r))
        (add_entry (q r) (sum_ℤ (held without r) ss) (d r)
          (any_by (λ s. is_nonzero (held without r s)) ss) (sum_held without ss r))

pub sorted_items-cong :
    {V : Type 0} (d e : ResourceDict V) (rs : List Resource)
    → ((r : Resource) → d r ≡ e r)
    → sorted_items d rs ≡ sorted_items e rs
sorted_items-cong d e rs h = ap (λ (f : ResourceDict _). sorted_items f rs) (fun_ext h)

-- The lines of a bill are those of the resources that were held, in the order of their keys, each
-- priced on the sum of its quantities over the snapshots.
pub cost_of-lines :
    (settings : List AccountSettings) (snapshots : List UsageSnapshot) (rates : ResourceDict ℕ)
    → let without = uncounted settings (map (λ (s : UsageSnapshot). s.domain_id) snapshots) in
      let cost = cost_of settings snapshots rates in
      cost.lines
      ≡ map
          (cost_line rates cost.days)
          (sorted_items (total_held without snapshots none) sorted_resources)
unfolding cost_of
cost_of-lines settings snapshots rates =
    let without = uncounted settings (map (λ (s : UsageSnapshot). s.domain_id) snapshots) in
    ap (map (cost_line rates (length (measure_period without snapshots (λ _. none) []).1))) (
      sorted_items-cong _ _ sorted_resources
        (measure_period-unit_days without snapshots (λ _. none) []))

-- How often a day stands in a list.
abbrev pub count_day : ℕ → List ℕ → ℕ
count_day k [] = 0
count_day k (d ∷ days) = (if d == k then 1 else 0) + count_day k days

count_day-add_day :
    (k d : ℕ) (days : List ℕ)
    → count_day k (add_day d days) ≡ (
        if d == k
        then (if count_day k days == 0 then 1 else count_day k days)
        else count_day k days)
unfolding add_day
count_day-add_day k d [] = ground arith
count_day-add_day k d (e ∷ days) = ground (arith, count_day-add_day k d days)

measure_period-days :
    (without : List Text) (snapshots : List UsageSnapshot) (u : ResourceDict ℤ) (days : List ℕ)
    (k : ℕ)
    → count_day k (measure_period without snapshots u days).1 ≡ (
        if count_day k days == 0 && any_by (λ s. s.taken_on == k) snapshots
        then 1
        else count_day k days)
unfolding measure_period
measure_period-days without [] u days k = ground arith
measure_period-days without (s ∷ ss) u days k =
    let q = quantities s (not (member_text s.domain_id without)) in
    measure_period-days without ss (accumulate_all q measured_resources u) (add_day s.taken_on days)
      k
    ∙ rw (count_day-add_day k s.taken_on days) (ground arith)

-- The days of a bill are the dates of its snapshots, each counted once.
cost_of-days :
    (settings : List AccountSettings) (snapshots : List UsageSnapshot) (rates : ResourceDict ℕ)
    → (days : List ℕ) × ((cost_of settings snapshots rates).days ≡ length days)
      × ((k : ℕ) → count_day k days ≡ (if any_by (λ s. s.taken_on == k) snapshots then 1 else 0))
unfolding cost_of
cost_of-days settings snapshots rates =
    let without = uncounted settings (map (λ (s : UsageSnapshot). s.domain_id) snapshots) in
    (
      (measure_period without snapshots (λ _. none) []).1,
      refl,
      λ k. measure_period-days without snapshots (λ _. none) [] k,
    )

add_costs-eq-sum :
    (t : ℤ) (lines : List Line) → add_costs t lines ≡ t +ℤ sum_ℤ (λ (l : Line). l.cost) lines
unfolding add_costs
add_costs-eq-sum t [] = omega int_laws
add_costs-eq-sum t (l ∷ lines) = rw (add_costs-eq-sum (t +ℤ l.cost) lines) (omega int_laws)

-- A line multiplies out, and its price is zero unless the price list has one.
abbrev pub MultipliesOut : Line → Type 0
MultipliesOut l =
    (l.cost ≡ line_cost l.quantity l.unit_price) × ((l.priced || l.unit_price == 0) ≡ true)

pub line_cost-zero : (q : ℤ) → line_cost q 0 ≡ pos 0
unfolding line_cost
line_cost-zero q = rw *ℤ-zero

cost_line-MultipliesOut :
    (rates : ResourceDict ℕ) (days : ℕ) (r : Resource) (x : ℤ)
    → MultipliesOut (cost_line rates days (r, x))
unfolding cost_line
cost_line-MultipliesOut rates days r x = elim (Option-cases (rates r)) [
  | inl e ↦ rw e (refl, refl)
  | inr (p, e) ↦ rw e (refl, refl)
]

map-MultipliesOut :
    (rates : ResourceDict ℕ) (days : ℕ) (items : List (Resource × ℤ))
    → All MultipliesOut (map (cost_line rates days) items)
map-MultipliesOut rates days [] = tt
map-MultipliesOut rates days ((r, x) ∷ items) =
    (cost_line-MultipliesOut rates days r x, map-MultipliesOut rates days items)

pub cost_of_closes :
    (settings : List AccountSettings) (snapshots : List UsageSnapshot) (rates : ResourceDict ℕ)
    → let cost = cost_of settings snapshots rates in
      All MultipliesOut cost.lines × (cost.total ≡ sum_ℤ (λ (l : Line). l.cost) cost.lines)
unfolding cost_of
cost_of_closes settings snapshots rates =
    (map-MultipliesOut rates _ _, add_costs-eq-sum (pos 0) _ ∙ zero_add _)

-- The total as the loop computes it.
pub cost_of-total :
    (settings : List AccountSettings) (ss : List UsageSnapshot) (rates : ResourceDict ℕ)
    → (cost_of settings ss rates).total ≡ add_costs (pos 0) (cost_of settings ss rates).lines
unfolding cost_of
cost_of-total settings ss rates = refl
