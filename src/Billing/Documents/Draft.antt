-- ===== src/Billing/Documents/Draft.antt =====
-- What a draft adds up to, and when a document lacks nothing.
use opencloud_backend.Base.{
  ℕ, ◌≡◌, refl, ◌∙◌, ap, sym, ◌↔◌, true, false, List, [], ◌∷◌, map, All, arith, Text, strip,
  nonempty, filter_by, Bool-cases, inl, inr,
}
use opencloud_backend.Base.Int.{ℤ, pos, ◌+ℤ◌, sub_ℕ, add_zero}
use opencloud_backend.Billing.Model.{Seller, Buyer}
use opencloud_backend.Billing.Rates.{Line, cost_of, rate_map, resolve_tariff, add_costs}
use opencloud_backend.Billing.Rates.Bill.{
  MultipliesOut, line_cost-zero, cost_of_closes, cost_of-total,
}
use opencloud_backend.Billing.Vat.{split_vat, split_vat_closes}
use opencloud_backend.Billing.Documents.{
  Settings, Database, draft, draft_cost, draft_line, billable_sum, missing_requisites, in_period,
}

unpriced_is_free : (l : Line) → MultipliesOut l → l.priced ≡ false → l.cost ≡ pos 0
unpriced_is_free l h e =
    let zero_price : l.unit_price ≡ 0 = ground (arith, h.1, e) in
    h.0 ∙ rw zero_price (line_cost-zero l.quantity)

billable_sum-draft_line :
    (t : ℤ) (measured : ℕ) (days : ℤ) (lines : List Line)
    → All MultipliesOut lines
    → billable_sum t (map (draft_line measured days) lines) ≡ add_costs t lines
unfolding billable_sum draft_line add_costs
billable_sum-draft_line t measured days [] h = refl
billable_sum-draft_line t measured days (l ∷ lines) h = elim (Bool-cases l.priced) [
  | inl e ↦ rw e (billable_sum-draft_line (t +ℤ l.cost) measured days lines h.1)
  | inr e ↦
      let free : l.cost ≡ pos 0 = unpriced_is_free l h.0 e in
      rw (e, free, add_zero t) (billable_sum-draft_line t measured days lines h.1)
]

-- Leaving the lines without a price off the sum changes nothing: a draft's subtotal, tax and total
-- are the split of the whole bill, and the first two add up to the third.
pub draft_closes :
    (settings : Settings) (db : Database) (account domain_id : Text) (first last : ℕ)
    (period : Text)
    → let d = draft settings db account domain_id first last period in
      let bill = draft_cost db account domain_id first last in
      (split_vat settings.vat bill.total ≡ (d.subtotal, d.vat_amount, d.total))
      × (d.subtotal +ℤ d.vat_amount ≡ d.total)
unfolding draft
draft_closes settings db account domain_id first last period =
    let snapshots = filter_by (in_period domain_id first last) db.usage_snapshots in
    let rates = rate_map (resolve_tariff db.tariffs account) in
    let cost = cost_of db.account_settings snapshots rates in
    let days = sub_ℕ last first +ℤ pos 1 in
    let sum : billable_sum (pos 0) (map (draft_line cost.days days) cost.lines) ≡ cost.total =
      billable_sum-draft_line (pos 0) cost.days days cost.lines
        (cost_of_closes db.account_settings snapshots rates).0
      ∙ sym (cost_of-total db.account_settings snapshots rates) in
    (ap (split_vat settings.vat) (sym sum), split_vat_closes settings.vat _)

-- A document lacks nothing exactly when the four requisites of the seller and the two of the buyer
-- are not blank.
missing_requisites-nil :
    (s : Seller) (b : Buyer)
    → (missing_requisites s b ≡ []) ↔ (
        (nonempty (strip s.name) ≡ true)
        × (nonempty (strip s.tax_id) ≡ true)
        × (nonempty (strip s.address) ≡ true)
        × (nonempty (strip s.bank_account) ≡ true)
        × (nonempty (strip b.name) ≡ true)
        × (nonempty (strip b.tax_id) ≡ true))
unfolding missing_requisites
missing_requisites-nil s b = (λ h. ground arith, λ h. ground arith)
