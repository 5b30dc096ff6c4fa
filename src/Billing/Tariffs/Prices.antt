-- ===== src/Billing/Tariffs/Prices.antt =====
-- apps/billing/views.py (AdminTariffView.put): the prices that are left after a change.
use opencloud_backend.Base.{
  ◌≡◌, refl, ap, sym, Bool, true, false, List, [], ◌∷◌, any_by, filter_by, if◌then◌else◌, ◌⊎◌,
  false≢true, ◌∙◌, Bool-cases, inl, inr, ℕ,
}
use opencloud_backend.Billing.Model.{
  Resource, vcpu, ram_gb, ssd_gb, hdd_gb, elastic_ip, snapshot_gb, same_resource, TariffRate,
}
use opencloud_backend.Billing.Tariffs.{price_in, set_rate, set_rates, is_priced, replace_rates}

same_or_not : (r s : Resource) → (r ≡ s) ⊎ (same_resource r s ≡ false)
same_or_not vcpu vcpu = inl refl
same_or_not ram_gb ram_gb = inl refl
same_or_not ssd_gb ssd_gb = inl refl
same_or_not hdd_gb hdd_gb = inl refl
same_or_not elastic_ip elastic_ip = inl refl
same_or_not snapshot_gb snapshot_gb = inl refl
same_or_not _ _ = inr refl

same_resource_eq : (r s : Resource) → same_resource r s ≡ true → r ≡ s
same_resource_eq r s h = elim (same_or_not r s) [
  | inl e ↦ e
  | inr e ↦ absurd (false≢true (sym e ∙ h))
]

-- What a key says of a resource it is not the key of.
same_resource_trans_false :
    (a r s : Resource)
    → same_resource a r ≡ false
    → same_resource a s ≡ true
    → same_resource r s ≡ false
same_resource_trans_false a r s f h = elim (same_or_not r s) [
  | inl e ↦ absurd (false≢true (sym f ∙ (ap (same_resource a) e ∙ h)))
  | inr e ↦ e
]

same_resource_trans :
    (a r s : Resource) (b : Bool)
    → same_resource a r ≡ true
    → same_resource a s ≡ b
    → same_resource r s ≡ b
same_resource_trans a r s b e f =
    sym (ap (λ (x : Resource). same_resource x s) (same_resource_eq a r e)) ∙ f

price_in-set_rate :
    (r s : Resource) (price : ℕ) (rates : List TariffRate)
    → price_in (set_rate r price rates) s ≡ (if same_resource r s then price else price_in rates s)
unfolding price_in set_rate
price_in-set_rate r s price [] = refl
price_in-set_rate r s price (rate ∷ rates) = elim (Bool-cases (same_resource rate.resource r)) [
  | inl e ↦ elim (Bool-cases (same_resource rate.resource s)) [
    | inl f ↦ rw (e, same_resource_trans rate.resource r s true e f, f) refl
    | inr f ↦ rw (e, same_resource_trans rate.resource r s false e f, f) refl
  ]
  | inr e ↦ elim (Bool-cases (same_resource rate.resource s)) [
    | inl f ↦ rw (e, f, same_resource_trans_false rate.resource r s e f) refl
    | inr f ↦ rw (e, f) (price_in-set_rate r s price rates)
  ]
]

-- The price that the last entry of the resource says.
unfoldable pub submitted_price : List (Resource × ℕ) → Resource → ℕ → ℕ
submitted_price [] s price = price
submitted_price ((r, new) ∷ prices) s price =
    submitted_price prices s (if same_resource r s then new else price)

price_in-set_rates :
    (prices : List (Resource × ℕ)) (s : Resource) (rates : List TariffRate)
    → price_in (set_rates prices rates) s ≡ submitted_price prices s (price_in rates s)
unfolding set_rates submitted_price
price_in-set_rates [] s rates = refl
price_in-set_rates ((r, price) ∷ prices) s rates =
    price_in-set_rates prices s (set_rate r price rates)
    ∙ ap (submitted_price prices s) (price_in-set_rate r s price rates)

-- A price that is not submitted is the old one, and a price that is submitted is not the old one's.
submitted_price-absent :
    (prices : List (Resource × ℕ)) (s : Resource) (price : ℕ)
    → any_by (λ (p : Resource × ℕ). same_resource p.0 s) prices ≡ false
    → submitted_price prices s price ≡ price
unfolding submitted_price
submitted_price-absent [] s price h = refl
submitted_price-absent ((r, new) ∷ prices) s price h = elim (Bool-cases (same_resource r s)) [
  | inl e ↦ absurd (false≢true (sym (rw e at h)))
  | inr e ↦ rw e (submitted_price-absent prices s price (rw e at h))
]

submitted_price-present :
    (prices : List (Resource × ℕ)) (s : Resource) (old other : ℕ)
    → any_by (λ (p : Resource × ℕ). same_resource p.0 s) prices ≡ true
    → submitted_price prices s old ≡ submitted_price prices s other
unfolding submitted_price
submitted_price-present [] s old other h = absurd (false≢true h)
submitted_price-present ((r, new) ∷ prices) s old other h = elim (Bool-cases (same_resource r s)) [
  | inl e ↦ rw e refl
  | inr e ↦ rw e (submitted_price-present prices s old other (rw e at h))
]

is_priced-eq :
    (prices : List (Resource × ℕ)) (rate : TariffRate) (s : Resource)
    → same_resource rate.resource s ≡ true
    → is_priced prices rate ≡ any_by (λ (p : Resource × ℕ). same_resource p.0 s) prices
is_priced-eq prices rate s h =
    ap (λ (x : Resource). any_by (λ (p : Resource × ℕ). same_resource p.0 x) prices)
      (same_resource_eq rate.resource s h)

price_in-present :
    (prices : List (Resource × ℕ)) (s : Resource) (rates : List TariffRate)
    → any_by (λ (p : Resource × ℕ). same_resource p.0 s) prices ≡ true
    → price_in (filter_by (is_priced prices) rates) s ≡ price_in rates s
unfolding price_in
price_in-present prices s [] h = refl
price_in-present prices s (rate ∷ rates) h = elim (Bool-cases (same_resource rate.resource s)) [
  | inl e ↦ rw (is_priced-eq prices rate s e ∙ h, e) refl
  | inr e ↦ elim (Bool-cases (is_priced prices rate)) [
    | inl f ↦ rw (f, e) (price_in-present prices s rates h)
    | inr f ↦ rw (f, e) (price_in-present prices s rates h)
  ]
]

price_in-absent :
    (prices : List (Resource × ℕ)) (s : Resource) (rates : List TariffRate)
    → any_by (λ (p : Resource × ℕ). same_resource p.0 s) prices ≡ false
    → price_in (filter_by (is_priced prices) rates) s ≡ 0
unfolding price_in
price_in-absent prices s [] h = refl
price_in-absent prices s (rate ∷ rates) h = elim (Bool-cases (is_priced prices rate)) [
  | inl f ↦ elim (Bool-cases (same_resource rate.resource s)) [
    | inl e ↦ absurd (false≢true (sym h ∙ (sym (is_priced-eq prices rate s e) ∙ f)))
    | inr e ↦ rw (f, e) (price_in-absent prices s rates h)
  ]
  | inr f ↦ rw f (price_in-absent prices s rates h)
]

-- When the rates of a list are replaced, the price of every resource is the one that the last entry
-- of the resource submits, and zero for a resource that is left out, whatever the rates were before.
pub replace_rates-price_in :
    (prices : List (Resource × ℕ)) (rates : List TariffRate) (s : Resource)
    → price_in (replace_rates prices rates) s ≡ submitted_price prices s 0
unfolding replace_rates
replace_rates-price_in prices rates s =
    elim (Bool-cases (any_by (λ (p : Resource × ℕ). same_resource p.0 s) prices)) [
      | inl h ↦
          price_in-present prices s (set_rates prices rates) h
          ∙ (price_in-set_rates prices s rates
              ∙ submitted_price-present prices s (price_in rates s) 0 h)
      | inr h ↦
          price_in-absent prices s (set_rates prices rates) h
          ∙ sym (submitted_price-absent prices s 0 h)
    ]
