-- ===== src/Billing/Tariffs/Tests.antt =====
-- The change of a price list at concrete inputs.
use opencloud_backend.Base.{ℕ, ◌≡◌, refl, true, some, List, [], ◌∷◌, txt, text_eq}
use opencloud_backend.Base.Int.{pos, negsuc}
use opencloud_backend.Billing.Model.{Resource, vcpu, ram_gb, elastic_ip, Tariff, TariffRate}
use opencloud_backend.Billing.Tariffs.{
  TariffRequest, put_tariff, settle_tariff, read_prices, read_price, replace_rates, price_in,
  invalid_request,
}
use opencloud_backend.Billing.Tariffs.Others.{others, put_tariff-others}
use opencloud_backend.Billing.Tariffs.Prices.{submitted_price, replace_rates-price_in}

abbrev rate : Resource → ℕ → TariffRate
rate r price = record { resource = r; price_per_month = price }

abbrev price_lists : List Tariff
price_lists =
    record {
      name = txt "Default";
      currency = txt "UZS";
      account = [];
      is_active = true;
      rates = rate vcpu 10000 ∷ rate ram_gb 5000 ∷ [];
    }
    ∷ record {
      name = txt "acme price list";
      currency = txt "UZS";
      account = txt "acme";
      is_active = true;
      rates = rate vcpu 20000 ∷ rate elastic_ip 3000 ∷ [];
    }
    ∷ []

abbrev cheaper : TariffRequest
cheaper = record { currency = txt "USD"; rates = some ((txt "vcpu", some (pos 15000)) ∷ []) }

abbrev below_zero : TariffRequest
below_zero = record { currency = []; rates = some ((txt "vcpu", some (negsuc 0)) ∷ []) }

price_below_zero :
    put_tariff (λ (l : List Tariff). l) (txt "acme") below_zero price_lists
    ≡ (invalid_request, price_lists)
unfolding put_tariff settle_tariff read_prices read_price text_eq
price_below_zero = refl

put_tariff-others_example :
    others (txt "acme") (put_tariff (λ (l : List Tariff). l) (txt "acme") cheaper price_lists).1
    ≡ others (txt "acme") price_lists
put_tariff-others_example =
    put_tariff-others (λ (l : List Tariff). l) (txt "acme") cheaper price_lists

replace_rates-price_in_example :
    price_in
      (replace_rates ((vcpu, 15000) ∷ []) (rate vcpu 20000 ∷ rate elastic_ip 3000 ∷ []))
      elastic_ip
    ≡ submitted_price ((vcpu, 15000) ∷ []) elastic_ip 0
replace_rates-price_in_example =
    replace_rates-price_in ((vcpu, 15000) ∷ []) (rate vcpu 20000 ∷ rate elastic_ip 3000 ∷ [])
      elastic_ip
