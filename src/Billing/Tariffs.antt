-- ===== src/Billing/Tariffs.antt =====
-- apps/billing/views.py (AdminTariffView): the price list of an account, shown and set by its
-- administrator. Prices are ten-thousandths; the widths of the columns are left out. `ordered` is the
-- order in which the database returns the rows, (account, name) by its own collation.
pub mod Others
pub mod Prices
mod Tests
use opencloud_backend.Base.{
  ℕ, zero, suc, ◌+◌, ◌≡◌, refl, ◌∙◌, ap, Bool, true, false, ◌&&◌, ◌||◌, not, Option, none, some,
  is_some, List, [], ◌∷◌, ◌++◌, All, map, length, Text, txt, text_eq, text_eq_refl, iexact, strip,
  nonempty, first_by, filter_by, any_by, or_default, leb, if◌then◌else◌, Bool-cases, inl, inr,
  arith,
}
use opencloud_backend.Base.Int.{ℤ, pos, negsuc}
use opencloud_backend.Base.Json.{or_word}
use opencloud_backend.Billing.Model.{Resource, value, same_resource, Tariff, TariffRate}
use opencloud_backend.Billing.Rates.{measured_resources}

-- `next((rate.price_per_month for rate in rates if rate.resource == resource), 0)`
unfoldable pub price_in : List TariffRate → Resource → ℕ
price_in [] resource = 0
price_in (rate ∷ rates) resource =
    if same_resource rate.resource resource then rate.price_per_month else price_in rates resource

pub record TariffPage : Type 0 where
  pub currency : Text
  pub name : Option Text
  pub inherited : Bool
  pub rates : List (Resource × ℕ)
  pub has_default : Bool

abbrev pub own_tariff : List Tariff → Text → Option Tariff
own_tariff tariffs account = first_by (λ (t : Tariff). iexact t.account account) tariffs

abbrev pub default_tariff : List Tariff → Option Tariff
default_tariff tariffs = first_by (λ (t : Tariff). text_eq t.account []) tariffs

-- `own or default`
abbrev pub effective : Option Tariff → Option Tariff → Option Tariff
effective (some own) default = some own
effective none default = default

unfoldable pub tariff_page : Option Tariff → Bool → Bool → TariffPage
tariff_page none inherited has_default = record {
  currency = txt "UZS";
  name = none;
  inherited = inherited;
  rates = map (λ (r : Resource). (r, 0)) measured_resources;
  has_default = has_default;
}
tariff_page (some t) inherited has_default = record {
  currency = t.currency;
  name = some t.name;
  inherited = inherited;
  rates = map (λ (r : Resource). (r, price_in t.rates r)) measured_resources;
  has_default = has_default;
}

-- `AdminTariffView.get`, for an account that was looked up
unfoldable pub get_tariff : List Tariff → Text → TariffPage
get_tariff tariffs account =
    let own = own_tariff tariffs account in
    let default = default_tariff tariffs in
    tariff_page (effective own default) (not (is_some own)) (is_some default)

-- What is submitted: a price that is not a number is none, and so is what is not an object.
pub record TariffRequest : Type 0 where
  pub currency : Text
  pub rates : Option (List (Text × Option ℤ))

-- The resource of a key; none where it is unknown.
abbrev pub resource_of : Text → Option Resource
resource_of key = first_by (λ (r : Resource). text_eq (value r) key) measured_resources

-- A price of a known resource, that is a number and not negative.
unfoldable pub read_price : Option Resource → Option ℤ → Option (Resource × ℕ)
read_price none price = none
read_price (some r) none = none
read_price (some r) (some (negsuc n)) = none
read_price (some r) (some (pos n)) = some (r, n)

abbrev pub prepend : {A : Type 0} → Option A → Option (List A) → Option (List A)
prepend none rest = none
prepend (some x) none = none
prepend (some x) (some xs) = some (x ∷ xs)

-- `prices`; none where one of them is refused.
unfoldable pub read_prices : List (Text × Option ℤ) → Option (List (Resource × ℕ))
read_prices [] = some []
read_prices ((key, price) ∷ submitted) =
    prepend (read_price (resource_of key) price) (read_prices submitted)

-- `TariffRate.objects.update_or_create`
unfoldable pub set_rate : Resource → ℕ → List TariffRate → List TariffRate
set_rate r price [] = record { resource = r; price_per_month = price } ∷ []
set_rate r price (rate ∷ rates) =
    let rest = set_rate r price rates in
    if same_resource rate.resource r
    then record rate { price_per_month = price } ∷ rates
    else rate ∷ rest

unfoldable pub set_rates : List (Resource × ℕ) → List TariffRate → List TariffRate
set_rates [] rates = rates
set_rates ((r, price) ∷ prices) rates = set_rates prices (set_rate r price rates)

abbrev pub is_priced : List (Resource × ℕ) → TariffRate → Bool
is_priced prices rate = any_by (λ (p : Resource × ℕ). same_resource p.0 rate.resource) prices

-- The rates of the list: those that are left out of the payload are deleted.
unfoldable pub replace_rates : List (Resource × ℕ) → List TariffRate → List TariffRate
replace_rates prices rates = filter_by (is_priced prices) (set_rates prices rates)

-- `text[:n]`
abbrev pub first_chars : ℕ → Text → Text
first_chars zero t = []
first_chars (suc n) [] = []
first_chars (suc n) (c ∷ t) = c ∷ first_chars n t

abbrev pub currency_of : TariffRequest → Text
currency_of q = first_chars 8 (strip (or_word q.currency (txt "UZS")))

abbrev pub is_of : Text → Tariff → Bool
is_of account t = text_eq t.account account

unfoldable pub set_tariff : Text → Text → List (Resource × ℕ) → Tariff → Tariff
set_tariff account currency prices t = record t {
  name = account ++ txt " price list";
  currency = currency;
  is_active = true;
  rates = replace_rates prices t.rates;
}

abbrev pub new_tariff : Text → Tariff
new_tariff account = record {
  name = [];
  currency = [];
  account = account;
  is_active = true;
  rates = [];
}

-- `Tariff.objects.update_or_create(account=account, …)` and the rates, where one row at most has the
-- account
unfoldable pub write_tariff : Text → Text → List (Resource × ℕ) → List Tariff → List Tariff
write_tariff account currency prices [] =
    set_tariff account currency prices (new_tariff account) ∷ []
write_tariff account currency prices (t ∷ tariffs) =
    let rest = write_tariff account currency prices tariffs in
    if is_of account t then set_tariff account currency prices t ∷ tariffs else t ∷ rest

pub data TariffAnswer : Type 0 where
  priced : TariffPage → TariffAnswer
  invalid_request : TariffAnswer
  -- several rows have the account
  server_error : TariffAnswer

unfoldable pub settle_tariff :
    (List Tariff → List Tariff)
    → Option (List (Resource × ℕ))
    → Text
    → Text
    → List Tariff
    → TariffAnswer × List Tariff
settle_tariff ordered none account currency tariffs = (invalid_request, tariffs)
settle_tariff ordered (some prices) account currency tariffs =
    let written = write_tariff account currency prices tariffs in
    if leb (length (filter_by (is_of account) tariffs)) 1
    then (priced (get_tariff (ordered written) account), written)
    else (server_error, tariffs)

abbrev pub submitted_prices : Option (List (Text × Option ℤ)) → Option (List (Resource × ℕ))
submitted_prices none = none
submitted_prices (some submitted) = read_prices submitted

-- `AdminTariffView.put`, for an account that was looked up
unfoldable pub put_tariff :
    (List Tariff → List Tariff) → Text → TariffRequest → List Tariff → TariffAnswer × List Tariff
put_tariff ordered account q tariffs =
    settle_tariff ordered (submitted_prices q.rates) account (currency_of q) tariffs
