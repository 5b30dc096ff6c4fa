-- ===== src/Billing/Documents.antt =====
-- apps/billing/invoices.py: the parties, the draft of a month, and a document as it is shown.
-- A float here carries the decimal that it prints as; `Decimal(str(float(x)))` gives back a Decimal
-- of two places below 10 ^ 13, and amounts are taken to be such.
pub mod Draft
use opencloud_backend.Base.{
  ℕ, zero, suc, ◌+◌, Bool, true, false, ◌&&◌, ◌||◌, not, Option, none, some, List, [], ◌∷◌, ◌++◌,
  map, Text, txt, strip, nonempty, iexact, text_eq, filter_by, first_by, or_default, ◌==◌, leb, ltb,
  if◌then◌else◌,
}
use opencloud_backend.Base.Int.{ℤ, pos, ◌+ℤ◌, sub_ℕ}
use opencloud_backend.Accounts.Backups.{AccountSettings}
use opencloud_backend.Billing.Model.{
  Resource, vcpu, ram_gb, ssd_gb, hdd_gb, elastic_ip, snapshot_gb, label, Tariff, UsageSnapshot,
  BillingProfile, InvoiceLine, InvoiceNumber, Seller, Buyer, Invoice,
}
use opencloud_backend.Billing.Rates.{Line, Cost, cost_of, rate_map, resolve_tariff}
use opencloud_backend.Billing.Vat.{VatSettings, vat_rate, split_vat}

-- UNIT, by code points: the source writes Cyrillic.
abbrev pub unit_of : Resource → Text
unit_of vcpu = txt "vCPU"
unit_of ram_gb = txt "ГБ"
unit_of ssd_gb = txt "ГБ"
unit_of hdd_gb = txt "ГБ"
unit_of elastic_ip = txt "адрес"
unit_of snapshot_gb = txt "ГБ"

pub record Settings : Type 0 where
  pub vat : VatSettings
  pub billing_seller : Seller

-- The tables that the module reads and writes.
pub record Database : Type 0 where
  pub tariffs : List Tariff
  pub account_settings : List AccountSettings
  pub usage_snapshots : List UsageSnapshot
  pub billing_profiles : List BillingProfile
  pub invoices : List Invoice

-- `x or y` on texts
abbrev pub or_text : Text → Text → Text
or_text s t = if nonempty s then s else t

unfoldable pub buyer : List BillingProfile → Text → Buyer
unfolding iexact
buyer profiles account =
    elim (first_by (λ (p : BillingProfile). iexact p.account account) profiles) [
      | none ↦ record {
        account = account;
        name = account;
        tax_id = [];
        address = [];
        contract = [];
        director = [];
        email = [];
        phone = [];
      }
      | some p ↦ record {
        account = account;
        name = or_text p.legal_name account;
        tax_id = p.tax_id;
        address = p.address;
        contract = p.contract;
        director = p.director;
        email = p.email;
        phone = p.phone;
      }
    ]

-- One entry of the loops: reported when the text is blank.
abbrev pub report_blank : Text → Text → List Text → List Text
report_blank t name missing = if nonempty (strip t) then missing else name ∷ missing

unfoldable pub missing_requisites : Seller → Buyer → List Text
missing_requisites s b = report_blank s.name (txt "seller name") (
    report_blank s.tax_id (txt "seller ИНН") (
      report_blank s.address (txt "seller address") (
        report_blank s.bank_account (txt "seller bank account")
          (report_blank b.name (txt "buyer name") (report_blank b.tax_id (txt "buyer ИНН") [])))))

pub record DocumentLine : Type 0 where
  pub resource : Resource
  pub line_label : Text
  pub unit : Text
  pub quantity : ℤ
  pub unit_days : Option ℤ
  pub days : ℕ
  pub days_in_period : ℤ
  pub unit_price : ℕ
  pub amount : ℤ
  pub priced : Bool

-- A draft or an issued invoice; a draft has no number.
pub record Document : Type 0 where
  pub number : Option InvoiceNumber
  pub issued_at : Option ℕ
  pub issued_by : Text
  pub account : Text
  pub period : Text
  pub period_from : ℕ
  pub period_to : ℕ
  pub currency : Text
  pub lines : List DocumentLine
  pub subtotal : ℤ
  pub vat_rate : ℕ
  pub vat_amount : ℤ
  pub vat_included_in_prices : Bool
  pub total : ℤ
  pub seller : Seller
  pub buyer : Buyer
  pub days_measured : ℕ
  pub days_in_period : ℤ
  pub missing : List Text
  pub unpriced : List Text

unfoldable pub draft_line : ℕ → ℤ → Line → DocumentLine
draft_line measured_days days_in_period line = record {
  resource = line.resource;
  line_label = label line.resource;
  unit = unit_of line.resource;
  quantity = line.quantity;
  unit_days = some line.unit_days;
  days = measured_days;
  days_in_period = days_in_period;
  unit_price = line.unit_price;
  amount = line.cost;
  priced = line.priced;
}

-- `sum((… for line in lines if line['priced']), Decimal(0))`
unfoldable pub billable_sum : ℤ → List DocumentLine → ℤ
billable_sum total [] = total
billable_sum total (line ∷ lines) =
    billable_sum (if line.priced then total +ℤ line.amount else total) lines

abbrev pub in_period : Text → ℕ → ℕ → UsageSnapshot → Bool
in_period domain_id first last s =
    text_eq s.domain_id domain_id && leb first s.taken_on && leb s.taken_on last

-- `tariff.currency if tariff else 'UZS'`
abbrev pub currency_of : Option Tariff → Text
currency_of none = txt "UZS"
currency_of (some t) = t.currency

-- The bill under the draft.
unfoldable pub draft_cost : Database → Text → Text → ℕ → ℕ → Cost
draft_cost db account domain_id first last =
    cost_of db.account_settings (filter_by (in_period domain_id first last) db.usage_snapshots)
      (rate_map (resolve_tariff db.tariffs account))

unfoldable pub draft : Settings → Database → Text → Text → ℕ → ℕ → Text → Document
unfolding draft_cost
draft settings db account domain_id first last period =
    let tariff = resolve_tariff db.tariffs account in
    let cost = draft_cost db account domain_id first last in
    let days_in_period = sub_ℕ last first +ℤ pos 1 in
    let lines = map (draft_line cost.days days_in_period) cost.lines in
    let amounts = split_vat settings.vat (billable_sum (pos 0) lines) in
    let buyer_details = buyer db.billing_profiles account in
    record {
      number = none;
      issued_at = none;
      issued_by = [];
      account = account;
      period = period;
      period_from = first;
      period_to = last;
      currency = currency_of tariff;
      lines = lines;
      subtotal = amounts.0;
      vat_rate = vat_rate settings.vat;
      vat_amount = amounts.1;
      vat_included_in_prices = settings.vat.prices_include_vat;
      total = amounts.2;
      seller = settings.billing_seller;
      buyer = buyer_details;
      days_measured = cost.days;
      days_in_period = days_in_period;
      missing = missing_requisites settings.billing_seller buyer_details;
      unpriced =
          map (λ (l : DocumentLine). l.line_label)
            (filter_by (λ (l : DocumentLine). not l.priced) lines);
    }

unfoldable pub serialize_line : Invoice → InvoiceLine → DocumentLine
serialize_line invoice line = record {
  resource = line.resource;
  line_label = line.line_label;
  unit = line.unit;
  quantity = line.quantity;
  unit_days = none;
  days = invoice.days_measured;
  days_in_period = invoice.days_in_period;
  unit_price = line.unit_price;
  amount = line.amount;
  priced = true;
}

unfoldable pub serialize : Settings → Invoice → Document
unfolding serialize_line
serialize settings invoice = record {
  number = some invoice.number;
  issued_at = some invoice.issued_at;
  issued_by = invoice.issued_by;
  account = invoice.account;
  period = invoice.period;
  period_from = invoice.period_from;
  period_to = invoice.period_to;
  currency = invoice.currency;
  lines = map (serialize_line invoice) invoice.lines;
  subtotal = invoice.subtotal;
  vat_rate = invoice.vat_rate;
  vat_amount = invoice.vat_amount;
  vat_included_in_prices = settings.vat.prices_include_vat;
  total = invoice.total;
  seller = invoice.seller;
  buyer = invoice.buyer;
  days_measured = invoice.days_measured;
  days_in_period = invoice.days_in_period;
  missing = [];
  unpriced = [];
}
