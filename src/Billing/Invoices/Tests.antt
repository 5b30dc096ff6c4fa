-- ===== src/Billing/Invoices/Tests.antt =====
-- The theorems on invoices at concrete inputs.
use opencloud_backend.Base.{
  ℕ, ◌+◌, ◌≡◌, refl, true, some, [], ◌∷◌, ◌++◌, Bool-cases, inl, inr, if◌then◌else◌, Text, txt,
  text_eq, iexact, lower, lower_char, ◌==◌,
}
use opencloud_backend.Base.Int.{pos, ◌+ℤ◌}
use opencloud_backend.Billing.Model.{vcpu, UsageSnapshot, Seller, Buyer, Invoice}
use opencloud_backend.Billing.Vat.{split_vat}
use opencloud_backend.Billing.Documents.{Settings, Database, Document, draft, draft_cost, serialize}
use opencloud_backend.Billing.Invoices.{
  Request, Interference, issued, invoice_of, next_number, last_seq, issue,
}
use opencloud_backend.Billing.Documents.Draft.{draft_closes}
use opencloud_backend.Billing.Invoices.Table.{HasOneEach, Extends, IsShown, issue-HasOneEach}
use opencloud_backend.Billing.Invoices.Issue.{
  quiet, AreElsewhere, issue-quiet, issue_again, issue_found,
}

abbrev seller : Seller
seller = record {
  name = txt "OpenCloud";
  tax_id = txt "301";
  address = txt "Tashkent";
  bank_account = txt "2020";
}

abbrev settings : Settings
settings = record {
  vat = record { billing_vat_rate = some 1200; prices_include_vat = true };
  billing_seller = seller;
}

abbrev customer : Buyer
customer = record {
  account = txt "acme";
  name = txt "Acme LLC";
  tax_id = txt "302";
  address = [];
  contract = [];
  director = [];
  email = [];
  phone = [];
}

abbrev numbered : ℕ → Text → Invoice
numbered seq account = record {
  number = record { year = 2026; seq = seq };
  number_seq = seq;
  account = account;
  domain_id = txt "d2";
  period = txt "2026-05";
  period_from = 1;
  period_to = 31;
  issued_at = 40;
  issued_by = txt "ops";
  currency = txt "UZS";
  subtotal = pos 100;
  vat_rate = 1200;
  vat_amount = pos 12;
  total = pos 112;
  seller = seller;
  buyer = customer;
  days_measured = 31;
  days_in_period = pos 31;
  lines = [];
}

abbrev measured : UsageSnapshot
measured = record {
  taken_on = 10;
  account = txt "acme";
  domain_id = txt "d1";
  project_id = txt "p1";
  project_name = txt "web";
  vms_total = 1;
  vms_running = 1;
  vcpus = 4;
  ram_mb = 0;
  ssd_gib = 7;
  hdd_gib = 0;
  unlabelled_gib = 0;
  elastic_ips = 0;
  snapshot_gib = 0;
  backup_snapshot_gib = 0;
}

-- One invoice is out already, to another account.
abbrev db : Database
db = record {
  tariffs =
      record {
        name = txt "Basic";
        currency = txt "UZS";
        account = [];
        is_active = true;
        rates = record { resource = vcpu; price_per_month = 1200000 } ∷ [];
      }
      ∷ [];
  account_settings = [];
  usage_snapshots = measured ∷ [];
  billing_profiles = [];
  invoices = numbered 7 (txt "other") ∷ [];
}

abbrev request : Request
request = record {
  account = txt "acme";
  domain_id = txt "d1";
  first = 1;
  last = 31;
  year = 2026;
  period = txt "2026-05";
  issued_by = txt "ops";
  now = 41;
}

-- Another operator's invoice takes the number first, in the first two attempts.
abbrev busy : ℕ → Interference
busy k = record {
  before = [];
  between =
      if k == 4
      then numbered 8 (txt "third") ∷ []
      else (if k == 3 then numbered 9 (txt "fourth") ∷ [] else []);
}

draft_closes_example :
    let d = draft settings db (txt "acme") (txt "d1") 1 31 (txt "2026-05") in
    let bill = draft_cost db (txt "acme") (txt "d1") 1 31 in
    (split_vat settings.vat bill.total ≡ (d.subtotal, d.vat_amount, d.total))
    × (d.subtotal +ℤ d.vat_amount ≡ d.total)
draft_closes_example = draft_closes settings db (txt "acme") (txt "d1") 1 31 (txt "2026-05")

issue-HasOneEach_example :
    let (result, table) = issue settings db busy request in
    HasOneEach table × Extends db.invoices table × IsShown settings request table result
issue-HasOneEach_example = issue-HasOneEach settings db busy request (tt, tt)

issue-quiet_example :
    let d = draft settings db (txt "acme") (txt "d1") 1 31 (txt "2026-05") in
    let row = invoice_of request d (next_number 2026 db.invoices) in
    (issue settings db quiet request ≡ (issued (serialize settings row), db.invoices ++ row ∷ []))
    × (row.number.seq ≡ last_seq 2026 db.invoices + 1)
    × (row.subtotal ≡ d.subtotal)
    × (row.vat_amount ≡ d.vat_amount)
    × (row.total ≡ d.total)
unfolding iexact text_eq lower lower_char
issue-quiet_example = issue-quiet settings db request (refl, tt) refl

-- The prices have gone since, and the request comes from another operator.
abbrev db_later : Database
db_later = record db { tariffs = []; invoices = (issue settings db quiet request).1 }

issue_again_example :
    issue settings db_later busy (record request { issued_by = txt "boss" })
    ≡ ((issue settings db quiet request).0, db_later.invoices)
issue_again_example =
    issue_again settings db db_later busy request (record request { issued_by = txt "boss" })
      (refl, tt) refl refl refl

busy_elsewhere : AreElsewhere request busy
unfolding text_eq
busy_elsewhere k = elim (Bool-cases (k == 4)) [
  | inl e ↦ rw e (tt, (refl, tt), tt, (refl, tt))
  | inr e ↦ elim (Bool-cases (k == 3)) [
    | inl f ↦ rw (e, f) (tt, (refl, tt), tt, (refl, tt))
    | inr f ↦ rw (e, f) (tt, tt, tt, tt)
  ]
]

issue_found_example : (d : Document) × ((issue settings db busy request).0 ≡ issued d)
issue_found_example = issue_found settings db busy request busy_elsewhere refl (refl, tt)
