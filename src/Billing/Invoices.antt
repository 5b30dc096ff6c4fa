-- ===== src/Billing/Invoices.antt =====
-- apps/billing/invoices.py: the numbers of invoices, and issuing one.
pub mod Numbers
pub mod Issue
pub mod Table
mod Tests
use opencloud_backend.Base.{
  ℕ, zero, suc, ◌+◌, Bool, true, false, ◌&&◌, ◌||◌, not, Option, none, some, List, [], ◌∷◌, ◌++◌,
  map, Text, txt, strip, nonempty, iexact, text_eq, filter_by, first_by, or_default, ◌==◌, leb, ltb,
  if◌then◌else◌,
}
use opencloud_backend.Base.Int.{ℤ, pos, ◌+ℤ◌, sub_ℕ}
use opencloud_backend.Accounts.Backups.{AccountSettings}
use opencloud_backend.Billing.Model.{
  Resource, vcpu, ram_gb, ssd_gb, hdd_gb, elastic_ip, snapshot_gb, label, Tariff, UsageSnapshot,
  BillingProfile, InvoiceLine, InvoiceNumber, Seller, Buyer, Invoice,
}
use opencloud_backend.Billing.Rates.{Line, Cost, cost_of, rate_map, resolve_tariff}
use opencloud_backend.Billing.Vat.{VatSettings, vat_rate, split_vat}
use opencloud_backend.Billing.Documents.{
  unit_of, Settings, Database, or_text, buyer, report_blank, missing_requisites, DocumentLine,
  Document, draft_line, billable_sum, in_period, currency_of, draft_cost, draft, serialize_line,
  serialize,
}

-- The largest `number_seq` among the invoices of the year, 0 when there is none.
unfoldable pub last_seq : ℕ → List Invoice → ℕ
last_seq year [] = 0
last_seq year (i ∷ invoices) =
    let rest = last_seq year invoices in
    if i.number.year == year && ltb rest i.number_seq then i.number_seq else rest

unfoldable pub next_number : ℕ → List Invoice → ℕ × InvoiceNumber
unfolding last_seq
next_number year invoices =
    let seq = last_seq year invoices + 1 in (seq, record { year = year; seq = seq })

-- The unique constraints of the table: the number, and the account with its period.
unfoldable pub clashes : Invoice → Invoice → Bool
unfolding text_eq
clashes i j =
    (i.number.year == j.number.year && i.number.seq == j.number.seq)
    || (text_eq i.account j.account && text_eq i.period j.period)

-- `Invoice.objects.create`; `none` is an IntegrityError.
unfoldable pub create : Invoice → List Invoice → Option (List Invoice)
create i [] = some (i ∷ [])
create i (j ∷ invoices) =
    if clashes i j
    then none
    else elim (create i invoices) [ none ↦ none | some rest ↦ some (j ∷ rest) ]

-- What other transactions commit meanwhile: each row is held to the same constraints.
unfoldable pub commit_others : List Invoice → List Invoice → List Invoice
unfolding create
commit_others [] invoices = invoices
commit_others (i ∷ others) invoices = commit_others others (or_default (create i invoices) invoices)

-- `lines` of the document: only priced ones, the others are left off.
unfoldable pub frozen_line : DocumentLine → InvoiceLine
frozen_line line = record {
  resource = line.resource;
  line_label = line.line_label;
  unit = line.unit;
  quantity = line.quantity;
  unit_price = line.unit_price;
  amount = line.amount;
}

pub record Request : Type 0 where
  pub account : Text
  pub domain_id : Text
  pub first : ℕ
  pub last : ℕ
  pub year : ℕ
  pub period : Text
  pub issued_by : Text
  pub now : ℕ

-- The row that `fields` and the number make, with the lines that are created under it.
unfoldable pub invoice_of : Request → Document → ℕ × InvoiceNumber → Invoice
unfolding frozen_line
invoice_of r prepared (seq, number) = record {
  number = number;
  number_seq = seq;
  account = r.account;
  domain_id = r.domain_id;
  period = r.period;
  period_from = r.first;
  period_to = r.last;
  issued_at = r.now;
  issued_by = r.issued_by;
  currency = prepared.currency;
  subtotal = prepared.subtotal;
  vat_rate = prepared.vat_rate;
  vat_amount = prepared.vat_amount;
  total = prepared.total;
  seller = prepared.seller;
  buyer = prepared.buyer;
  days_measured = prepared.days_measured;
  days_in_period = prepared.days_in_period;
  lines = map frozen_line (filter_by (λ (l : DocumentLine). l.priced) prepared.lines);
}

-- The loop `for _attempt in range(5)`, on the attempts left. In each, others may commit before the
-- last number is read, and between that and the insertion.
pub record Interference : Type 0 where
  pub before : List Invoice
  pub between : List Invoice

unfoldable pub allocate :
    ℕ → (ℕ → Interference) → Request → Document → List Invoice → Option Invoice × List Invoice
allocate zero others r prepared invoices = (none, invoices)
allocate (suc attempts) others r prepared invoices =
    let seen = commit_others (others attempts).before invoices in
    let row = invoice_of r prepared (next_number r.year seen) in
    let table = commit_others (others attempts).between seen in
    elim (create row table) [
      | some grown ↦ (some row, grown)
      | none ↦ allocate attempts others r prepared table
    ]

-- An IntegrityError when no number could be allocated.
pub data IssueResult : Type 0 where
  issued : Document → IssueResult
  integrity_error : IssueResult

abbrev pub attempts_max : ℕ
attempts_max = 5

unfoldable pub issue :
    Settings → Database → (ℕ → Interference) → Request → IssueResult × List Invoice
issue settings db others r =
    elim (first_by (λ (i : Invoice). iexact i.account r.account && text_eq i.period r.period)
      db.invoices) [
        | some existing ↦ (issued (serialize settings existing), db.invoices)
        | none ↦
            let prepared = draft settings db r.account r.domain_id r.first r.last r.period in
            let (made, table) = allocate attempts_max others r prepared db.invoices in
            (
              elim made [ some row ↦ issued (serialize settings row) | none ↦ integrity_error ],
              table,
            )
      ]
