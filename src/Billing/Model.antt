-- ===== src/Billing/Model.antt =====
-- apps/billing/models.py: the tables of billing as records.
-- Money is in cents, a price in ten-thousandths (`decimal_places=4`), a day is its ordinal.
use opencloud_backend.Base.{ℕ, Bool, List, Text, txt}
use opencloud_backend.Base.Int.{ℤ}

pub data Resource : Type 0 where
  vcpu ram_gb ssd_gb hdd_gb elastic_ip snapshot_gb : Resource

-- The stored keys of `Resource`.
abbrev pub value : Resource → Text
value vcpu = txt "vcpu"
value ram_gb = txt "ram_gb"
value ssd_gb = txt "ssd_gb"
value hdd_gb = txt "hdd_gb"
value elastic_ip = txt "elastic_ip"
value snapshot_gb = txt "snapshot_gb"

abbrev pub label : Resource → Text
label vcpu = txt "vCPU"
label ram_gb = txt "RAM, GB"
label ssd_gb = txt "SSD, GB"
label hdd_gb = txt "HDD, GB"
label elastic_ip = txt "Elastic IP"
label snapshot_gb = txt "Snapshot storage, GB"

abbrev pub same_resource : Resource → Resource → Bool
same_resource vcpu vcpu = Bool.true
same_resource ram_gb ram_gb = Bool.true
same_resource ssd_gb ssd_gb = Bool.true
same_resource hdd_gb hdd_gb = Bool.true
same_resource elastic_ip elastic_ip = Bool.true
same_resource snapshot_gb snapshot_gb = Bool.true
same_resource _ _ = Bool.false

pub record TariffRate : Type 0 where
  pub resource : Resource
  pub price_per_month : ℕ

pub record Tariff : Type 0 where
  pub name : Text
  pub currency : Text
  pub account : Text
  pub is_active : Bool
  pub rates : List TariffRate

pub record UsageSnapshot : Type 0 where
  pub taken_on : ℕ
  pub account : Text
  pub domain_id : Text
  pub project_id : Text
  pub project_name : Text
  pub vms_total : ℕ
  pub vms_running : ℕ
  pub vcpus : ℕ
  pub ram_mb : ℕ
  pub ssd_gib : ℕ
  pub hdd_gib : ℕ
  pub unlabelled_gib : ℕ
  pub elastic_ips : ℕ
  pub snapshot_gib : ℕ
  pub backup_snapshot_gib : ℕ

pub record BillingProfile : Type 0 where
  pub account : Text
  pub legal_name : Text
  pub tax_id : Text
  pub address : Text
  pub contract : Text
  pub director : Text
  pub email : Text
  pub phone : Text

pub record InvoiceLine : Type 0 where
  pub resource : Resource
  pub line_label : Text
  pub unit : Text
  pub quantity : ℤ
  pub unit_price : ℕ
  pub amount : ℤ

-- What `f'СФ-{year}-{seq:04d}'` names: the text is determined by the two numbers and gives them.
pub record InvoiceNumber : Type 0 where
  pub year : ℕ
  pub seq : ℕ

-- The seller of the settings; a key that is missing or null is the empty text.
pub record Seller : Type 0 where
  pub name : Text
  pub tax_id : Text
  pub address : Text
  pub bank_account : Text

pub record Buyer : Type 0 where
  pub account : Text
  pub name : Text
  pub tax_id : Text
  pub address : Text
  pub contract : Text
  pub director : Text
  pub email : Text
  pub phone : Text

pub record Invoice : Type 0 where
  pub number : InvoiceNumber
  pub number_seq : ℕ
  pub account : Text
  pub domain_id : Text
  pub period : Text
  pub period_from : ℕ
  pub period_to : ℕ
  pub issued_at : ℕ
  pub issued_by : Text
  pub currency : Text
  pub subtotal : ℤ
  pub vat_rate : ℕ
  pub vat_amount : ℤ
  pub total : ℤ
  pub seller : Seller
  pub buyer : Buyer
  pub days_measured : ℕ
  pub days_in_period : ℤ
  pub lines : List InvoiceLine
