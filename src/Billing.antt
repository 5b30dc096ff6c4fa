-- ===== src/Billing.antt =====
-- apps/billing: measurements, price lists, the bill of a period and the invoice.
pub mod Model
pub mod Rates
pub mod Tariffs
pub mod Live
pub mod Collector
mod Tests
pub mod Vat
pub mod Documents
pub mod Invoices
