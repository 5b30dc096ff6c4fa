-- ===== src/Accounts.antt =====
-- apps/accounts: the roles that the cloud grants, the settings of an account, and the rule that
-- tells a scheduled backup from a snapshot of the client's own.
pub mod Roles
pub mod Backups
