-- ===== src/Lib.antt =====
-- A model of the backend's own logic (apps/): what is measured, what it costs, what is invoiced, what
-- is read from the cloud and cached, and who may sign in to the cabinet and to the panel of the platform.
--
-- The daily collector (apps/billing/collector.py) sums the lists of the cloud per project and writes a
-- UsageSnapshot for each project and day. apps/billing/rates.py prices the snapshots of a period with
-- the price list of the account, and leaves scheduled backups out where apps/accounts/backups.py says
-- so. apps/billing/invoices.py makes a draft of the bill of a month, with the tax, and issues it under
-- a number. Operators of the platform issue invoices from a panel of their own, which they enter
-- through apps/platform_admin/auth_views.py with a password and a second factor, and which shows a
-- picture of the whole cluster (apps/platform_admin/snapshot.py). Users of an account sign in to the
-- cabinet with the cloud's own credentials (apps/authentication); what they see is read from the cloud
-- with their token through a cache (apps/integrations/zadara/resources.py), and an administrator of the
-- account reads and changes what is of that account (apps/admin_api), partly with the token of a
-- service account (apps/integrations/zadara/service.py).
--
-- Files:
--   Base          texts, integers, dictionaries and lists that the parts share
--   Accounts      Roles: roles.py (resolve_app_role). Backups: backups.py (is_backup, uncounted,
--                 counts_backups), AccountSettings of models.py
--   Billing       Model: models.py. Rates: rates.py (resolve_tariff, rate_map, quantities, cost_of,
--                 estimate_month). Vat, Documents and Invoices: invoices.py (split_vat; draft,
--                 serialize; next_number, issue). Collector: collector.py (measure_cluster, project_directory,
--                 capture). Tariffs and Live: views.py (AdminTariffView;
--                 _live_measurements)
--   Platform      Model: models.py (PlatformAdmin). Login: auth_views.py (LoginView,
--                 LoginVerifyView), tickets.py, totp.py, services.py (record). Permissions:
--                 permissions.py and authentication.py. Own: auth_views.py (LogoutView,
--                 PasswordChangeView). Snapshot: snapshot.py (_build, _totals, get) and media_totals of
--                 apps/integrations/zadara/resources.py
--   Cabinet       apps/authentication: Vault: vault.py, mfa.py. Login: views.py (LoginView, LogoutView,
--                 RefreshView), services.py. Password: views.py (the views of passwords). Networks:
--                 apps/networking/views.py
--   Admin         apps/admin_api/views.py and apps/common/tenancy.py (account_domain). Views: what an
--                 administrator is shown. Users, Changes: users are created, changed and deleted
--   Zadara        apps/integrations/zadara: Http: http.py (request). Auth, Grants: auth.py
--                 (authenticate, authenticate_totp, exchange_project, _parse_auth_body). Service:
--                 service.py. Password, Identity: password.py, identity.py. The others are
--                 resources.py: Cache (_cached_get, invalidate), Volumes (volume types, list_volumes,
--                 summarise_vm_disks), Rules (the firewall), Machines (list_vms, get_vm, vm_action,
--                 get_vm_console), Lists (the other lists, list_events, quotas), Metrics
--                 (_query_history)
-- Under each of these the child modules prove what they are named for, and Tests runs the theorems at
-- concrete inputs.
--
-- State is passed explicitly: a table is a list of rows, a request takes the tables and returns its
-- answer with the tables after it. The panel's World has the clock, the operators, the cache entries
-- with their times of expiry, the sessions and the log. Other transactions that commit while an
-- invoice is issued are an argument (Interference): for each attempt the rows that come before the
-- last number is read, and those between that and the insertion.
--
-- Money is whole cents, prices are ten-thousandths, the rate of the tax is hundredths of a percent,
-- and a quantity is counted in 1/1024 of its unit, so that every Decimal of the source is a whole
-- number; a quotient is rounded once, half up, as `quantize` does. Decimals are taken to be small
-- enough that Python's 28 digits do not round, and a float to carry the decimal it prints as. Text is
-- a list of code points; `lower` and `strip` are those of ASCII. Days are ordinals, times
-- are seconds. Loops are structural recursion; the only bounds are the source's own, the five attempts
-- of `issue` and the two retries of a request.
--
-- The password hashers, Fernet and pyotp are a parameter (External), with the database of characters
-- behind `isdigit` and `isalpha` (Characters), the lists of the cloud are
-- arguments, and a list that failed is `none`. The responses of the cloud are arguments, with the
-- headers and the JSON bodies (Base.Json) that the code reads; a list of the cloud is taken to be a list
-- of objects, an identifier a text or a number, and a null in an object to be a missing key. The
-- cabinet's login takes the cloud as an interface (Cloud), the views of an administrator what the
-- service account reads (Directory). Not modelled: the other views of the cabinet and the panel, which
-- assemble responses from these parts, logging, migrations and settings.
pub mod Base
pub mod Accounts
pub mod Admin
pub mod Billing
pub mod Cabinet
pub mod Platform
pub mod Zadara
