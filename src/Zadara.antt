-- ===== src/Zadara.antt =====
-- apps/integrations/zadara: the requests to the cloud and the sign-in there.
pub mod Http
pub mod Auth
pub mod Cache
pub mod Volumes
pub mod Rules
pub mod Machines
pub mod Lists
pub mod Metrics
pub mod Service
pub mod Grants
pub mod Password
pub mod Identity
mod Tests
