-- ===== src/Cabinet.antt =====
-- The cabinet: apps/authentication, its login with an account of the cloud and what becomes of the token,
-- and apps/networking.
mod Tests
pub mod Vault
pub mod Login
pub mod Password
pub mod Networks
