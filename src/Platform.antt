-- ===== src/Platform.antt =====
-- apps/platform_admin: the operators of the platform, their sign-in in two steps, what each role
-- may do, and the picture of the cluster.
pub mod Model
pub mod Login
pub mod Permissions
pub mod Own
pub mod Snapshot
