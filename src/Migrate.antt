-- ===== src/Migrate.antt =====
-- The migration program `gnosis_vpn-migrate`: its file system, the migration of an identity and the
-- other commands on it, what a run reports, and the upload of the logs (gnosis_vpn-migrate/src/).
pub mod Outcome
pub mod Network
pub mod Dirs
pub mod Networks
pub mod Store
pub mod Layout
pub mod User
pub mod Nofollow
pub mod Relocate
pub mod Legacy
pub mod Sweep
pub mod Target
pub mod Staging
pub mod Aside
pub mod Identity
pub mod Logging
pub mod Command
pub mod Upload
mod Tests
