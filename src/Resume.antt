-- ===== src/Resume.antt =====
-- The resumable download (gnosis_vpn-update/src/update/download.rs). A run goes over a script: for
-- each attempt, how long the server takes and what it answers to a request. Durations and the clock
-- are in nanoseconds.
pub mod File
pub mod Session
pub mod Loop
mod Tests
