-- ===== src/Threat.antt =====
-- internal/threat: the blocklist of addresses and ranges.
pub mod Blocklist
pub mod Masking
pub mod Search
pub mod Fitting
pub mod Lookup
pub mod Tests
