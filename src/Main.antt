-- ===== src/Main.antt =====
-- cmd/logfort/main.go: the background loops of the daemon, each as the function that one tick runs.
pub mod Sweep
pub mod SweepLaws
pub mod Restore
pub mod Watch
pub mod WatchLaws
pub mod Ticks
pub mod Enforce
pub mod TickLaws
pub mod Covered
pub mod Tests
