-- ===== src/Config.antt =====
-- internal/config: the settings of the database laid over the environment's.
pub mod Overlay
pub mod OverlayLaws
pub mod Tests
