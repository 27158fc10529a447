-- ===== src/Notify.antt =====
-- internal/notify: which event makes which message, and when.
pub mod Rules
pub mod RuleLaws
pub mod Parse
pub mod ParseLaws
pub mod Dispatcher
pub mod DispatcherLaws
pub mod Digest
pub mod Tests
