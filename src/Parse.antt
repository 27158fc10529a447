-- ===== src/Parse.antt =====
-- internal/parse: the event record (event.go) and the parser of log lines (parser.go).
pub mod Event
pub mod Patterns
pub mod Services
pub mod Lines
pub mod Sshd
pub mod Tests
