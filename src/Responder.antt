-- ===== src/Responder.antt =====
-- internal/responder: the allowlist and the firewall that bans go to (responder.go, noop.go).
pub mod Allowlist
pub mod Firewall
