-- ===== src/F2b.antt =====
-- The client of fail2ban, internal/f2b.
pub mod Unicode
pub mod UnicodeLaws
pub mod Value
pub mod Machine
pub mod Opcode
pub mod Actions
pub mod Step
pub mod Unpickle
pub mod Forward
pub mod Steps
pub mod Ends
pub mod ReadBack
pub mod Numbers
pub mod Client
pub mod Manager
pub mod Framing
pub mod Numerals
pub mod Jail
pub mod Sample
pub mod Tests
