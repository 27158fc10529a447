-- ===== src/Store.antt =====
-- internal/store: the SQLite tables as lists of rows (store.go, sqlite.go and the migrations).
pub mod Rows
pub mod Bans
pub mod Events
pub mod OneBan
pub mod BanLaws
pub mod Dedup
pub mod Listing
pub mod Others
pub mod Tests
