-- ===== src/Api.antt =====
-- internal/api: the server's state and its handlers (api.go).
pub mod RateLimiter
pub mod Settings
pub mod SettingsHandler
pub mod SettingsRefusals
pub mod SettingsSteps
pub mod SettingsDraft
pub mod SettingsDispatchers
pub mod SettingsLaws
pub mod SettingsFaults
pub mod SettingsTests
pub mod Hub
pub mod HubChannels
pub mod HubLaws
pub mod HubLeak
pub mod HubTests
pub mod Server
pub mod Queries
pub mod StatsCache
pub mod StatsCacheLaws
pub mod Exports
pub mod QueryLaws
pub mod ExportLaws
pub mod ExportTests
pub mod Bans
pub mod BanLaws
pub mod AutoBan
pub mod AutoBanLaws
pub mod AutoBanSteps
pub mod Orphans
pub mod Sample
pub mod Tests
