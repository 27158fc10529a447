-- ===== src/Lib.antt =====
-- A verification library of logfort, which reads the logs of a server, keeps the attacks that it finds in
-- SQLite tables, shows them, and bans addresses through a firewall.
--
-- The parts. `internal/parse` makes an event of a log line; `internal/ingest` hands the lines of its
-- sources to workers that parse, enrich and store them (`internal/store`) and pass each stored event to
-- the server (`internal/api`), which streams it, notifies (`internal/notify`), and may ban its address
-- through a responder (`internal/responder`: nftables or fail2ban).
--
-- Files.
--   Prelude: lists, options and integers over the native numbers, sorting, association lists.
--   Go: what is used of Go's standard library. Go.Net.Net is a parameter: the functions of net and
--     net/netip that read and print addresses. Go.Sample instantiates it for the tests.
--   Api.Hub: internal/api/hub.go as steps of the hub and of its callers in any order. HubChannels, HubLaws and
--     HubLeak hold proofs, HubTests runs.
--   Api.Settings, Api.SettingsHandler: handlePostSettings of internal/api/api.go: the draft of the configuration, and
--     what is done with it, over set_jail as a parameter. SettingsRefusals, SettingsSteps,
--     SettingsDraft, SettingsDispatchers, SettingsLaws and SettingsFaults hold proofs, SettingsTests runs. Go.Format has strconv.FormatInt and strings.Join.
--   Api.StatsCache: handleStats, handleMap and the cache of internal/api/api.go, with StatsCacheLaws; what the store
--     answers to a request is given with the request.
--   Api.Queries, Api.Exports: eventQueryFromRequest, handleEvents and the exports of internal/api/api.go, with QueryLaws,
--     ExportLaws and ExportTests.
--   Parse: internal/parse. Event has event.go, Patterns, Services and Lines parser.go: each regular expression is a
--     term that Go.Regexp matches the way package regexp does (leftmost, the first alternative). A
--     Calendar is a parameter: how package time reads dates. Sshd holds a proof.
--   Store.Rows, Store.Bans, Store.Events: internal/store/store.go and sqlite.go; a table is the list of
--     its rows, and each SQL statement is the function on rows that its text describes. `faults` says
--     which of the next statements fail. Store.OneBan, BanLaws, Dedup and Listing hold proofs.
--   Responder.Allowlist: Allowlist, ParseAllowlist, SetExtra, Contains, IsPrivate and IsValid of
--     internal/responder/responder.go. Responder.Firewall: the interface Responder.
--   Api.RateLimiter, Api.Server, Api.Bans, Api.AutoBan: internal/api/api.go (rateLimiter; Server,
--     normalizeIP, clientIP; handleBanPost, handleUnbanPost; AutoBanEvent, ThreatBanEvent and their
--     background parts). Api.BanLaws, AutoBanLaws and AutoBanSteps hold proofs.
--     Api.Orphans and Main.Covered relate the firewall to the bans table.
--   Ingest.Pipeline: the workers of internal/ingest/pipeline.go; its runs are lists of steps (a line is
--     taken, a hook runs). Ingest.Retry: how Run starts a source again. Ingest.Once holds proofs.
--   Main: cmd/logfort/main.go. Sweep has reconcileBans and runBanExpiry's sweep, Watch the ticks of
--     runVitalsAlerts, runCertWatch and runPortsWatch, Ticks those of runRetention and runF2BEnforce and
--     the publish hook. SweepLaws, Restore, WatchLaws, TickLaws and Covered hold proofs.
--   Notify: internal/notify. Rules has the rules of rules.go, Parse how they are read, Dispatcher New,
--     dispatch, SendTest and SendAlert of dispatcher.go, Digest the schedule of digest.go with the
--     proof that one turn of its loop is enough. RuleLaws, ParseLaws and DispatcherLaws hold proofs. A
--     match of a threshold is in two steps, since other dispatches may come between. Fmt is a parameter: what
--     package fmt prints.
--   Threat.Blocklist: parse and Lookup of internal/threat/threat.go; the functions of netip that read an
--     address or a range are parameters. Masking, Search, Fitting and Lookup hold the proof.
--   Config.Overlay: SplitList and OverlaySettings of internal/config/config.go. OverlayLaws holds proofs.
--   F2b: internal/f2b. Unicode, Value, Machine, Opcode, Actions, Step and Unpickle have pickle.go: the text of
--     a command, the values and the memory they live in (a slice is an address and a length, so append may
--     write into an array that another slice shares), the machine and its opcodes. A loop of unpickle has
--     as many turns as the data has bytes and one more, which is enough. Client has client.go over a script
--     of what the socket returns, Manager manager.go over Exec as a parameter. Forward, Steps, Ends,
--     ReadBack, Numbers, Framing, Numerals, Jail and UnicodeLaws hold proofs. Main.Enforce puts
--     runF2BEnforce on top of the manager.
--   Tests: runs and examples, also in Parse, Store, Api, Ingest, Main, Notify, Threat, Config and F2b.
--
-- Conventions. Times are Unix seconds, or nanoseconds where the code compares instants; they are not
-- before 1970. A handler reads the clock once. Texts are lists of characters. The texts of errors are
-- shortened. float64 is replaced by exact arithmetic. In the digests' schedule AddDate is 86400
-- seconds a day, so a change of the zone's offset is left out; for the retention it is a parameter. A ban's
-- end is computed for at most 292 years, the range of a time.Duration. Work in goroutines is a list of pending jobs that run in any order.
--
-- Not modelled: HTTP, SSE, TLS, sockets, files and SQL parsing are I/O; the kernel's and fail2ban's
-- sets stand behind a parameter of the responder; package json reads the body of a request; dates, time.ParseDuration and GeoIP
-- databases are parameters or left out.
pub mod Prelude
pub mod Go
pub mod Parse
pub mod Store
pub mod Responder
pub mod Api
pub mod Ingest
pub mod Main
pub mod Notify
pub mod Threat
pub mod Config
pub mod F2b
