-- ===== src/Main/Sweep.antt =====
-- reconcileBans and the sweep of runBanExpiry, of cmd/logfort/main.go. The context is cancelled before
-- the row at the position `stop`, or not at all where there are fewer rows.
use logfort.Prelude.{
  ℕ, ◌+◌, Bool, true, not, ◌&&◌, List, [], ◌∷◌, ◌==◌, if◌then◌else◌, is_some, take,
}
use logfort.Api.Server.{Server, unix, publish_event, record_event}
use logfort.Store.Rows.{BanRow, SqliteStore, ok, err}
use logfort.Store.Bans.{list_bans, list_expired_bans, unban_ip, has_expired}
use logfort.Parse.Event.{event_of}
use logfort.Responder.Firewall.{Responder}

module _ {F : Type 0} (resp : Responder F) (now : ℕ) where
  -- The rows that are applied again: this backend's, and not yet expired.
  unfoldable pub reapplied : BanRow → Bool
  reapplied b = b.source == resp.name && not (has_expired (unix now) b)

  -- One row: how many were applied, and the firewall.
  unfoldable pub reconcile_row : BanRow → ℕ × F → ℕ × F
  unfolding reapplied
  reconcile_row b (n, f) =
      if reapplied b
      then (let (done, f') = resp.ban b.ip f in (if done then n + 1 else n, f'))
      else (n, f)

  unfoldable pub reconcile_rows : List BanRow → ℕ × F → ℕ × F
  unfolding reconcile_row
  reconcile_rows [] r = r
  reconcile_rows (b ∷ bs) r = reconcile_rows bs (reconcile_row b r)

  -- reconcileBans: nothing where the list of bans cannot be read.
  unfoldable pub reconcile_bans : ℕ → SqliteStore → F → ℕ × F
  unfolding reconcile_rows
  reconcile_bans stop st f = elim (list_bans true st).0 [
    | err e ↦ (0, f)
    | ok bans ↦ reconcile_rows (take stop bans) (0, f)
  ]

  -- One row of the sweep: the firewall first, so that a row whose block stays is tried again.
  unfoldable pub sweep_row : BanRow → Server F → Server F
  sweep_row b s =
      let (lifted, f) = resp.unban b.ip s.firewall in
      let (e, st) = unban_ip (unix now) b.ip s.store in
      let ev = event_of (unix now) b.ip "unban" "expiry" in
      if not lifted
      then record s { firewall = f }
      else if is_some e
      then record s { firewall = f; store = st }
      else publish_event ev (record_event ev (record s { firewall = f; store = st }))

  unfoldable pub sweep_rows : List BanRow → Server F → Server F
  unfolding sweep_row
  sweep_rows [] s = s
  sweep_rows (b ∷ bs) s = sweep_rows bs (sweep_row b s)

  unfoldable pub sweep : ℕ → Server F → Server F
  unfolding sweep_rows
  sweep stop s =
      let (expired, st) = list_expired_bans (unix now) s.store in
      elim expired [
        | err e ↦ record s { store = st }
        | ok bans ↦ sweep_rows (take stop bans) (record s { store = st })
      ]
