-- ===== src/Responder/Firewall.antt =====
-- internal/responder: what bans go to. `Responder` is the interface of responder.go over the state that
-- stands behind it (kernel sets, a fail2ban server), which is not modelled.
use logfort.Prelude.{String, Bool, true}

-- A method returns whether it succeeded, and the new state.
pub record Responder (F : Type 0) : Type 0 where
  pub name : String
  pub ban : String → F → Bool × F
  pub unban : String → F → Bool × F

-- NoopResponder (noop.go).
unfoldable pub noop_responder : (F : Type 0) → Responder F
noop_responder F = record { name = "noop"; ban = λ ip f. (true, f); unban = λ ip f. (true, f) }
