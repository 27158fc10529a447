-- ===== src/Ingest/Retry.antt =====
-- How internal/ingest/pipeline.go (Run) keeps a source going: its status, and the pause before it is
-- started again. Pauses are in seconds.
use logfort.Prelude.{
  ℕ, zero, suc, ◌*◌, String, ◌≡◌, refl, List, [], ◌∷◌, ltb, if◌then◌else◌, length,
}

-- How one call of Source.Start ends: without an error or because the context was cancelled, or with
-- an error.
pub data Ended : Type 0 where
  stopped : Ended
  broke : String → Ended

pub record SourceStatus : Type 0 where
  pub state : String
  pub error : String

pub record Retry : Type 0 where
  pub status : SourceStatus
  pub backoff : ℕ
  -- The pauses so far, the latest first.
  pub pauses : List ℕ

unfoldable pub starting : Retry
starting = record { status = record { state = "starting"; error = "" }; backoff = 1; pauses = [] }

-- One turn of the loop; the pause is not cancelled, and a source that has stopped is not started again.
unfoldable pub turn : Ended → Retry → Retry
turn stopped r = record r { status = record { state = "running"; error = "" } }
turn (broke why) r = record r {
  status = record { state = "error"; error = why };
  pauses = r.backoff ∷ r.pauses;
  backoff = (if ltb r.backoff 30 then r.backoff * 2 else r.backoff);
}

unfoldable pub turns : List Ended → Retry → Retry
unfolding turn
turns [] r = r
turns (stopped ∷ es) r = turn stopped r
turns (broke why ∷ es) r = turns es (turn (broke why) r)

-- The pause after so many earlier ones, in seconds.
abbrev pub pause_after : ℕ → ℕ
pause_after zero = 1
pause_after (suc zero) = 2
pause_after (suc (suc zero)) = 4
pause_after (suc (suc (suc zero))) = 8
pause_after (suc (suc (suc (suc zero)))) = 16
pause_after (suc (suc (suc (suc (suc n))))) = 32

abbrev pub schedule : ℕ → List ℕ
schedule zero = []
schedule (suc n) = pause_after n ∷ schedule n

next_pause :
    (n : ℕ)
    → (if ltb (pause_after n) 30 then pause_after n * 2 else pause_after n) ≡ pause_after (suc n)
next_pause zero = refl
next_pause (suc zero) = refl
next_pause (suc (suc zero)) = refl
next_pause (suc (suc (suc zero))) = refl
next_pause (suc (suc (suc (suc zero)))) = refl
next_pause (suc (suc (suc (suc (suc n))))) = refl

abbrev OnSchedule : Retry → Type 0
OnSchedule r = (r.backoff ≡ pause_after (length r.pauses)) × (r.pauses ≡ schedule (length r.pauses))

turn-OnSchedule : (e : Ended) (r : Retry) → OnSchedule r → OnSchedule (turn e r)
unfolding turn
turn-OnSchedule stopped r h = h
turn-OnSchedule (broke why) r (b, ps) = (rw b (next_pause (length r.pauses)), cc (b, ps))

turns-OnSchedule : (es : List Ended) (r : Retry) → OnSchedule r → OnSchedule (turns es r)
unfolding turns
turns-OnSchedule [] r h = h
turns-OnSchedule (stopped ∷ es) r h = turn-OnSchedule stopped r h
turns-OnSchedule (broke why ∷ es) r h =
    turns-OnSchedule es (turn (broke why) r) (turn-OnSchedule (broke why) r h)

-- A source that keeps failing is started again after 1, 2, 4, 8, 16 and then always 32 seconds.
pub turns_pauses :
    (es : List Ended) → let ps = (turns es starting).pauses in ps ≡ schedule (length ps)
unfolding starting
turns_pauses es = (turns-OnSchedule es starting (refl, refl)).1
