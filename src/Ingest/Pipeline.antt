-- ===== src/Ingest/Pipeline.antt =====
-- The workers of internal/ingest/pipeline.go (Run): a worker parses a line, enriches the event, stores
-- it, and gives it to the publish hook. The store runs one insertion at a time; between it and the hook
-- other workers run. `geo` and `blocklist` are what the pipeline was wired with; `parse_line` is
-- parse.ParseLine.
use logfort.Prelude.{
  ℕ, zero, suc, ◌+◌, String, Option, none, some, List, [], ◌∷◌, ◌==◌, if◌then◌else◌, is_some,
}
use logfort.Store.Rows.{SqliteStore}
use logfort.Store.Events.{insert_event}
use logfort.Parse.Event.{Event, GeoInfo}

-- What parse.ParseLine returns: ErrNoMatch, another error, or an event.
pub data Parsed : Type 0 where
  no_match : Parsed
  malformed : Parsed
  parsed_event : Event → Parsed

-- `waiting` are the stored events whose hook has not run, `hooked` those whose hook has, the latest
-- first.
pub record Pipeline : Type 0 where
  pub store : SqliteStore
  pub parsed : ℕ
  pub unparsed : ℕ
  pub waiting : List Event
  pub hooked : List Event

-- A duplicate and an event that the database rejected are not published.
unfoldable pub stored : Event → Pipeline → Pipeline
stored ev p =
    let (e, st) = insert_event ev p.store in
    if is_some e then record p { store = st } else record p { store = st; waiting = ev ∷ p.waiting }

module _ (geo : Option (String → GeoInfo)) (blocklist : Option (String → String)) where
  abbrev with_geo : Event → Event
  with_geo ev = elim geo [
    | none ↦ ev
    | some lookup ↦ if ev.ip == "" then ev else record ev { geo = lookup ev.ip }
  ]

  abbrev with_threat : Event → Event
  with_threat ev = elim blocklist [
    | none ↦ ev
    | some lookup ↦ if ev.ip == "" then ev else record ev { threat = lookup ev.ip }
  ]

  unfoldable pub enriched : Event → Event
  enriched ev = with_threat (with_geo ev)

  -- The body of a worker's loop, as far as the hook.
  unfoldable pub handle_parsed : Parsed → Pipeline → Pipeline
  handle_parsed no_match p = record p { unparsed = p.unparsed + 1 }
  handle_parsed malformed p = record p { unparsed = p.unparsed + 1 }
  handle_parsed (parsed_event ev) p = stored (enriched ev) (record p { parsed = p.parsed + 1 })

  unfoldable pub take_line : (String → Parsed) → String → Pipeline → Pipeline
  unfolding handle_parsed
  take_line parse_line line p = handle_parsed (parse_line line) p

unfoldable pub nth : ℕ → List Event → Option Event
nth i [] = none
nth zero (e ∷ es) = some e
nth (suc i) (e ∷ es) = nth i es

unfoldable pub remove : ℕ → List Event → List Event
remove i [] = []
remove zero (e ∷ es) = es
remove (suc i) (e ∷ es) = e ∷ remove i es

-- The worker that holds the event at a position gives it to the hook.
unfoldable pub run_hook : ℕ → Pipeline → Pipeline
unfolding nth remove
run_hook i p = elim (nth i p.waiting) [
  | none ↦ p
  | some e ↦ record p { waiting = remove i p.waiting; hooked = e ∷ p.hooked }
]

pub data Act : Type 0 where
  line_arrives : String → Act
  hook_runs : ℕ → Act

module _ (geo : Option (String → GeoInfo)) (blocklist : Option (String → String))
    (parse_line : String → Parsed) where
  unfoldable pub act : Act → Pipeline → Pipeline
  unfolding take_line run_hook
  act (line_arrives line) p = take_line geo blocklist parse_line line p
  act (hook_runs i) p = run_hook i p

  unfoldable pub run : List Act → Pipeline → Pipeline
  unfolding act
  run [] p = p
  run (a ∷ acts) p = run acts (act a p)

-- How many lines the workers took.
abbrev pub lines_taken : List Act → ℕ
lines_taken [] = 0
lines_taken (line_arrives line ∷ acts) = suc (lines_taken acts)
lines_taken (hook_runs i ∷ acts) = lines_taken acts
