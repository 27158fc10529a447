-- ===== src/Ingest/Tests.antt =====
-- Runs of the pipeline on two lines, one of them read twice.
use logfort.Prelude.{
  ◌+◌, ◌≤◌, String, ◌≡◌, refl, none, List, [], ◌∷◌, arith, ◌==◌, if◌then◌else◌, length,
}
use logfort.Store.Events.{insert_event, insert_row, mirror}
use logfort.Parse.Event.{event_of}
use logfort.Ingest.Pipeline.{
  Parsed, no_match, parsed_event, Pipeline, Act, line_arrives, hook_runs, run, lines_taken,
}
use logfort.Ingest.Once.{Once, run-Once, run_counts}

abbrev quiet : Pipeline
quiet = record {
  store = record { events = []; bans = []; settings = []; faults = [] };
  parsed = 0;
  unparsed = 0;
  waiting = [];
  hooked = [];
}

abbrev reader : String → Parsed
reader line =
    if line == "Failed password"
    then parsed_event (event_of 7 "8.8.8.8" "failed_password" "sshd")
    else no_match

abbrev lines : List Act
lines =
    line_arrives "Failed password"
    ∷ line_arrives "noise"
    ∷ line_arrives "Failed password"
    ∷ hook_runs 0
    ∷ []

quiet-Once : Once quiet
unfolding Once
quiet-Once r = omega arith

run-Once_example : Once (run none none reader lines quiet)
run-Once_example = run-Once none none reader lines quiet quiet-Once

run_counts_example :
    let q = run none none reader lines quiet in
    (q.parsed + q.unparsed ≡ 3) × (length q.waiting + length q.hooked ≤ q.parsed)
run_counts_example = run_counts none none reader lines quiet (omega arith)

run_hooked : length (run none none reader lines quiet).hooked ≡ 1
unfolding run logfort.Ingest.Pipeline.stored insert_event insert_row mirror
    logfort.Ingest.Pipeline.enriched logfort.Store.Events.same_key logfort.Store.Events.row_of
run_hooked = refl
