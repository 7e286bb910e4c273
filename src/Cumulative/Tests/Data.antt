-- ===== src/Cumulative/Tests/Data.antt =====
-- A small run: one model, one session with memory off and one with memory on.
use wevibe_bench.Prelude.{ℕ, Bool, false, Option, none, some, List, [], ◌∷◌, String, ok}
use wevibe_bench.Prelude.Int.{ℤ, pos}
use wevibe_bench.Prelude.Json.{Json, null, float, end, Builtins}
use wevibe_bench.Cumulative.Phase.{prepare_fixture}
use wevibe_bench.Cumulative.Gates.{WalkGateVerdictRecord}
use wevibe_bench.Cumulative.Records.{
  RosterEntry, ScheduledSession, SessionRecord, CumulativeManifest, fresh_record, hash_roster,
  cumulative_schema_version,
}
use wevibe_bench.Cumulative.Ordering.{Random}
use wevibe_bench.Cumulative.Files.{missing}
use wevibe_bench.Cumulative.Manifest.{Plan}
use wevibe_bench.Cumulative.Artifacts.{no_stream}
use wevibe_bench.Cumulative.Sequencer.Monad.{Env}

abbrev pub toy_py : Builtins
toy_py = record {
  str_of = λ v. "";
  int_of = λ s. none;
  float_of = λ v. some v;
  float_sum = λ vs. float (pos 0) 0;
  divide = λ a b. null;
  dumps = λ v. "{}";
  sha256 = λ s. s;
}

abbrev pub toy_rng : Random
toy_rng = record { randrange = λ text size k. 0; randrange_lt = λ text size k h. h }

abbrev pub toy_entry : RosterEntry
toy_entry = record { model = "m"; role = "worker"; provider_pin = "p"; config_identity = end }

abbrev pub toy_roster : List RosterEntry
toy_roster = toy_entry ∷ []

abbrev pub toy_plan : Plan
toy_plan = record {
  roster = toy_roster;
  seed = pos 7;
  task = "backgammon";
  org_id = "org";
  config_fingerprint = "c";
  run_context = none;
  chunk_plan_hash = "";
}

abbrev pub toy_session : ℕ → String → String → ScheduledSession
toy_session n mode group = record {
  sequence_index = pos n;
  model = "m";
  provider_pin = "p";
  memory_mode = mode;
  phase_group = group;
  roster_index = pos 0;
}

abbrev pub toy_schedule : List ScheduledSession
toy_schedule = toy_session 0 "off" "off_baseline" ∷ toy_session 1 "on" "on" ∷ []

abbrev pub off_record : SessionRecord
off_record = fresh_record (toy_session 0 "off" "off_baseline") prepare_fixture "org"

abbrev pub on_record : SessionRecord
on_record = fresh_record (toy_session 1 "on" "on") prepare_fixture "org"

abbrev pub toy_manifest : ℤ → List SessionRecord → CumulativeManifest
toy_manifest index records = record {
  created_at = "t";
  task = "backgammon";
  org_id = "org";
  roster = toy_roster;
  roster_hash = hash_roster toy_py toy_roster;
  seed = pos 7;
  config_fingerprint = "c";
  schedule = toy_schedule;
  session_records = records;
  current_index = index;
  updated_at = "t";
  schema_version = cumulative_schema_version;
  run_context = none;
  chunk_plan_hash = "";
}

abbrev pub toy_env : Env
toy_env = record {
  World = Unit {0};
  clock = λ w. ("t", w);
  faults = λ w. (λ s. false, w);
  prepare_fixture = λ r w. (ok tt, r, w);
  run_session = λ r w. (ok null, r, w);
  artifacts = λ w. (missing, no_stream);
}

abbrev pub toy_gate : String → String → Bool → WalkGateVerdictRecord
toy_gate name verdict stops = record {
  ordinal = pos 1;
  gate = name;
  verdict = verdict;
  evidence = end;
  stops_walk = stops;
  expected_producer_model_ids = [];
  observed_producer_model_ids = [];
}

abbrev pub no_digits : String → Bool
no_digits s = false

abbrev pub no_json : String → Option Json
no_json s = none
