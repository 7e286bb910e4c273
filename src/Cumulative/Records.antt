-- ===== src/Cumulative/Records.antt =====
-- The records of wevibe_bench/cumulative/types.py and manifest.py that a run checkpoints.
pub mod Codec
use wevibe_bench.Prelude.{ℕ, Bool, true, false, Option, none, some, List, [], ◌∷◌, map, String}
use wevibe_bench.Prelude.Int.{ℤ, pos}
use wevibe_bench.Prelude.Json.{Json, null, str, arr, obj, Fields, Builtins, of_list}
use wevibe_bench.Cumulative.Phase.{SessionPhase, value}
use wevibe_bench.Cumulative.Gates.{WalkGateVerdictRecord}

abbrev pub cumulative_schema_version : ℤ
cumulative_schema_version = pos 1

pub record RosterEntry : Type 0 where
  pub model : String
  pub role : String
  pub provider_pin : String
  pub config_identity : Fields

pub record ScheduledSession : Type 0 where
  pub sequence_index : ℤ
  pub model : String
  pub provider_pin : String
  pub memory_mode : String
  pub phase_group : String
  pub roster_index : ℤ

-- The fields from `run_id` to `session_fp`, and the last four, are read back from a checkpoint as
-- they stand there, so they are values of any kind, `null` for `None`.
pub record SessionRecord : Type 0 where
  pub sequence_index : ℤ
  pub model : String
  pub provider_pin : String
  pub memory_mode : String
  pub phase_group : String
  pub phase : String
  pub run_id : Json
  pub run_label : Json
  pub session_id : Json
  pub org_id : Json
  pub extraction_job_id : Json
  pub session_fp : Json
  pub candidate_refs : List Fields
  pub extraction_candidate_count : Option ℤ
  pub progress : Option Fields
  pub walk_gates : List WalkGateVerdictRecord
  pub decision_applied : Bool
  pub corpus_delta : Option ℤ
  pub complete_gate : Bool
  pub extracted_from : Bool
  pub retry_count : ℤ
  pub resume_marker : Json
  pub error : Json
  pub started_at : Json
  pub updated_at : Json

-- `SessionRecord(...)` with the defaults of its fields, as the sequencer calls it
unfoldable pub fresh_record : ScheduledSession → SessionPhase → String → SessionRecord
fresh_record s p org = record {
  sequence_index = s.sequence_index;
  model = s.model;
  provider_pin = s.provider_pin;
  memory_mode = s.memory_mode;
  phase_group = s.phase_group;
  phase = value p;
  run_id = null;
  run_label = null;
  session_id = null;
  org_id = str org;
  extraction_job_id = null;
  session_fp = null;
  candidate_refs = [];
  extraction_candidate_count = none;
  progress = none;
  walk_gates = [];
  decision_applied = false;
  corpus_delta = none;
  complete_gate = false;
  extracted_from = false;
  retry_count = pos 0;
  resume_marker = null;
  error = null;
  started_at = null;
  updated_at = null;
}

-- `set_phase`, with the text of the clock
unfoldable pub set_phase : SessionPhase → String → SessionRecord → SessionRecord
set_phase p now r = record r { phase = value p; updated_at = str now }

pub record CumulativeManifest : Type 0 where
  pub created_at : String
  pub task : String
  pub org_id : String
  pub roster : List RosterEntry
  pub roster_hash : String
  pub seed : ℤ
  pub config_fingerprint : String
  pub schedule : List ScheduledSession
  pub session_records : List SessionRecord
  pub current_index : ℤ
  pub updated_at : String
  pub schema_version : ℤ
  pub run_context : Option Fields
  pub chunk_plan_hash : String

module _ (py : Builtins) where
  -- `RosterEntry.canonical`
  unfoldable pub canonical : RosterEntry → Json
  canonical e = arr (
      of_list (
        str e.model
        ∷ str e.role
        ∷ str e.provider_pin
        ∷ str (py.dumps (obj e.config_identity))
        ∷ []))

  -- `roster_hash`
  unfoldable pub hash_roster : List RosterEntry → String
  unfolding canonical
  hash_roster roster = py.sha256 (py.dumps (arr (of_list (map canonical roster))))
