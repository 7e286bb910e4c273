-- ===== src/Cumulative/Errors.antt =====
-- The exceptions of the cumulative benchmark, told apart by the place that raises them.
use wevibe_bench.Prelude.{String}

pub data Error : Type 0 where
  -- `d[key]` without the key, an index outside a list, and a value that `int` or an iteration refuses;
  -- an int beyond the floats
  missing_key : String → Error
  index_error bad_value overflow_error : Error
  -- wevibe_bench/cumulative/ordering.py
  empty_roster negative_budget : Error
  unknown_model : String → Error
  -- wevibe_bench/cumulative/manifest.py
  not_an_array entry_not_an_object not_an_object : Error
  schema_mismatch roster_drift seed_drift task_drift chunk_plan_drift : Error
  -- wevibe_bench/cumulative/sequencer.py
  org_drift config_drift schedule_drift negative_index index_exceeds_records index_drift : Error
  unknown_phase no_stopping_gate : Error
  -- a file operation, a missing file, and whatever an injected runner raises
  os_error file_not_found file_exists runner_error : Error
