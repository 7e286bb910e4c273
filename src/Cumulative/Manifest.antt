-- ===== src/Cumulative/Manifest.antt =====
-- The durable manifest: `load`, `atomic_write`, `validate_or_fail` and `resume_or_create` of
-- wevibe_bench/cumulative/manifest.py. A written document stands by the JSON value that it is.
pub mod Laws
use wevibe_bench.Prelude.{
  Bool, true, false, not, Option, none, some, List, [], String, str_eq, Result, ok, raise, ◌>>=◌,
  ◌>>◌, raise_if,
}
use wevibe_bench.Prelude.Int.{ℤ, pos, eqb_ℤ}
use wevibe_bench.Prelude.Json.{Json, obj, Fields, Builtins, as_mapping}
use wevibe_bench.Cumulative.Errors.{
  Error, not_an_object, schema_mismatch, roster_drift, seed_drift, task_drift, chunk_plan_drift,
}
use wevibe_bench.Cumulative.Records.{
  RosterEntry, ScheduledSession, CumulativeManifest, cumulative_schema_version, hash_roster,
}
use wevibe_bench.Cumulative.Records.Codec.{manifest_to_dict, manifest_from_dict}
use wevibe_bench.Cumulative.Files.{
  FileState, exists, read_json, Disk, Stage, write_replacing, checkpoint_stages,
}

-- The arguments of a run that `resume_or_create` and the sequencer take.
pub record Plan : Type 0 where
  pub roster : List RosterEntry
  pub seed : ℤ
  pub task : String
  pub org_id : String
  pub config_fingerprint : String
  pub run_context : Option Fields
  pub chunk_plan_hash : String

-- `atomic_write`
unfoldable pub atomic_write :
    (Stage → Bool) → CumulativeManifest → Disk → Result Error (Unit {0}) × Disk
unfolding manifest_to_dict write_replacing
atomic_write fails m d = write_replacing fails checkpoint_stages (obj (manifest_to_dict m)) d

module _ (py : Builtins) where
  -- `load`
  unfoldable pub load : FileState → Result Error CumulativeManifest
  unfolding read_json manifest_from_dict
  load file = do
    payload ← read_json file
    elim (as_mapping payload) [ none ↦ raise not_an_object | some d ↦ manifest_from_dict py d ]

  -- `validate_or_fail`
  unfoldable pub validate_or_fail : CumulativeManifest → Plan → Result Error (Unit {0})
  unfolding hash_roster
  validate_or_fail m plan = do
    raise_if (not (eqb_ℤ m.schema_version cumulative_schema_version)) schema_mismatch
    raise_if (not (str_eq m.roster_hash (hash_roster py plan.roster))) roster_drift
    raise_if (not (eqb_ℤ m.seed plan.seed)) seed_drift
    raise_if (not (str_eq m.task plan.task)) task_drift
    raise_if (not (str_eq m.chunk_plan_hash plan.chunk_plan_hash)) chunk_plan_drift

  -- the manifest of a fresh run
  unfoldable pub created_manifest : Plan → List ScheduledSession → String → CumulativeManifest
  unfolding hash_roster
  created_manifest plan schedule now = record {
    created_at = now;
    task = plan.task;
    org_id = plan.org_id;
    roster = plan.roster;
    roster_hash = hash_roster py plan.roster;
    seed = plan.seed;
    config_fingerprint = plan.config_fingerprint;
    schedule = schedule;
    session_records = [];
    current_index = pos 0;
    updated_at = now;
    schema_version = cumulative_schema_version;
    run_context = plan.run_context;
    chunk_plan_hash = plan.chunk_plan_hash;
  }

  -- `resume_or_create`, with the text of the clock and the faults of the write
  unfoldable pub resume_or_create :
      Plan
      → List ScheduledSession
      → String
      → (Stage → Bool)
      → Disk
      → Result Error CumulativeManifest × Disk
  unfolding load validate_or_fail created_manifest atomic_write
  resume_or_create plan schedule now fails d = elim (exists d.target) [
    | true ↦ (load d.target >>= (λ m. validate_or_fail m plan >> ok m), d)
    | false ↦
        let m = created_manifest plan schedule now in
        let (done, d') = atomic_write fails m d in (done >> ok m, d')
  ]
