-- ===== src/Cumulative/Manifest/Laws.antt =====
-- What a run finds when it starts: its own file is taken up again, another run's is refused.
use wevibe_bench.Prelude.{
  ◌≡◌, ◌↔◌, Bool, true, none, List, String, arith, ok, raise, eq_iff, inl, inr, Result-cases,
  str_eq, if◌then◌else◌, any, ◌∷◌, All,
}
use wevibe_bench.Prelude.Int.{eqb_ℤ, eqb_ℤ_iff}
use wevibe_bench.Prelude.Json.{obj, Builtins}
use wevibe_bench.Cumulative.Errors.{Error, os_error}
use wevibe_bench.Cumulative.Gates.Laws.{AllNormal}
use wevibe_bench.Cumulative.Records.{
  ScheduledSession, CumulativeManifest, cumulative_schema_version, hash_roster,
}
use wevibe_bench.Cumulative.Records.Codec.{manifest_to_dict}
use wevibe_bench.Cumulative.Records.Codec.RoundTrip.{manifest_round_trip}
use wevibe_bench.Cumulative.Files.{
  FileState, missing, holds, read_json, Disk, Stage, make_parent, create_temporary,
  checkpoint_stages,
}
use wevibe_bench.Cumulative.Files.Laws.{left_over, write_replacing_checkpoint}
use wevibe_bench.Cumulative.Manifest.{
  Plan, atomic_write, load, validate_or_fail, created_manifest, resume_or_create,
}

-- a disk with a file and no temporary one
abbrev pub disk : FileState → Disk
disk file = record { target = file; temporary = none }

abbrev pub saved : CumulativeManifest → FileState
saved m = holds (obj (manifest_to_dict m))

abbrev pub NormalGates : CumulativeManifest → Type 0
NormalGates m = All (λ r. AllNormal r.walk_gates) m.session_records

module _ (py : Builtins) where
  -- What a plan and a manifest have to agree on.
  pub record Fits (m : CumulativeManifest) (plan : Plan) : Type 0 where
    pub schema : m.schema_version ≡ cumulative_schema_version
    pub roster : m.roster_hash ≡ hash_roster py plan.roster
    pub seed : m.seed ≡ plan.seed
    pub task : m.task ≡ plan.task
    pub chunk_plan : m.chunk_plan_hash ≡ plan.chunk_plan_hash

  -- The validation passes exactly if manifest and plan agree on schema version, roster hash, seed,
  -- task and chunk-plan hash.
  pub validate_or_fail-Fits :
      (m : CumulativeManifest) (plan : Plan) → (validate_or_fail py m plan ≡ ok tt) ↔ Fits m plan
  unfolding validate_or_fail
  validate_or_fail-Fits m plan = (
    λ h. record {
      schema = ground (arith, iffs.0);
      roster = ground (arith, iffs.0, iffs.1);
      seed = ground (arith, iffs.0, iffs.1, iffs.2);
      task = ground (arith, iffs.0, iffs.1, iffs.2, iffs.3);
      chunk_plan = ground (arith, iffs.0, iffs.1, iffs.2, iffs.3, iffs.4);
    },
    λ f. ground (arith, iffs.0, iffs.1, iffs.2, iffs.3, iffs.4),
  )
    where
      iffs :
          ((eqb_ℤ m.schema_version cumulative_schema_version ≡ true)
            ↔ (m.schema_version ≡ cumulative_schema_version))
          × ((str_eq m.roster_hash (hash_roster py plan.roster) ≡ true)
              ↔ (m.roster_hash ≡ hash_roster py plan.roster))
          × ((eqb_ℤ m.seed plan.seed ≡ true) ↔ (m.seed ≡ plan.seed))
          × ((str_eq m.task plan.task ≡ true) ↔ (m.task ≡ plan.task))
          × ((str_eq m.chunk_plan_hash plan.chunk_plan_hash ≡ true)
              ↔ (m.chunk_plan_hash ≡ plan.chunk_plan_hash))
      iffs = (
        eqb_ℤ_iff m.schema_version cumulative_schema_version,
        eq_iff m.roster_hash (hash_roster py plan.roster),
        eqb_ℤ_iff m.seed plan.seed,
        eq_iff m.task plan.task,
        eq_iff m.chunk_plan_hash plan.chunk_plan_hash,
      )

  pub load-saved : (m : CumulativeManifest) → NormalGates m → load py (saved m) ≡ ok m
  unfolding load read_json
  load-saved m n = manifest_round_trip py m n

  -- A saved manifest that fits the plan, with gates as their constructor leaves them, is taken up as
  -- it was saved, and the file stays.
  pub resume_saved :
      (plan : Plan) (schedule : List ScheduledSession) (now : String) (fails : Stage → Bool)
      (m : CumulativeManifest) (d : Disk)
      → d.target ≡ saved m
      → NormalGates m
      → Fits m plan
      → resume_or_create py plan schedule now fails d ≡ (ok m, d)
  unfolding resume_or_create
  resume_saved plan schedule now fails m d at n f =
      rw (at, load-saved m n, (validate_or_fail-Fits m plan).1 f)

  -- A saved manifest that does not fit the plan, with gates as their constructor leaves them, is
  -- refused, whatever the clock and the file system do, and its file stays as it is.
  pub resume_drifted :
      (plan : Plan) (schedule : List ScheduledSession) (now : String) (fails : Stage → Bool)
      (m : CumulativeManifest)
      → NormalGates m
      → (Fits m plan → ⊥)
      → (e : Error) × (resume_or_create py plan schedule now fails (disk (saved m))
          ≡ (raise e, disk (saved m)))
  unfolding resume_or_create
  resume_drifted plan schedule now fails m n f = elim (Result-cases (validate_or_fail py m plan)) [
    | inl (a, fine) ↦ absurd (f ((validate_or_fail-Fits m plan).0 fine))
    | inr (e, refused) ↦ (e, rw (load-saved m n, refused))
  ]

  -- Without a file, the call returns a fresh manifest, and that manifest is what the file holds; if an
  -- operation of the write fails it raises, and there is still no file, and no temporary one but
  -- one that could not be removed.
  pub create_missing :
      (plan : Plan) (schedule : List ScheduledSession) (now : String) (fails : Stage → Bool)
      → resume_or_create py plan schedule now fails (disk missing) ≡ (
          if any fails (make_parent ∷ create_temporary ∷ checkpoint_stages)
          then (
            raise os_error,
            record {
              target = missing;
              temporary =
                  left_over fails
                    (obj (manifest_to_dict (created_manifest py plan schedule now)))
                    none;
            },
          )
          else (
            ok (created_manifest py plan schedule now),
            disk (saved (created_manifest py plan schedule now)),
          ))
  unfolding resume_or_create atomic_write
  create_missing plan schedule now fails =
      rw
        (write_replacing_checkpoint fails
          (obj (manifest_to_dict (created_manifest py plan schedule now))) (disk missing))
        (ground arith)
