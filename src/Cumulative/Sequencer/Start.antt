-- ===== src/Cumulative/Sequencer/Start.antt =====
-- `CumulativeSequencer.__init__` of wevibe_bench/cumulative/sequencer.py.
pub mod Laws
use wevibe_bench.Prelude.{
  ℕ, zero, ◌≡◌, refl, ◌↔◌, Bool, true, false, not, ◌&&◌, Option, List, [], ◌∷◌, map, String, str_eq,
  eq_iff, Result, ok, raise, raise_if, ltb, length, arith,
}
use wevibe_bench.Prelude.Int.{ℤ, pos, negsuc, eqb_ℤ, eqb_ℤ_iff}
use wevibe_bench.Prelude.Json.{Builtins}
use wevibe_bench.Cumulative.Errors.{
  Error, org_drift, config_drift, schedule_drift, negative_index, index_exceeds_records,
}
use wevibe_bench.Cumulative.Phase.{prepare_fixture}
use wevibe_bench.Cumulative.Records.{
  ScheduledSession, SessionRecord, CumulativeManifest, fresh_record, hash_roster,
}
use wevibe_bench.Cumulative.Ordering.{Random, build_schedule}
use wevibe_bench.Cumulative.Files.{FileState, exists, Disk}
use wevibe_bench.Cumulative.Manifest.{Plan, resume_or_create}
use wevibe_bench.Cumulative.Sequencer.{checkpoint}
use wevibe_bench.Cumulative.Sequencer.Checks.{check_drift, check_index}
use wevibe_bench.Cumulative.Sequencer.Monad.{Env, Machine, M, ◌>>=◌, ◌>>◌, return, lift, get}

-- the world behind `resume_or_create`, which reads the clock and writes only where there is no file
abbrev pub world_behind : (env : Env) → FileState → env.World → env.World
world_behind env file w = elim (exists file) [ true ↦ w | false ↦ (env.faults (env.clock w).1).1 ]

module _ {env : Env} where
  -- the session records of a fresh run
  unfoldable pub fill : String → M env (Unit {0})
  unfolding fresh_record
  fill org s = (
    ok tt,
    record s {
      manifest = record s.manifest {
        session_records = map (λ item. fresh_record item prepare_fixture org) s.manifest.schedule;
        current_index = pos 0;
      };
    },
  )

  unfoldable pub fill_missing : String → List SessionRecord → M env (Unit {0})
  unfolding fill checkpoint
  fill_missing org [] = do fill org; checkpoint
  fill_missing org (_ ∷ _) = return tt

  -- the constructor, once the manifest is loaded or created
  unfoldable pub initialise : Plan → List ScheduledSession → M env (Unit {0})
  unfolding check_drift fill_missing check_index
  initialise plan schedule = do
    s ← get
    lift (check_drift plan schedule s.manifest)
    fill_missing plan.org_id s.manifest.session_records
    s ← get
    lift (check_index s.manifest)

  -- the sequencer, or the exception of its constructor, and the file
  unfoldable pub initialised :
      Plan → List ScheduledSession → Machine env → Result Error (Machine env) × Disk
  unfolding initialise
  initialised plan schedule s =
      let (done, s') = initialise plan schedule s in
      (elim done [ ok _ ↦ ok s' | raise e ↦ raise e ], s'.disk)

  unfoldable pub opened :
      Plan
      → List ScheduledSession
      → env.World
      → Result Error CumulativeManifest × Disk
      → Result Error (Machine env) × Disk
  unfolding initialised
  opened plan schedule w (raise e, d) = (raise e, d)
  opened plan schedule w (ok m, d) =
      initialised plan schedule (record { manifest = m; disk = d; world = w })

  unfoldable pub start :
      Builtins
      → Random
      → Plan
      → (on_budget : ℤ) → Disk
      → env.World
      → Result Error (Machine env) × Disk
  unfolding build_schedule hash_roster resume_or_create opened
  start py rng plan on_budget d w =
      elim (build_schedule py rng plan.roster plan.seed (hash_roster py plan.roster) on_budget) [
        | raise e ↦ (raise e, d)
        | ok schedule ↦
            let (now, w1) = env.clock w in
            opened plan schedule (world_behind env d.target w)
              (resume_or_create py plan schedule now (env.faults w1).0 d)
      ]
