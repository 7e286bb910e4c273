-- ===== src/Cumulative/Tests/Run.antt =====
-- The sequencer on the small run.
use wevibe_bench.Prelude.{◌≡◌, refl, none, [], ◌∷◌, ok, arith}
use wevibe_bench.Prelude.Int.{pos, ◌+ℤ◌}
use wevibe_bench.Cumulative.Phase.{group_value, prepare_fixture, done, value, value-inj}
use wevibe_bench.Cumulative.Records.{SessionRecord, CumulativeManifest, hash_roster, fresh_record}
use wevibe_bench.Cumulative.Ordering.{build_schedule}
use wevibe_bench.Cumulative.Manifest.Laws.{disk, saved}
use wevibe_bench.Cumulative.Sequencer.{step_until_done}
use wevibe_bench.Cumulative.Sequencer.Monad.{Machine, Outcome}
use wevibe_bench.Cumulative.Sequencer.Invariant.{IsRun, IsResumable}
use wevibe_bench.Cumulative.Sequencer.Rounds.{KeepsSessions}
use wevibe_bench.Cumulative.Sequencer.Laws.{
  Settled, ResultOf, step_until_done_returns, step_until_done_stuck,
}
use wevibe_bench.Cumulative.Progress.FromCell.{progress_from_cell_result}
use wevibe_bench.Cumulative.Sequencer.Start.{start}
use wevibe_bench.Cumulative.Sequencer.Start.Laws.{start_resumes}
use wevibe_bench.Cumulative.Tests.Data.{
  toy_py, toy_rng, toy_plan, toy_schedule, off_record, on_record, toy_manifest, toy_env, no_digits,
  no_json,
}

toy_keeps : KeepsSessions toy_env
toy_keeps = record {
  prepared = λ r w. (refl, refl, refl, λ n. n);
  ran = λ r w. (refl, refl, refl, λ n. n);
}

abbrev fresh_manifest : CumulativeManifest
fresh_manifest = toy_manifest (pos 0) (off_record ∷ on_record ∷ [])

not_done : off_record.phase ≡ value done → ⊥
unfolding fresh_record
not_done e = cc (value-inj prepare_fixture done e)

fresh-IsRun : IsRun toy_py toy_plan toy_schedule 2 0 fresh_manifest
unfolding fresh_record
fresh-IsRun = record {
  at = refl;
  within = omega arith;
  count = refl;
  each = (
    record {
      numbered = refl;
      normal = tt;
      over = λ lt. absurd (omega arith);
      complete = λ e. absurd (not_done e);
    },
    (
      record {
        numbered = refl;
        normal = tt;
        over = λ lt. absurd (omega arith);
        complete = λ e. absurd (not_done e);
      },
      tt,
    ),
  );
  fits = record { schema = refl; roster = refl; seed = refl; task = refl; chunk_plan = refl };
  org = refl;
  config = refl;
  scheduled = refl;
}

abbrev fresh_machine : Machine toy_env
fresh_machine = record { manifest = fresh_manifest; disk = disk (saved fresh_manifest); world = tt }

fresh-Settled : Settled toy_py toy_plan toy_schedule 2 toy_keeps no_digits no_json 0 fresh_machine
fresh-Settled = record { run = fresh-IsRun; synced = refl }

step_until_done_returns_example :
    Outcome
      (ResultOf toy_py toy_plan toy_schedule 2 toy_keeps no_digits no_json)
      (λ t. IsResumable toy_py toy_plan toy_schedule 2 t.disk)
      (step_until_done toy_py no_digits no_json 7 fresh_machine)
step_until_done_returns_example =
    step_until_done_returns toy_py toy_plan toy_schedule 2 toy_keeps no_digits no_json 7 0
      fresh_machine fresh-Settled (omega arith)

planned :
    build_schedule toy_py toy_rng toy_plan.roster toy_plan.seed
      (hash_roster toy_py toy_plan.roster)
      (pos 1)
    ≡ ok toy_schedule
unfolding build_schedule group_value ◌+ℤ◌
planned = refl

start_resumes_example :
    start {env = toy_env} toy_py toy_rng toy_plan (pos 1) (disk (saved fresh_manifest)) tt
    ≡ (ok fresh_machine, disk (saved fresh_manifest))
start_resumes_example =
    start_resumes toy_py toy_rng toy_plan toy_schedule (pos 1) planned {env = toy_env} 1 0
      fresh_manifest (disk (saved fresh_manifest)) tt refl fresh-IsRun

abbrev shifted_record : SessionRecord
shifted_record = record off_record { phase = "DONE" }

abbrev shifted_machine : Machine toy_env
shifted_machine = record fresh_machine {
  manifest = toy_manifest (pos 1) (off_record ∷ shifted_record ∷ []);
}

shifted_phase : shifted_record.phase ≡ value done
unfolding value
shifted_phase = refl

shifted_index : shifted_record.sequence_index ≡ pos 0
unfolding fresh_record
shifted_index = refl

step_until_done_stuck_example :
    step_until_done toy_py no_digits no_json 100 shifted_machine ≡ (ok none, shifted_machine)
step_until_done_stuck_example =
    step_until_done_stuck toy_py no_digits no_json 100 0 shifted_record shifted_machine refl refl
      shifted_phase shifted_index

-- The small run, from its fresh file to its end: both sessions are DONE.
fresh_run_ends :
    (let (_, t) = step_until_done toy_py no_digits no_json 7 fresh_machine in
      t.manifest.current_index)
    ≡ pos 2
unfolding step_until_done fresh_record value progress_from_cell_result ◌+ℤ◌
fresh_run_ends = refl
