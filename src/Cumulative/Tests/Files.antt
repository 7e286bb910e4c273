-- ===== src/Cumulative/Tests/Files.antt =====
-- The files of a run: the manifest, the run manifest and the status stream.
use Prim.Native.String.{◌++◌ as append}
use wevibe_bench.Prelude.{
  eq_iff, ◌≡◌, ◌↔◌, refl, Bool, true, false, Option, none, some, List, [], ◌∷◌, ◌++◌, String, ok,
  raise, arith, str_eq, any, if◌then◌else◌,
}
use wevibe_bench.Prelude.Int.{pos}
use wevibe_bench.Prelude.Text.{strip}
use wevibe_bench.Prelude.Json.{Json, null, obj, str, Fields, end}
use wevibe_bench.Cumulative.Errors.{Error, os_error, file_exists}
use wevibe_bench.Cumulative.Records.{CumulativeManifest, fresh_record}
use wevibe_bench.Cumulative.Records.Codec.{manifest_to_dict, manifest_from_dict}
use wevibe_bench.Cumulative.Records.Codec.RoundTrip.{manifest_round_trip}
use wevibe_bench.Cumulative.Files.{
  Stage, flush, missing, holds, exists, write_replacing, run_stages, make_parent, create_temporary,
  checkpoint_stages, run_manifest_stages,
}
use wevibe_bench.Cumulative.Files.Laws.{
  left_over, written, write_replacing_checkpoint, run_stages_target,
}
use wevibe_bench.Cumulative.Manifest.{Plan, validate_or_fail, resume_or_create, created_manifest}
use wevibe_bench.Cumulative.Manifest.Laws.{
  Fits, disk, saved, NormalGates, validate_or_fail-Fits, resume_drifted, create_missing,
}
use wevibe_bench.Cumulative.Artifacts.{
  RunManifest, StreamFile, run_manifest_to_dict, write_run_manifest, append_record, append_cut_off,
  parse_lines, records,
}
use wevibe_bench.Cumulative.Artifacts.Laws.{
  whole, cut_off, write_all, write_run_manifest_lem, records-write_all,
  records-append_record_cut_off,
}
use wevibe_bench.Cumulative.Sequencer.Start.{start}
use wevibe_bench.Cumulative.Sequencer.Start.Laws.{IsOwn, start_refuses}
use wevibe_bench.Cumulative.Tests.Data.{
  toy_env, toy_rng, toy_py, toy_plan, toy_schedule, off_record, on_record, toy_manifest,
}

abbrev fresh : CumulativeManifest
fresh = toy_manifest (pos 0) (off_record ∷ on_record ∷ [])

fresh-NormalGates : NormalGates fresh
unfolding fresh_record
fresh-NormalGates = (tt, (tt, tt))

manifest_round_trip_example : manifest_from_dict toy_py (manifest_to_dict fresh) ≡ ok fresh
manifest_round_trip_example = manifest_round_trip toy_py fresh fresh-NormalGates

-- a disk on which `flush` fails
abbrev flush_fails : Stage → Bool
flush_fails flush = true
flush_fails _ = false

write_replacing_checkpoint_example :
    write_replacing flush_fails checkpoint_stages null
      (record { target = missing; temporary = none })
    ≡ written
        (any flush_fails (make_parent ∷ create_temporary ∷ checkpoint_stages))
        flush_fails
        null
        (disk missing)
write_replacing_checkpoint_example = write_replacing_checkpoint flush_fails null (disk missing)

run_stages_target_example :
    let (done, d) =
      run_stages flush_fails null
        (make_parent ∷ create_temporary ∷ checkpoint_stages)
        (record { target = missing; temporary = none }) in
    d.target ≡ (if done then holds null else missing)
run_stages_target_example = run_stages_target flush_fails null missing

fresh-Fits : Fits toy_py fresh toy_plan
fresh-Fits = record { schema = refl; roster = refl; seed = refl; task = refl; chunk_plan = refl }

validate_or_fail-Fits_example :
    (validate_or_fail toy_py fresh toy_plan ≡ ok tt) ↔ Fits toy_py fresh toy_plan
validate_or_fail-Fits_example = validate_or_fail-Fits toy_py fresh toy_plan

abbrev other_plan : Plan
other_plan = record toy_plan { seed = pos 8 }

fresh-not-Fits : Fits toy_py fresh other_plan → ⊥
fresh-not-Fits f = ground (arith, f.seed)

resume_drifted_example :
    (e : Error) × (resume_or_create toy_py other_plan toy_schedule "t" flush_fails
        (disk (saved fresh))
      ≡ (raise e, disk (saved fresh)))
resume_drifted_example =
    resume_drifted toy_py other_plan toy_schedule "t" flush_fails fresh fresh-NormalGates
      fresh-not-Fits

-- The manifest fits this plan in all that the validation compares.
abbrev foreign_plan : Plan
foreign_plan = record toy_plan { org_id = "elsewhere" }

fresh-not-IsOwn : ¬ IsOwn toy_py toy_rng foreign_plan (pos 1) fresh
fresh-not-IsOwn own = absurd (cc ((eq_iff fresh.org_id "elsewhere").1 own.same_org))

start_refuses_example :
    (e : Error) × (start {env = toy_env} toy_py toy_rng foreign_plan (pos 1) (disk (saved fresh)) tt
      ≡ (raise e, disk (saved fresh)))
start_refuses_example =
    start_refuses toy_py toy_rng foreign_plan (pos 1) {env = toy_env} fresh tt fresh-NormalGates
      fresh-not-IsOwn

create_missing_example :
    resume_or_create toy_py toy_plan toy_schedule "t" flush_fails (disk missing) ≡ (
      if any flush_fails (make_parent ∷ create_temporary ∷ checkpoint_stages)
      then (
        raise os_error,
        record {
          target = missing;
          temporary =
              left_over flush_fails
                (obj (manifest_to_dict (created_manifest toy_py toy_plan toy_schedule "t")))
                none;
        },
      )
      else (
        ok (created_manifest toy_py toy_plan toy_schedule "t"),
        disk (saved (created_manifest toy_py toy_plan toy_schedule "t")),
      ))
create_missing_example = create_missing toy_py toy_plan toy_schedule "t" flush_fails

abbrev toy_run_manifest : RunManifest
toy_run_manifest = record {
  schema_version = pos 1;
  run_id = "r";
  created_at = "t";
  served_model = null;
  requested_model = str "m";
  memory_mode = "on";
  org_id = "org";
  source_commit = null;
  worker_image_fingerprint = null;
  seed = null;
  template_hash = null;
  roster_fingerprint = null;
}

write_run_manifest_example : write_run_manifest flush_fails toy_run_manifest (disk (holds null)) ≡ (
    if exists (holds null)
    then (raise file_exists, disk (holds null))
    else if any flush_fails (make_parent ∷ create_temporary ∷ run_manifest_stages)
    then (raise os_error, disk (holds null))
    else (ok toy_run_manifest, disk (holds (obj (run_manifest_to_dict toy_run_manifest)))))
write_run_manifest_example = write_run_manifest_lem flush_fails toy_run_manifest (holds null)

-- a JSON library that reads `{}` alone
abbrev reads_empty : String → Option Json
reads_empty s = if str_eq s "{}" then some (obj end) else none

abbrev stream : StreamFile
stream = record { lines = "{}" ∷ []; fragment = "" }

records-write_all_example :
    (more : List Fields) × (records toy_py reads_empty
        (some (write_all toy_py reads_empty (cut_off "{" ∷ whole end ∷ []) stream))
      ≡ parse_lines toy_py reads_empty stream.lines ++ more)
records-write_all_example =
    records-write_all toy_py reads_empty (cut_off "{" ∷ whole end ∷ []) stream

glued : reads_empty (strip (append "{" "{}")) ≡ none
unfolding strip
glued = refl

records-append_record_cut_off_example :
    records toy_py reads_empty
      (some (append_record toy_py end (some (append_cut_off "{" (some stream)))))
    ≡ records toy_py reads_empty (some stream)
records-append_record_cut_off_example =
    records-append_record_cut_off toy_py reads_empty "{" end stream refl glued
