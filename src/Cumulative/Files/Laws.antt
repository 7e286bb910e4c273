-- ===== src/Cumulative/Files/Laws.antt =====
-- A replaced file is never seen half written.
use wevibe_bench.Prelude.{
  ◌≡◌, Bool, Option, none, some, [], ◌∷◌, arith, Result, ok, raise, any, if◌then◌else◌,
}
use wevibe_bench.Prelude.Json.{Json}
use wevibe_bench.Cumulative.Errors.{Error, os_error}
use wevibe_bench.Cumulative.Files.{
  FileState, not_json, holds, Disk, Stage, make_parent, create_temporary, write_text, flush,
  remove_temporary, stage_effect, run_stages, write_replacing, checkpoint_stages,
  run_manifest_stages,
}

-- The temporary file behind a write that failed: none was made, or it could not be removed, or it is
-- gone.
abbrev pub left_over : (Stage → Bool) → Json → Option FileState → Option FileState
left_over fails v old =
    if any fails (make_parent ∷ create_temporary ∷ [])
    then old
    else if fails remove_temporary
    then some (if any fails (write_text ∷ flush ∷ []) then not_json else holds v)
    else none

-- the outcome of a write
abbrev pub written : Bool → (Stage → Bool) → Json → Disk → Result Error (Unit {0}) × Disk
written failed fails v old =
    if failed
    then (
      raise os_error,
      record { target = old.target; temporary = left_over fails v old.temporary },
    )
    else (ok tt, record { target = holds v; temporary = none })

-- If any operation of a checkpoint fails it raises and the file is the old one, else the file holds
-- the document and the temporary file is gone. The temporary file of a failed checkpoint is left only
-- if it was made and its removal fails, too.
pub write_replacing_checkpoint :
    (fails : Stage → Bool) (v : Json) (old : Disk)
    → write_replacing fails checkpoint_stages v old
      ≡ written (any fails (make_parent ∷ create_temporary ∷ checkpoint_stages)) fails v old
unfolding write_replacing run_stages stage_effect
write_replacing_checkpoint fails v old = ground arith

pub write_replacing_run_manifest :
    (fails : Stage → Bool) (v : Json) (old : Disk)
    → write_replacing fails run_manifest_stages v old
      ≡ written (any fails (make_parent ∷ create_temporary ∷ run_manifest_stages)) fails v old
unfolding write_replacing run_stages stage_effect
write_replacing_run_manifest fails v old = ground arith

-- Where the operations stop, at a failing one or at the end, the file is the old one or holds the
-- whole document: the document exactly if all operations were done.
pub run_stages_target :
    (fails : Stage → Bool) (v : Json) (old : FileState)
    → let (done, d) =
        run_stages fails v
          (make_parent ∷ create_temporary ∷ checkpoint_stages)
          (record { target = old; temporary = none }) in
      d.target ≡ (if done then holds v else old)
unfolding run_stages stage_effect
run_stages_target fails v old = ground arith
