-- ===== src/Cumulative/Files.antt =====
-- A file that is replaced through a temporary file: the body that `atomic_write` of
-- wevibe_bench/cumulative/manifest.py and `write_run_manifest` of run_artifacts.py share.
pub mod Laws
use wevibe_bench.Prelude.{
  Bool, true, false, Option, none, some, List, [], ◌∷◌, Result, ok, raise, if◌then◌else◌,
}
use wevibe_bench.Prelude.Json.{Json}
use wevibe_bench.Cumulative.Errors.{Error, os_error, file_not_found, bad_value}

-- What a path shows: no file, a file that cannot be opened, a text that is no JSON document, or a
-- JSON document.
pub data FileState : Type 0 where
  missing unreadable not_json : FileState
  holds : Json → FileState

-- `os.path.exists`
abbrev pub exists : FileState → Bool
exists missing = false
exists _ = true

-- `json.load` of the opened file
unfoldable pub read_json : FileState → Result Error Json
read_json missing = raise file_not_found
read_json unreadable = raise os_error
read_json not_json = raise bad_value
read_json (holds v) = ok v

-- A path, and the temporary file of the write at hand: each write makes one of a new name, so one that
-- an earlier write has left does not matter to it.
pub record Disk : Type 0 where
  pub target : FileState
  pub temporary : Option FileState

-- The file operations of a write, in their order, and the removal of the temporary file.
pub data Stage : Type 0 where
  make_parent create_temporary write_text flush sync change_mode replace remove_temporary : Stage

-- What an operation leaves behind when it succeeds.
unfoldable pub stage_effect : Json → Stage → Disk → Disk
stage_effect v create_temporary d = record d { temporary = some not_json }
stage_effect v flush d = record d { temporary = some (holds v) }
stage_effect v replace d = record {
  target = elim d.temporary [ none ↦ d.target | some f ↦ f ];
  temporary = none;
}
stage_effect v _ d = d

-- The operations up to the first one that fails, with `false` if there is one.
unfoldable pub run_stages : (Stage → Bool) → Json → List Stage → Disk → Bool × Disk
unfolding stage_effect
run_stages fails v [] d = (true, d)
run_stages fails v (s ∷ rest) d =
    if fails s then (false, d) else run_stages fails v rest (stage_effect v s d)

-- `except Exception: os.unlink(tmp_path); raise`, where the removal may fail, too: an `OSError` is
-- raised either way.
abbrev pub unlink : (Stage → Bool) → Disk → Disk
unlink fails d = if fails remove_temporary then d else record d { temporary = none }

-- the body of the write; `guarded` lists the operations inside the `try`
unfoldable pub write_replacing :
    (Stage → Bool) → List Stage → Json → Disk → Result Error (Unit {0}) × Disk
unfolding run_stages
write_replacing fails guarded v d =
    let (opened, d1) = run_stages fails v (make_parent ∷ create_temporary ∷ []) d in
    elim opened [
      | false ↦ (raise os_error, d1)
      | true ↦
          let (written, d2) = run_stages fails v guarded d1 in
          elim written [ true ↦ (ok tt, d2) | false ↦ (raise os_error, unlink fails d2) ]
    ]

-- the operations inside the `try` of `atomic_write` and of `write_run_manifest`
abbrev pub checkpoint_stages : List Stage
checkpoint_stages = write_text ∷ flush ∷ sync ∷ change_mode ∷ replace ∷ []

abbrev pub run_manifest_stages : List Stage
run_manifest_stages = write_text ∷ flush ∷ sync ∷ replace ∷ []
