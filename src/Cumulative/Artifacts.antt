-- ===== src/Cumulative/Artifacts.antt =====
-- The artifacts of a run: `RunManifest` and `StatusStream` of wevibe_bench/cumulative/run_artifacts.py.
pub mod Scorecard
pub mod Laws
use Prim.Native.String.{◌++◌ as append}
use wevibe_bench.Prelude.{
  ℕ, Bool, true, false, Option, none, some, List, [], ◌∷◌, ◌++◌, map, String, Result, ok, raise,
  ◌>>=◌, ◌>>◌, if◌then◌else◌,
}
use wevibe_bench.Prelude.Int.{ℤ, pos}
use wevibe_bench.Prelude.Text.{strip, is_truthy}
use wevibe_bench.Prelude.Json.{
  Json, null, int, str, obj, Fields, end, field, Builtins, get_or_none, to_str, as_mapping,
}
use wevibe_bench.Cumulative.Errors.{Error, not_an_object, file_exists, os_error, bad_value}
use wevibe_bench.Cumulative.Records.Codec.Parts.{get_default, int_value}
use wevibe_bench.Cumulative.Files.{
  FileState, exists, read_json, Disk, Stage, write_replacing, run_manifest_stages,
}

abbrev pub run_artifacts_schema_version : ℤ
run_artifacts_schema_version = pos 1

-- The fields that `from_dict` takes over as they are are values of any kind.
pub record RunManifest : Type 0 where
  pub schema_version : ℤ
  pub run_id : String
  pub created_at : String
  pub served_model : Json
  pub requested_model : Json
  pub memory_mode : String
  pub org_id : String
  pub source_commit : Json
  pub worker_image_fingerprint : Json
  pub seed : Json
  pub template_hash : Json
  pub roster_fingerprint : Json

-- `RunManifest.to_dict`
unfoldable pub run_manifest_to_dict : RunManifest → Fields
run_manifest_to_dict m = field "schema_version" (int m.schema_version) (
    field "run_id" (str m.run_id) (
      field "created_at" (str m.created_at) (
        field "served_model" m.served_model (
          field "requested_model" m.requested_model (
            field "memory_mode" (str m.memory_mode) (
              field "org_id" (str m.org_id) (
                field "source_commit" m.source_commit (
                  field "worker_image_fingerprint" m.worker_image_fingerprint (
                    field "seed" m.seed (
                      field "template_hash" m.template_hash
                        (field "roster_fingerprint" m.roster_fingerprint end)))))))))))

-- `write_run_manifest`
unfoldable pub write_run_manifest :
    (Stage → Bool) → RunManifest → Disk → Result Error RunManifest × Disk
unfolding run_manifest_to_dict write_replacing
write_run_manifest fails m d = elim (exists d.target) [
  | true ↦ (raise file_exists, d)
  | false ↦
      let (done, d') = write_replacing fails run_manifest_stages (obj (run_manifest_to_dict m)) d in
      (done >> ok m, d')
]

-- The status stream is a text file: its lines, and the text behind the last line break, which is
-- empty unless a write was cut off. `none` is a file that is not there.
pub record StreamFile : Type 0 where
  pub lines : List String
  pub fragment : String

-- What the path of the stream shows to a reader: no file, one that cannot be read, bytes that are not
-- UTF-8, or a text file.
pub data StreamState : Type 0 where
  no_stream unreadable_stream undecodable_stream : StreamState
  text_stream : StreamFile → StreamState

-- `StatusStream.append`: it writes at the end of the file, also where that is inside a line.
unfoldable pub append_record : Builtins → Fields → Option StreamFile → StreamFile
append_record py entry none = record { lines = py.dumps (obj entry) ∷ []; fragment = "" }
append_record py entry (some f) = record {
  lines = f.lines ++ append f.fragment (py.dumps (obj entry)) ∷ [];
  fragment = "";
}

-- A write that is cut off after some characters of the line leaves them as the end of the file.
unfoldable pub append_cut_off : String → Option StreamFile → StreamFile
append_cut_off text none = record { lines = []; fragment = text }
append_cut_off text (some f) = record { lines = f.lines; fragment = append f.fragment text }

module _ (py : Builtins) (loads : String → Option Json) where
  -- what `StatusStream.records` makes of one line
  unfoldable pub parse_line : String → List Fields
  unfolding strip
  parse_line raw =
      let line = strip raw in
      if is_truthy line
      then (elim (loads line) [
        | none ↦ []
        | some v ↦ elim (as_mapping v) [ none ↦ [] | some d ↦ d ∷ [] ]
      ])
      else []

  unfoldable pub parse_lines : List String → List Fields
  unfolding parse_line
  parse_lines [] = []
  parse_lines (raw ∷ rest) = parse_line raw ++ parse_lines rest

  -- `StatusStream.records` of a file that can be read
  unfoldable pub records : Option StreamFile → List Fields
  unfolding parse_lines parse_line
  records none = []
  records (some f) = parse_lines f.lines ++ parse_line f.fragment

  -- `StatusStream.records`: a UnicodeDecodeError is a ValueError
  unfoldable pub read_records : StreamState → Result Error (List Fields)
  unfolding records
  read_records no_stream = ok (records none)
  read_records unreadable_stream = raise os_error
  read_records undecodable_stream = raise bad_value
  read_records (text_stream f) = ok (records (some f))

module _ (py : Builtins) where
  -- `RunManifest.from_dict`
  unfoldable pub run_manifest_from_dict : Fields → Result Error RunManifest
  unfolding get_default int_value to_str get_or_none
  run_manifest_from_dict d = do
    schema_version ←
        int_value py (get_default "schema_version" (int run_artifacts_schema_version) d)
    ok (record {
      schema_version = schema_version;
      run_id = to_str py (get_default "run_id" (str "") d);
      created_at = to_str py (get_default "created_at" (str "") d);
      served_model = get_or_none "served_model" d;
      requested_model = get_or_none "requested_model" d;
      memory_mode = to_str py (get_default "memory_mode" (str "") d);
      org_id = to_str py (get_default "org_id" (str "") d);
      source_commit = get_or_none "source_commit" d;
      worker_image_fingerprint = get_or_none "worker_image_fingerprint" d;
      seed = get_or_none "seed" d;
      template_hash = get_or_none "template_hash" d;
      roster_fingerprint = get_or_none "roster_fingerprint" d;
    })

  -- `load_run_manifest`
  unfoldable pub load_run_manifest : FileState → Result Error RunManifest
  unfolding read_json run_manifest_from_dict
  load_run_manifest file = do
    payload ← read_json file
    elim (as_mapping payload) [ none ↦ raise not_an_object | some d ↦ run_manifest_from_dict d ]
