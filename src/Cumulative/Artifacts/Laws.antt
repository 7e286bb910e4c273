-- ===== src/Cumulative/Artifacts/Laws.antt =====
-- The two artifacts of a run: written once, and only added to.
use Prim.Native.String.{◌++◌ as append}
use Prim.Native.String.append.{nil}
use wevibe_bench.Prelude.{
  ◌≡◌, refl, ap, sym, ◌∙◌, Bool, true, Option, none, some, List, [], ◌∷◌, ◌++◌, String, ok, raise,
  if◌then◌else◌, any, arith,
}
use mathlib.Core.List.{append_assoc, append-nil}
use wevibe_bench.Prelude.Text.{strip, is_truthy}
use wevibe_bench.Prelude.Json.{Json, obj, Fields, Builtins, to_str}
use wevibe_bench.Cumulative.Errors.{os_error, file_exists}
use wevibe_bench.Cumulative.Files.{
  FileState, missing, holds, exists, Stage, read_json, make_parent, create_temporary,
  run_manifest_stages,
}
use wevibe_bench.Cumulative.Files.Laws.{left_over, write_replacing_run_manifest}
use wevibe_bench.Cumulative.Manifest.Laws.{disk}
use wevibe_bench.Cumulative.Artifacts.{
  RunManifest, run_manifest_to_dict, run_manifest_from_dict, write_run_manifest, load_run_manifest,
  StreamFile, append_record, append_cut_off, parse_line, parse_lines, records,
}

-- A run manifest is written once: if there is a file the write is refused and nothing changes;
-- else the file is the manifest, or, if an operation fails, there is still none, and no temporary
-- one but one that could not be removed.
pub write_run_manifest_lem :
    (fails : Stage → Bool) (m : RunManifest) (file : FileState)
    → write_run_manifest fails m (disk file) ≡ (
        if exists file
        then (raise file_exists, disk file)
        else if any fails (make_parent ∷ create_temporary ∷ run_manifest_stages)
        then (
          raise os_error,
          record { target = file; temporary = left_over fails (obj (run_manifest_to_dict m)) none },
        )
        else (ok m, disk (holds (obj (run_manifest_to_dict m)))))
unfolding write_run_manifest
write_run_manifest_lem fails m missing =
    rw (write_replacing_run_manifest fails (obj (run_manifest_to_dict m)) (disk missing))
      (ground arith)
write_run_manifest_lem fails m _ = refl

module _ (py : Builtins) where
  -- What is written is what is read.
  pub load_run_manifest_written :
      (m : RunManifest) → load_run_manifest py (holds (obj (run_manifest_to_dict m))) ≡ ok m
  unfolding load_run_manifest run_manifest_from_dict run_manifest_to_dict read_json to_str
  load_run_manifest_written m = refl

module _ (py : Builtins) (loads : String → Option Json) where
  parse_lines-append :
      (xs ys : List String)
      → parse_lines py loads (xs ++ ys) ≡ parse_lines py loads xs ++ parse_lines py loads ys
  unfolding parse_lines
  parse_lines-append [] ys = refl
  parse_lines-append (x ∷ xs) ys = simp (parse_lines-append xs ys, append_assoc)

  -- A write to the stream: a whole line, or the part of a line that a killed run leaves.
  pub data Write : Type 0 where
    whole : Fields → Write
    cut_off : String → Write

  abbrev pub write : Write → Option StreamFile → StreamFile
  write (whole entry) f = append_record py entry f
  write (cut_off text) f = append_cut_off text f

  abbrev pub write_all : List Write → StreamFile → StreamFile
  write_all [] f = f
  write_all (w ∷ ws) f = write_all ws (write w (some f))

  write-lines :
      (w : Write) (f : StreamFile)
      → (more : List String) × ((write w (some f)).lines ≡ f.lines ++ more)
  unfolding append_record append_cut_off
  write-lines (whole entry) f = (append f.fragment (py.dumps (obj entry)) ∷ [], refl)
  write-lines (cut_off text) f = ([], sym (append-nil f.lines))

  write_all-lines :
      (ws : List Write) (f : StreamFile)
      → (more : List String) × ((write_all ws f).lines ≡ f.lines ++ more)
  write_all-lines [] f = ([], sym (append-nil f.lines))
  write_all-lines (w ∷ ws) f =
      let (first, e) = write-lines w f in
      let (more, h) = write_all-lines ws (write w (some f)) in
      (first ++ more, rw (h, e) (append_assoc f.lines first more))

  -- Whatever is written behind them, and however often a run is killed while it writes, the
  -- records of the whole lines come first and in their order.
  pub records-write_all :
      (ws : List Write) (f : StreamFile)
      → (more : List Fields) × (records py loads (some (write_all ws f))
          ≡ parse_lines py loads f.lines ++ more)
  unfolding records
  records-write_all ws f =
      let (lines, e) = write_all-lines ws f in
      (
        parse_lines py loads lines ++ parse_line py loads (write_all ws f).fragment,
        rw (e, parse_lines-append f.lines lines)
            (append_assoc (parse_lines py loads f.lines) (parse_lines py loads lines) _),
      )

  parse_line_empty : parse_line py loads "" ≡ []
  unfolding parse_line
  parse_line_empty = refl

  parse_lines_one : (x : String) → parse_lines py loads (x ∷ []) ≡ parse_line py loads x
  unfolding parse_lines
  parse_lines_one x = append-nil _

  append_empty : (s : String) → append "" s ≡ s
  append_empty s = nil s

  parse_lines-snoc :
      (xs : List String) (x : String)
      → parse_lines py loads (xs ++ x ∷ []) ++ parse_line py loads ""
        ≡ parse_lines py loads xs ++ parse_line py loads x
  parse_lines-snoc xs x =
      rw
        (
          parse_lines-append xs (x ∷ []),
          parse_line_empty,
          append-nil (parse_lines py loads xs ++ parse_lines py loads (x ∷ [])),
        )
        (ap (λ l. parse_lines py loads xs ++ l) (parse_lines_one x))

  read_line :
      (entry : Fields)
      → is_truthy (strip (py.dumps (obj entry))) ≡ true
      → loads (strip (py.dumps (obj entry))) ≡ some (obj entry)
      → parse_line py loads (py.dumps (obj entry)) ≡ entry ∷ []
  unfolding parse_line
  read_line entry there read = rw (there, read)

  lost_line : (line : String) → loads (strip line) ≡ none → parse_line py loads line ≡ []
  unfolding parse_line
  lost_line line refused = ground (arith, refused)

  -- A record that is appended to a stream without a fragment is read as the last one, if the
  -- JSON library reads its own rendering back.
  pub records-append_record :
      (entry : Fields) (f : StreamFile)
      → f.fragment ≡ ""
      → is_truthy (strip (py.dumps (obj entry))) ≡ true
      → loads (strip (py.dumps (obj entry))) ≡ some (obj entry)
      → records py loads (some (append_record py entry (some f)))
        ≡ records py loads (some f) ++ entry ∷ []
  unfolding records append_record
  records-append_record entry f clean there read =
      parse_lines-snoc f.lines (append f.fragment (py.dumps (obj entry)))
      ∙ rw (
        clean,
        append_empty,
        read_line entry there read,
        parse_line_empty,
        append-nil (parse_lines py loads f.lines),
      )

  -- A record that is appended behind a fragment shares its line: if the JSON library does not read
  -- the two together, the record is lost.
  pub records-append_record_cut_off :
      (text : String) (entry : Fields) (f : StreamFile)
      → f.fragment ≡ ""
      → loads (strip (append text (py.dumps (obj entry)))) ≡ none
      → records py loads (some (append_record py entry (some (append_cut_off text (some f)))))
        ≡ records py loads (some f)
  unfolding records append_record append_cut_off
  records-append_record_cut_off text entry f clean refused =
      parse_lines-snoc f.lines (append (append f.fragment text) (py.dumps (obj entry)))
      ∙ rw (
        clean,
        append_empty text,
        lost_line (append text (py.dumps (obj entry))) refused,
        parse_line_empty,
      )
