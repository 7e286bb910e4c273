-- ===== src/Cumulative/Artifacts/Scorecard.antt =====
-- `build_scorecard` of wevibe_bench/cumulative/run_artifacts.py.
pub mod Laws
pub mod Outcome
use wevibe_bench.Prelude.{
  ℕ, ◌-◌, Bool, true, false, not, ◌&&◌, Option, none, some, List, [], ◌∷◌, map, String, str_eq,
  Result, ok, raise, ◌>>=◌, if◌then◌else◌, length, count_if, keep,
}
use wevibe_bench.Prelude.Int.{ℤ, pos, ltb_ℤ}
use wevibe_bench.Prelude.Json.{
  Json, null, bool, int, str, arr, obj, Fields, end, field, Builtins, get_or_none, to_str, to_int,
  truth, as_mapping, of_list,
}
use wevibe_bench.Prelude.Dict.{int_eq, lookup, insert}
use wevibe_bench.Cumulative.Errors.{Error, bad_value}
use wevibe_bench.Cumulative.Records.Codec.Parts.{require, int_value}
use wevibe_bench.Cumulative.Convergence.{
  ScoredSession, ConvergenceTrend, is_green, build_convergence_trend, trend_to_dict,
}
use wevibe_bench.Cumulative.Artifacts.{
  RunManifest, StreamState, run_artifacts_schema_version, run_manifest_to_dict, read_records,
  load_run_manifest,
}
use wevibe_bench.Cumulative.Files.{FileState}

-- `record.get(key) == text`
abbrev pub has_text : String → String → Fields → Bool
has_text k s d = elim (get_or_none k d) [ str t ↦ str_eq t s | _ ↦ false ]

-- `isinstance(record.get("progress"), Mapping)`
abbrev pub progress_of : Fields → Option Fields
progress_of d = as_mapping (get_or_none "progress" d)

-- `_terminal_full_green`
unfoldable pub terminal_full_green : Fields → Bool
unfolding is_green get_or_none
terminal_full_green d = elim (progress_of d) [ none ↦ false | some p ↦ is_green p ]

module _ (py : Builtins) where
  -- `str(value or "")`
  unfoldable pub text_or_empty : Json → String
  unfolding truth to_str
  text_or_empty v = elim (truth v) [ true ↦ to_str py v | false ↦ "" ]

  -- `int(value or 0)`
  unfoldable pub int_or_zero : Json → Result Error ℤ
  unfolding truth int_value
  int_or_zero v = elim (truth v) [ true ↦ int_value py v | false ↦ ok (pos 0) ]

  -- `_truncation_signal`
  unfoldable pub truncation_signal : Fields → Result Error Bool
  unfolding text_or_empty int_or_zero get_or_none
  truncation_signal d =
      if str_eq (text_or_empty (get_or_none "terminal_reason" d)) "transport_incomplete"
      then ok true
      else do
        truncations ← int_or_zero (get_or_none "length_truncations" d)
        elim (ltb_ℤ (pos 0) truncations) [
          | true ↦ ok true
          | false ↦ do
            turns ← int_or_zero (get_or_none "truncated_turns" d)
            elim (ltb_ℤ (pos 0) turns) [
              | true ↦ ok true
              | false ↦ do
                lost ← int_or_zero (get_or_none "observation_lost_turns" d)
                ok (ltb_ℤ (pos 0) lost)
            ]
        ]

  -- the index of a record, if it has one
  unfoldable pub given_index : Json → Result Error (Option ℤ)
  unfolding int_value
  given_index null = ok none
  given_index v = do seq ← int_value py v; ok (some seq)

  abbrev pub file_under : Option ℤ → Fields → List (ℤ × Fields) → List (ℤ × Fields)
  file_under none d filed = filed
  file_under (some seq) d filed = insert seq d filed

  -- A loop over the stream that files some of its records under their index, a later one in place
  -- of an earlier one.
  unfoldable pub file_records :
      (Fields → Bool) → List (ℤ × Fields) → List Fields → Result Error (List (ℤ × Fields))
  unfolding get_or_none insert
  file_records wanted filed [] = ok filed
  file_records wanted filed (d ∷ rest) = elim (wanted d) [
    | false ↦ file_records wanted filed rest
    | true ↦ given_index (get_or_none "sequence_index" d) >>= λ seq.
        file_records wanted (file_under seq d filed) rest
  ]

  -- the tests of the two loops
  unfoldable pub is_unverified_delivery : Fields → Bool
  unfolding get_or_none
  is_unverified_delivery d =
      has_text "type" "delivery" d && has_text "delivery_state" "unverified" d

  unfoldable pub is_terminal_candidate : Fields → Bool
  unfolding get_or_none
  is_terminal_candidate d =
      has_text "type" "attempt" d && elim (progress_of d) [ none ↦ false | some p ↦ true ]

  -- `void_instrument_by_index`
  unfoldable pub void_cells : List (ℤ × Fields) → Result Error (List (ℤ × Fields))
  unfolding terminal_full_green truncation_signal
  void_cells [] = ok []
  void_cells ((seq, d) ∷ rest) = elim (terminal_full_green d) [
    | true ↦ void_cells rest
    | false ↦ do
      signal ← truncation_signal d
      others ← void_cells rest
      ok (if signal then (seq, d) ∷ others else others)
  ]

  abbrev pub has_key : ℤ → List (ℤ × Fields) → Bool
  has_key k cells = elim (lookup k cells) [ none ↦ false | some d ↦ true ]

  -- `_is_scored`
  unfoldable pub is_scored : (not_scored void : List (ℤ × Fields)) → ℤ → Bool
  unfolding lookup
  is_scored not_scored void seq = not (has_key seq not_scored) && not (has_key seq void)

  -- one `_ScoredSession`
  unfoldable pub scored_session : ℤ → Fields → ScoredSession
  unfolding get_or_none text_or_empty
  scored_session seq d = record {
    sequence_index = seq;
    session_fp = str (text_or_empty (get_or_none "session_fp" d));
    session_id = get_or_none "session_id" d;
    progress = progress_of d;
  }

  -- `int(record["sequence_index"])`
  unfoldable pub index_of : Fields → Result Error ℤ
  unfolding require int_value
  index_of d = do v ← require "sequence_index" d; int_value py v

  -- `scored_sessions`
  unfoldable pub scored_sessions :
      (not_scored void : List (ℤ × Fields)) → List (ℤ × Fields) → Result Error (List ScoredSession)
  unfolding is_scored scored_session index_of
  scored_sessions not_scored void [] = ok []
  scored_sessions not_scored void ((_, d) ∷ rest) = do
    seq ← index_of d
    others ← scored_sessions not_scored void rest
    ok (if is_scored not_scored void seq then scored_session seq d ∷ others else others)

  -- an entry of `not_scored` and of `void_instrument`
  pub record Exclusion : Type 0 where
    pub sequence_index : ℤ
    pub memory_mode : String
    pub reason : String

  unfoldable pub exclusions : (Fields → String) → List (ℤ × Fields) → Result Error (List Exclusion)
  unfolding index_of text_or_empty get_or_none
  exclusions reason [] = ok []
  exclusions reason ((_, d) ∷ rest) = do
    seq ← index_of d
    others ← exclusions reason rest
    ok (
        record {
          sequence_index = seq;
          memory_mode = text_or_empty (get_or_none "memory_mode" d);
          reason = reason d;
        }
        ∷ others)

  -- The result, with the trend before its `to_dict`.
  pub record Scorecard : Type 0 where
    pub schema_version : ℤ
    pub manifest : RunManifest
    pub convergence : ConvergenceTrend
    pub stream_records : ℕ
    pub scored : List ScoredSession
    pub scored_pass : ℕ
    pub scored_fail : ℕ
    pub not_scored : List Exclusion
    pub void_instrument : List Exclusion

  -- `_session_full_green`
  unfoldable pub session_full_green : ScoredSession → Bool
  unfolding is_green
  session_full_green s = elim s.progress [ none ↦ false | some p ↦ is_green p ]

  -- the dict at the end of `build_scorecard`
  unfoldable pub assemble :
      RunManifest
      → List Fields
      → List ScoredSession
      → (not_scored void_instrument : List Exclusion) → Scorecard
  unfolding session_full_green
  assemble m stream scored not_scored void_instrument = record {
    schema_version = run_artifacts_schema_version;
    manifest = m;
    convergence = build_convergence_trend py scored;
    stream_records = length stream;
    scored = scored;
    scored_pass = count_if session_full_green scored;
    scored_fail = length scored - count_if session_full_green scored;
    not_scored = not_scored;
    void_instrument = void_instrument;
  }

  -- `build_scorecard`, of the records once they are read
  unfoldable pub scorecard_of : RunManifest → List Fields → Result Error Scorecard
  unfolding file_records is_unverified_delivery is_terminal_candidate void_cells scored_sessions
      exclusions assemble
  scorecard_of m stream = do
    not_scored_cells ← file_records is_unverified_delivery [] stream
    best_by_cell ← file_records is_terminal_candidate [] stream
    void ← void_cells best_by_cell
    scored ← scored_sessions not_scored_cells void best_by_cell
    not_scored ←
        exclusions (λ d. text_or_empty (get_or_none "not_scored_reason" d)) not_scored_cells
    void_instrument ← exclusions (λ d. "provider_truncation") void
    ok (assemble m stream scored not_scored void_instrument)

  -- `build_scorecard`, of the two files
  unfoldable pub build_scorecard :
      (loads : String → Option Json) → FileState → StreamState → Result Error Scorecard
  unfolding load_run_manifest read_records scorecard_of
  build_scorecard loads manifest stream = do
    m ← load_run_manifest py manifest
    entries ← read_records py loads stream
    scorecard_of m entries
