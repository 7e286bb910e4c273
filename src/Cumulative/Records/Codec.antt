-- ===== src/Cumulative/Records/Codec.antt =====
-- `to_dict` and `from_dict` of the records: wevibe_bench/cumulative/types.py and manifest.py.
pub mod Parts
pub mod RoundTrip
use wevibe_bench.Prelude.{
  ℕ, ◌≡◌, Bool, true, false, Option, none, some, List, [], ◌∷◌, map, String, Result, ok, raise,
  ◌>>=◌, ◌>>◌,
}
use wevibe_bench.Prelude.Int.{ℤ, pos}
use wevibe_bench.Prelude.Json.{
  Json, null, bool, int, str, arr, obj, Items, nil, cons, Fields, end, field, Builtins, get,
  get_or_none, truth, to_str, of_list, to_list, as_mapping,
}
use wevibe_bench.Cumulative.Errors.{
  Error, bad_value, not_an_array, entry_not_an_object, not_an_object,
}
use wevibe_bench.Cumulative.Gates.{WalkGateVerdictRecord, post_init}
use wevibe_bench.Cumulative.Records.{
  RosterEntry, ScheduledSession, SessionRecord, CumulativeManifest,
}
use wevibe_bench.Cumulative.Records.Codec.Parts.{
  require, get_default, int_value, optional_int, enum_value, string_tuple, dict_list, dict_mapping,
  iterate, strings, optional, optional_mapping,
}

-- `RosterEntry.to_dict`
unfoldable pub roster_entry_to_dict : RosterEntry → Fields
roster_entry_to_dict e = field "model" (str e.model) (
    field "role" (str e.role) (
      field "provider_pin" (str e.provider_pin)
        (field "config_identity" (obj e.config_identity) end)))

-- `ScheduledSession.to_dict`
unfoldable pub scheduled_to_dict : ScheduledSession → Fields
scheduled_to_dict s = field "sequence_index" (int s.sequence_index) (
    field "model" (str s.model) (
      field "provider_pin" (str s.provider_pin) (
        field "memory_mode" (str s.memory_mode) (
          field "phase_group" (str s.phase_group)
            (field "roster_index" (int s.roster_index) end)))))

-- `WalkGateVerdictRecord.to_dict`
unfoldable pub gate_to_dict : WalkGateVerdictRecord → Fields
gate_to_dict g = field "ordinal" (int g.ordinal) (
    field "gate" (str g.gate) (
      field "verdict" (str g.verdict) (
        field "evidence" (obj g.evidence) (
          field "stops_walk" (bool g.stops_walk) (
            field "expected_producer_model_ids" (strings g.expected_producer_model_ids)
              (field "observed_producer_model_ids" (strings g.observed_producer_model_ids) end))))))

-- `SessionRecord.to_dict`
unfoldable pub session_to_dict : SessionRecord → Fields
session_to_dict r = field "sequence_index" (int r.sequence_index) (
    field "model" (str r.model) (
      field "provider_pin" (str r.provider_pin) (
        field "memory_mode" (str r.memory_mode) (
          field "phase_group" (str r.phase_group) (
            field "phase" (str r.phase) (
              field "run_id" r.run_id (
                field "run_label" r.run_label (
                  field "session_id" r.session_id (
                    field "org_id" r.org_id (
                      field "extraction_job_id" r.extraction_job_id (
                        field "session_fp" r.session_fp (
                          field "candidate_refs" (arr (of_list (map obj r.candidate_refs))) (
                            field "extraction_candidate_count"
                              (optional r.extraction_candidate_count)
                              (field "progress" (optional_mapping r.progress) (
                                field "walk_gates"
                                  (arr (of_list (map (λ g. obj (gate_to_dict g)) r.walk_gates)))
                                  (field "decision_applied" (bool r.decision_applied) (
                                    field "corpus_delta" (optional r.corpus_delta) (
                                      field "complete_gate" (bool r.complete_gate) (
                                        field "extracted_from" (bool r.extracted_from) (
                                          field "retry_count" (int r.retry_count) (
                                            field "resume_marker" r.resume_marker (
                                              field "error" r.error (
                                                field "started_at" r.started_at (
                                                  field "updated_at" r.updated_at
                                                    end))))))))))))))))))))))))

-- `CumulativeManifest.to_dict`
unfoldable pub manifest_to_dict : CumulativeManifest → Fields
manifest_to_dict m = field "schema_version" (int m.schema_version) (
    field "created_at" (str m.created_at) (
      field "task" (str m.task) (
        field "org_id" (str m.org_id) (
          field "roster" (arr (of_list (map (λ e. obj (roster_entry_to_dict e)) m.roster))) (
            field "roster_hash" (str m.roster_hash) (
              field "seed" (int m.seed) (
                field "config_fingerprint" (str m.config_fingerprint) (
                  field "schedule" (arr (of_list (map (λ s. obj (scheduled_to_dict s)) m.schedule)))
                    (field "session_records"
                      (arr (of_list (map (λ r. obj (session_to_dict r)) m.session_records)))
                      (field "current_index" (int m.current_index) (
                        field "updated_at" (str m.updated_at) (
                          field "run_context" (optional_mapping m.run_context)
                            (field "chunk_plan_hash" (str m.chunk_plan_hash) end)))))))))))))

-- `[f(item) for item in items]`
unfoldable pub each {ℓ} :
    {A : Type ℓ} {B : Type 0} → (A → Result Error B) → List A → Result Error (List B)
each f [] = ok []
each f (x ∷ xs) = do y ← f x; ys ← each f xs; ok (y ∷ ys)

module _ (py : Builtins) where
  -- `RosterEntry.from_dict`
  unfoldable pub roster_entry_from_dict : Fields → Result Error RosterEntry
  unfolding require get_default dict_mapping get_or_none
  roster_entry_from_dict d = do
    model ← require "model" d
    role ← require "role" d
    ok (record {
      model = to_str py model;
      role = to_str py role;
      provider_pin = to_str py (get_default "provider_pin" (str "") d);
      config_identity = dict_mapping (get_or_none "config_identity" d);
    })

  -- `ScheduledSession.from_dict`
  unfoldable pub scheduled_from_dict : Fields → Result Error ScheduledSession
  unfolding require get_default int_value enum_value
  scheduled_from_dict d = do
    sequence_index ← int_value py (← require "sequence_index" d)
    model ← require "model" d
    memory_mode ← require "memory_mode" d
    phase_group ← require "phase_group" d
    roster_index ← int_value py (← require "roster_index" d)
    ok (record {
      sequence_index = sequence_index;
      model = to_str py model;
      provider_pin = to_str py (get_default "provider_pin" (str "") d);
      memory_mode = to_str py memory_mode;
      phase_group = enum_value py phase_group;
      roster_index = roster_index;
    })

  -- `WalkGateVerdictRecord.from_dict`
  unfoldable pub gate_from_dict : Fields → Result Error WalkGateVerdictRecord
  unfolding require get_default int_value enum_value dict_mapping get_or_none string_tuple truth
  gate_from_dict d = do
    ordinal ← int_value py (← require "ordinal" d)
    gate ← require "gate" d
    verdict ← require "verdict" d
    ok (
        post_init (record {
          ordinal = ordinal;
          gate = enum_value py gate;
          verdict = enum_value py verdict;
          evidence = dict_mapping (get_or_none "evidence" d);
          stops_walk = truth (get_default "stops_walk" (bool false) d);
          expected_producer_model_ids =
              string_tuple py (get_or_none "expected_producer_model_ids" d);
          observed_producer_model_ids =
              string_tuple py (get_or_none "observed_producer_model_ids" d);
        }))

  -- `SessionRecord.from_dict`
  unfoldable pub session_from_dict : Fields → Result Error SessionRecord
  unfolding require get_default int_value optional_int enum_value get_or_none dict_list iterate
      truth each
  session_from_dict d = do
    gates ← iterate (get_default "walk_gates" (arr nil) d)
    walk_gates ← each gate_from_dict (dict_list (arr (of_list gates)))
    sequence_index ← int_value py (← require "sequence_index" d)
    model ← require "model" d
    extraction_candidate_count ← optional_int py (get_or_none "extraction_candidate_count" d)
    corpus_delta ← optional_int py (get_or_none "corpus_delta" d)
    retry_count ← int_value py (get_default "retry_count" (int (pos 0)) d)
    ok (record {
      sequence_index = sequence_index;
      model = to_str py model;
      provider_pin = to_str py (get_default "provider_pin" (str "") d);
      memory_mode = to_str py (get_default "memory_mode" (str "off") d);
      phase_group = enum_value py (get_default "phase_group" (str "off_baseline") d);
      phase = enum_value py (get_default "phase" (str "PREPARE_FIXTURE") d);
      run_id = get_or_none "run_id" d;
      run_label = get_or_none "run_label" d;
      session_id = get_or_none "session_id" d;
      org_id = get_or_none "org_id" d;
      extraction_job_id = get_or_none "extraction_job_id" d;
      session_fp = get_or_none "session_fp" d;
      candidate_refs = dict_list (get_or_none "candidate_refs" d);
      extraction_candidate_count = extraction_candidate_count;
      progress = as_mapping (get_or_none "progress" d);
      walk_gates = walk_gates;
      decision_applied = truth (get_default "decision_applied" (bool false) d);
      corpus_delta = corpus_delta;
      complete_gate = truth (get_default "complete_gate" (bool false) d);
      extracted_from = truth (get_default "extracted_from" (bool false) d);
      retry_count = retry_count;
      resume_marker = get_or_none "resume_marker" d;
      error = get_or_none "error" d;
      started_at = get_or_none "started_at" d;
      updated_at = get_or_none "updated_at" d;
    })

  -- `_mapping_list`
  unfoldable pub mapping_list : Json → Result Error (List Fields)
  unfolding each
  mapping_list (arr items) =
      each (λ v. elim (as_mapping v) [ some d ↦ ok d | none ↦ raise entry_not_an_object ])
        (to_list items)
  mapping_list _ = raise not_an_array

  -- `str(d.get("chunk_plan_hash") or "")`
  abbrev pub or_empty : Json → String
  or_empty v = elim (truth v) [ true ↦ to_str py v | false ↦ "" ]

  -- `CumulativeManifest.from_dict`
  unfoldable pub manifest_from_dict : Fields → Result Error CumulativeManifest
  unfolding require int_value get_or_none mapping_list each truth
  manifest_from_dict d = do
    roster_data ← mapping_list (← require "roster" d)
    schedule_data ← mapping_list (← require "schedule" d)
    records_data ← mapping_list (← require "session_records" d)
    schema_version ← int_value py (← require "schema_version" d)
    created_at ← require "created_at" d
    task ← require "task" d
    org_id ← require "org_id" d
    roster ← each roster_entry_from_dict roster_data
    roster_hash ← require "roster_hash" d
    seed ← int_value py (← require "seed" d)
    config_fingerprint ← require "config_fingerprint" d
    schedule ← each scheduled_from_dict schedule_data
    session_records ← each session_from_dict records_data
    current_index ← int_value py (← require "current_index" d)
    updated_at ← require "updated_at" d
    ok (record {
      created_at = to_str py created_at;
      task = to_str py task;
      org_id = to_str py org_id;
      roster = roster;
      roster_hash = to_str py roster_hash;
      seed = seed;
      config_fingerprint = to_str py config_fingerprint;
      schedule = schedule;
      session_records = session_records;
      current_index = current_index;
      updated_at = to_str py updated_at;
      schema_version = schema_version;
      run_context = as_mapping (get_or_none "run_context" d);
      chunk_plan_hash = or_empty (get_or_none "chunk_plan_hash" d);
    })
