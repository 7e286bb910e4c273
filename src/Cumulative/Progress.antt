-- ===== src/Cumulative/Progress.antt =====
-- The telemetry of a session: `ProgressVector` of wevibe_bench/cumulative/types.py.
pub mod Seams
pub mod FromCell
pub mod FromDict
pub mod RoundTrip
pub mod Laws
use wevibe_bench.Prelude.{ℕ, Bool, true, false, Option, none, some, List, [], ◌∷◌, ◌++◌, String}
use wevibe_bench.Prelude.Int.{ℤ}
use wevibe_bench.Prelude.Json.{Json, null, bool, int, str, arr, obj, Fields, end, field, of_list}
use wevibe_bench.Cumulative.Records.Codec.Parts.{optional, strings}
use wevibe_bench.Cumulative.Progress.Seams.{
  normalize_missing_telemetry_seams, construction_deferred_seams, on_only_seams,
}

-- The floats are JSON numbers; the three rates are `null` where they cannot be derived.
pub record ProgressVector : Type 0 where
  pub problems_before : Option ℤ
  pub problems_after : Option ℤ
  pub resolved_count : Option ℤ
  pub remaining_count : Option ℤ
  pub full_green : Bool
  pub attempts_to_green : Option ℤ
  pub turns : ℤ
  pub input_tokens : ℤ
  pub output_tokens : ℤ
  pub total_tokens : ℤ
  pub wall_seconds : Json
  pub wall_cost_usd : Json
  pub injected_count : Option ℤ
  pub injected_block_chars : Option ℤ
  pub injected_block_est_tokens : Option ℤ
  pub recall_fired_total : Option ℤ
  pub recall_returned_total : Option ℤ
  pub recall_returned_count_sum : Option ℤ
  pub no_keywords_count : Option ℤ
  pub served_attempted : Option ℤ
  pub served_failed : Option ℤ
  pub served_confirmed : Option ℤ
  pub recall_return_rate : Json
  pub inject_yield : Json
  pub serve_success_rate : Json
  pub consumer_injected_count : Option ℤ
  pub extraction_candidate_count : Option ℤ
  pub accepted_count : Option ℤ
  pub rejected_count : Option ℤ
  pub rejected_reasons : List String
  pub memory_mode : String
  pub termination_reason : String
  pub failed_gates : List String
  pub tool_calls : Option ℤ
  pub test_invocations : Option ℤ
  pub agentic_cycles : Option ℤ
  pub http_429_count : Option ℤ
  pub http_402_count : Option ℤ
  pub retry_count : Option ℤ
  pub upstream_error_count : Option ℤ
  pub max_request_ms : Option ℤ
  pub median_request_ms : Option ℤ
  pub wall_near_timeout : Option Bool
  pub worker_image_id : Option String
  pub worker_image_created : Option String
  pub missing_telemetry_seams : List String

abbrev pub optional_bool : Option Bool → Json
optional_bool none = null
optional_bool (some b) = bool b

abbrev pub optional_text : Option String → Json
optional_text none = null
optional_text (some s) = str s

-- the dict of seams that both methods hand over
abbrev pub seam_values : ProgressVector → Fields
seam_values p = field "problems_before" (optional p.problems_before) (
    field "problems_after" (optional p.problems_after) (
      field "resolved_count" (optional p.resolved_count) (
        field "remaining_count" (optional p.remaining_count) (
          field "attempts_to_green" (optional p.attempts_to_green) (
            field "injected_count" (optional p.injected_count) (
              field "injected_block_chars" (optional p.injected_block_chars) (
                field "injected_block_est_tokens" (optional p.injected_block_est_tokens) (
                  field "recall_fired_total" (optional p.recall_fired_total) (
                    field "recall_returned_total" (optional p.recall_returned_total) (
                      field "recall_returned_count_sum" (optional p.recall_returned_count_sum) (
                        field "no_keywords_count" (optional p.no_keywords_count) (
                          field "served_attempted" (optional p.served_attempted) (
                            field "served_failed" (optional p.served_failed) (
                              field "served_confirmed" (optional p.served_confirmed) (
                                field "consumer_injected_count" (optional p.consumer_injected_count)
                                  (field "extraction_candidate_count"
                                    (optional p.extraction_candidate_count)
                                    (field "accepted_count" (optional p.accepted_count) (
                                      field "rejected_count" (optional p.rejected_count) (
                                        field "tool_calls" (optional p.tool_calls) (
                                          field "test_invocations" (optional p.test_invocations) (
                                            field "agentic_cycles" (optional p.agentic_cycles) (
                                              field "http_429_count" (optional p.http_429_count) (
                                                field "http_402_count" (optional p.http_402_count) (
                                                  field "retry_count" (optional p.retry_count) (
                                                    field "upstream_error_count"
                                                      (optional p.upstream_error_count)
                                                      (field "wall_near_timeout"
                                                        (optional_bool p.wall_near_timeout)
                                                        end))))))))))))))))))))))))))

-- the test `self.injected_count is None`, which stands for a cell with memory off
abbrev pub is_off : ProgressVector → Bool
is_off p = elim p.injected_count [ none ↦ true | some _ ↦ false ]

-- `__post_init__`
unfoldable pub post_init : ProgressVector → ProgressVector
post_init p = record p {
  missing_telemetry_seams =
      normalize_missing_telemetry_seams p.missing_telemetry_seams (seam_values p) (elim (is_off p) [
        | true ↦ construction_deferred_seams ++ on_only_seams
        | false ↦ construction_deferred_seams
      ]);
}

-- the seams that `to_dict` does not report
abbrev pub excluded_seams : Bool → List String
excluded_seams true = on_only_seams
excluded_seams false = []

-- the seams that `to_dict` reports
unfoldable pub reported_seams : ProgressVector → List String
reported_seams p =
    normalize_missing_telemetry_seams p.missing_telemetry_seams (seam_values p)
      (excluded_seams (is_off p))

-- `to_dict`
unfoldable pub to_dict : ProgressVector → Fields
to_dict p = field "problems_before" (optional p.problems_before) (
    field "problems_after" (optional p.problems_after) (
      field "resolved_count" (optional p.resolved_count) (
        field "remaining_count" (optional p.remaining_count) (
          field "full_green" (bool p.full_green) (
            field "attempts_to_green" (optional p.attempts_to_green) (
              field "turns" (int p.turns) (
                field "input_tokens" (int p.input_tokens) (
                  field "output_tokens" (int p.output_tokens) (
                    field "total_tokens" (int p.total_tokens) (
                      field "wall_seconds" p.wall_seconds (
                        field "wall_cost_usd" p.wall_cost_usd (
                          field "injected_count" (optional p.injected_count) (
                            field "injected_block_chars" (optional p.injected_block_chars) (
                              field "injected_block_est_tokens"
                                (optional p.injected_block_est_tokens)
                                (field "recall_fired_total" (optional p.recall_fired_total) (
                                  field "recall_returned_total" (optional p.recall_returned_total) (
                                    field "recall_returned_count_sum"
                                      (optional p.recall_returned_count_sum)
                                      (field "no_keywords_count" (optional p.no_keywords_count) (
                                        field "served_attempted" (optional p.served_attempted) (
                                          field "served_failed" (optional p.served_failed) (
                                            field "served_confirmed" (optional p.served_confirmed) (
                                              field "recall_return_rate" p.recall_return_rate (
                                                field "inject_yield" p.inject_yield (
                                                  field "serve_success_rate" p.serve_success_rate (
                                                    field "consumer_injected_count"
                                                      (optional p.consumer_injected_count)
                                                      (field "extraction_candidate_count"
                                                        (optional p.extraction_candidate_count)
                                                        (field "accepted_count"
                                                          (optional p.accepted_count)
                                                          (field "rejected_count"
                                                            (optional p.rejected_count)
                                                            (field "rejected_reasons"
                                                            (strings p.rejected_reasons)
                                                            (field "memory_mode" (str p.memory_mode)
                                                            (field "termination_reason"
                                                            (str p.termination_reason)
                                                            (field "failed_gates"
                                                            (strings p.failed_gates)
                                                            (field "tool_calls"
                                                            (optional p.tool_calls)
                                                            (field "test_invocations"
                                                            (optional p.test_invocations)
                                                            (field "agentic_cycles"
                                                            (optional p.agentic_cycles)
                                                            (field "http_429_count"
                                                            (optional p.http_429_count)
                                                            (field "http_402_count"
                                                            (optional p.http_402_count)
                                                            (field "retry_count"
                                                            (optional p.retry_count)
                                                            (field "upstream_error_count"
                                                            (optional p.upstream_error_count)
                                                            (field "max_request_ms"
                                                            (optional p.max_request_ms)
                                                            (field "median_request_ms"
                                                            (optional p.median_request_ms)
                                                            (field "wall_near_timeout"
                                                            (optional_bool p.wall_near_timeout)
                                                            (field "worker_image_id"
                                                            (optional_text p.worker_image_id)
                                                            (field "worker_image_created"
                                                            (optional_text p.worker_image_created)
                                                            (field "missing_telemetry_seams"
                                                            (strings (reported_seams p)) end))))))))
                                                            )))))))))))))))))))))))))))))))))))))
