-- ===== src/Cumulative/Progress/FromDict.antt =====
-- `ProgressVector.from_dict` of wevibe_bench/cumulative/types.py.
use wevibe_bench.Prelude.{Bool, false, Option, none, some, String, Result, ok, raise, ◌>>=◌}
use wevibe_bench.Prelude.Int.{ℤ, pos}
use wevibe_bench.Prelude.Json.{
  Json, null, bool, int, float, str, Fields, Builtins, get_default, get_or_none, truth, to_str,
}
use wevibe_bench.Cumulative.Errors.{Error, bad_value}
use wevibe_bench.Cumulative.Records.Codec.Parts.{int_value, optional_int, string_tuple}
use wevibe_bench.Cumulative.Progress.{ProgressVector, post_init}

-- `_optional_bool`
unfoldable pub optional_truth : Json → Option Bool
unfolding truth
optional_truth null = none
optional_truth v = some (truth v)

module _ (py : Builtins) where
  -- `float(value)`
  unfoldable pub float_value : Json → Result Error Json
  float_value v = elim (py.float_of v) [ none ↦ raise bad_value | some x ↦ ok x ]

  -- `_optional_float`
  unfoldable pub optional_float : Json → Result Error Json
  unfolding float_value
  optional_float null = ok null
  optional_float v = float_value v

  -- `_optional_string`
  unfoldable pub optional_string : Json → Option String
  unfolding to_str
  optional_string null = none
  optional_string v = some (to_str py v)

  -- `_optional_int(d.get(key))` and `int(d.get(key, 0))`
  unfoldable pub maybe_int : String → Fields → Result Error (Option ℤ)
  unfolding optional_int get_or_none
  maybe_int key d = optional_int py (get_or_none key d)

  unfoldable pub whole : String → Fields → Result Error ℤ
  unfolding int_value get_default
  whole key d = int_value py (get_default key (int (pos 0)) d)

  -- `from_dict`, with the `__post_init__` that it runs
  unfoldable pub progress_from_dict : Fields → Result Error ProgressVector
  unfolding maybe_int whole float_value optional_float optional_truth optional_string string_tuple
      get_default get_or_none truth to_str post_init
  progress_from_dict d = do
    problems_before ← maybe_int "problems_before" d
    problems_after ← maybe_int "problems_after" d
    resolved_count ← maybe_int "resolved_count" d
    remaining_count ← maybe_int "remaining_count" d
    attempts_to_green ← maybe_int "attempts_to_green" d
    turns ← whole "turns" d
    input_tokens ← whole "input_tokens" d
    output_tokens ← whole "output_tokens" d
    total_tokens ← whole "total_tokens" d
    wall_seconds ← float_value (get_default "wall_seconds" (float (pos 0) 0) d)
    wall_cost_usd ← float_value (get_default "wall_cost_usd" (float (pos 0) 0) d)
    injected_count ← maybe_int "injected_count" d
    injected_block_chars ← maybe_int "injected_block_chars" d
    injected_block_est_tokens ← maybe_int "injected_block_est_tokens" d
    recall_fired_total ← maybe_int "recall_fired_total" d
    recall_returned_total ← maybe_int "recall_returned_total" d
    recall_returned_count_sum ← maybe_int "recall_returned_count_sum" d
    no_keywords_count ← maybe_int "no_keywords_count" d
    served_attempted ← maybe_int "served_attempted" d
    served_failed ← maybe_int "served_failed" d
    served_confirmed ← maybe_int "served_confirmed" d
    recall_return_rate ← optional_float (get_or_none "recall_return_rate" d)
    inject_yield ← optional_float (get_or_none "inject_yield" d)
    serve_success_rate ← optional_float (get_or_none "serve_success_rate" d)
    consumer_injected_count ← maybe_int "consumer_injected_count" d
    extraction_candidate_count ← maybe_int "extraction_candidate_count" d
    accepted_count ← maybe_int "accepted_count" d
    rejected_count ← maybe_int "rejected_count" d
    tool_calls ← maybe_int "tool_calls" d
    test_invocations ← maybe_int "test_invocations" d
    agentic_cycles ← maybe_int "agentic_cycles" d
    http_429_count ← maybe_int "http_429_count" d
    http_402_count ← maybe_int "http_402_count" d
    retry_count ← maybe_int "retry_count" d
    upstream_error_count ← maybe_int "upstream_error_count" d
    max_request_ms ← maybe_int "max_request_ms" d
    median_request_ms ← maybe_int "median_request_ms" d
    ok (
        post_init (record {
          problems_before = problems_before;
          problems_after = problems_after;
          resolved_count = resolved_count;
          remaining_count = remaining_count;
          full_green = truth (get_default "full_green" (bool false) d);
          attempts_to_green = attempts_to_green;
          turns = turns;
          input_tokens = input_tokens;
          output_tokens = output_tokens;
          total_tokens = total_tokens;
          wall_seconds = wall_seconds;
          wall_cost_usd = wall_cost_usd;
          injected_count = injected_count;
          injected_block_chars = injected_block_chars;
          injected_block_est_tokens = injected_block_est_tokens;
          recall_fired_total = recall_fired_total;
          recall_returned_total = recall_returned_total;
          recall_returned_count_sum = recall_returned_count_sum;
          no_keywords_count = no_keywords_count;
          served_attempted = served_attempted;
          served_failed = served_failed;
          served_confirmed = served_confirmed;
          recall_return_rate = recall_return_rate;
          inject_yield = inject_yield;
          serve_success_rate = serve_success_rate;
          consumer_injected_count = consumer_injected_count;
          extraction_candidate_count = extraction_candidate_count;
          accepted_count = accepted_count;
          rejected_count = rejected_count;
          rejected_reasons = string_tuple py (get_or_none "rejected_reasons" d);
          memory_mode = to_str py (get_default "memory_mode" (str "") d);
          termination_reason = to_str py (get_default "termination_reason" (str "") d);
          failed_gates = string_tuple py (get_or_none "failed_gates" d);
          tool_calls = tool_calls;
          test_invocations = test_invocations;
          agentic_cycles = agentic_cycles;
          http_429_count = http_429_count;
          http_402_count = http_402_count;
          retry_count = retry_count;
          upstream_error_count = upstream_error_count;
          max_request_ms = max_request_ms;
          median_request_ms = median_request_ms;
          wall_near_timeout = optional_truth (get_or_none "wall_near_timeout" d);
          worker_image_id = optional_string (get_or_none "worker_image_id" d);
          worker_image_created = optional_string (get_or_none "worker_image_created" d);
          missing_telemetry_seams = string_tuple py (get_or_none "missing_telemetry_seams" d);
        }))
