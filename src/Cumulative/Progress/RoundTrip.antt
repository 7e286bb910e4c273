-- ===== src/Cumulative/Progress/RoundTrip.antt =====
-- A progress vector that is written and read back.
use wevibe_bench.Prelude.{◌≡◌, refl, Bool, Option, none, some, String, ok}
use wevibe_bench.Prelude.Json.{Builtins, to_str, truth, get_default, get_or_none}
use wevibe_bench.Cumulative.Progress.{
  ProgressVector, post_init, to_dict, reported_seams, optional_bool, optional_text,
}
use wevibe_bench.Cumulative.Progress.FromDict.{
  optional_truth, optional_float, optional_string, float_value, maybe_int, whole,
  progress_from_dict,
}
use wevibe_bench.Cumulative.Records.Codec.Parts.{int_value, string_tuple}
use wevibe_bench.Cumulative.Records.Codec.RoundTrip.{optional_round_trip, to_str-map}

optional_truth_round_trip : (o : Option Bool) → optional_truth (optional_bool o) ≡ o
unfolding optional_truth truth
optional_truth_round_trip none = refl
optional_truth_round_trip (some b) = refl

module _ (py : Builtins) where
  optional_string_round_trip : (o : Option String) → optional_string py (optional_text o) ≡ o
  unfolding optional_string to_str
  optional_string_round_trip none = refl
  optional_string_round_trip (some s) = refl

  -- The floats of a vector are floats, and its rates floats or `None`.
  pub record HasFloats (p : ProgressVector) : Type 0 where
    pub wall_seconds : float_value py p.wall_seconds ≡ ok p.wall_seconds
    pub wall_cost_usd : float_value py p.wall_cost_usd ≡ ok p.wall_cost_usd
    pub recall_return_rate : optional_float py p.recall_return_rate ≡ ok p.recall_return_rate
    pub inject_yield : optional_float py p.inject_yield ≡ ok p.inject_yield
    pub serve_success_rate : optional_float py p.serve_success_rate ≡ ok p.serve_success_rate

  -- Reading a written vector whose floats are floats gives the vector, but for its missing seams:
  -- they are what the constructor makes of the seams that the dict reports. It leaves the
  -- construction-deferred seams out, and the on-only ones if nothing counts the injected blocks, so
  -- fewer seams may be read back than the dict reports.
  pub progress_round_trip :
      (p : ProgressVector)
      → HasFloats p
      → progress_from_dict py (to_dict p)
        ≡ ok (post_init (record p { missing_telemetry_seams = reported_seams p }))
  unfolding progress_from_dict to_dict maybe_int whole int_value to_str string_tuple get_default
      get_or_none truth
  progress_round_trip p h =
      rw
        (
          optional_round_trip py p.problems_before,
          optional_round_trip py p.problems_after,
          optional_round_trip py p.resolved_count,
          optional_round_trip py p.remaining_count,
          optional_round_trip py p.attempts_to_green,
          optional_round_trip py p.injected_count,
          optional_round_trip py p.injected_block_chars,
          optional_round_trip py p.injected_block_est_tokens,
          optional_round_trip py p.recall_fired_total,
          optional_round_trip py p.recall_returned_total,
          optional_round_trip py p.recall_returned_count_sum,
          optional_round_trip py p.no_keywords_count,
          optional_round_trip py p.served_attempted,
          optional_round_trip py p.served_failed,
          optional_round_trip py p.served_confirmed,
          optional_round_trip py p.consumer_injected_count,
          optional_round_trip py p.extraction_candidate_count,
          optional_round_trip py p.accepted_count,
          optional_round_trip py p.rejected_count,
          optional_round_trip py p.tool_calls,
          optional_round_trip py p.test_invocations,
          optional_round_trip py p.agentic_cycles,
          optional_round_trip py p.http_429_count,
          optional_round_trip py p.http_402_count,
          optional_round_trip py p.retry_count,
          optional_round_trip py p.upstream_error_count,
          optional_round_trip py p.max_request_ms,
          optional_round_trip py p.median_request_ms,
        )
        (rw
          (
            h.wall_seconds,
            h.wall_cost_usd,
            h.recall_return_rate,
            h.inject_yield,
            h.serve_success_rate,
            to_str-map py p.rejected_reasons,
            to_str-map py p.failed_gates,
            to_str-map py (reported_seams p),
            optional_truth_round_trip p.wall_near_timeout,
            optional_string_round_trip p.worker_image_id,
            optional_string_round_trip p.worker_image_created,
          )
          refl)
