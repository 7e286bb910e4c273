-- ===== src/Cumulative/Tests/Sessions.antt =====
-- Walk gates, schedules and progress vectors.
use wevibe_bench.Prelude.{
  ◌≡◌, ◌⊎◌, refl, true, false, not, ◌&&◌, ◌||◌, Option, none, some, List, [], ◌∷◌, ok,
}
use wevibe_bench.Prelude.Int.{ℤ, pos}
use wevibe_bench.Prelude.Json.{null, end, field}
use wevibe_bench.Cumulative.Gates.{
  WalkGateVerdictRecord, injection_gate, work_gate, lift_gate, pass_verdict, fail_verdict,
  not_evaluated_verdict, renumbered, renumbered_or_none, records_for_ordered_gates,
  first_stopping_walk_gate,
}
use wevibe_bench.Cumulative.Gates.Laws.{ordered_stop}
use wevibe_bench.Cumulative.Records.{ScheduledSession}
use wevibe_bench.Cumulative.Ordering.{build_schedule, build_on_order}
use wevibe_bench.Cumulative.Ordering.Laws.{IsSchedule, build_schedule-IsSchedule}
use wevibe_bench.Cumulative.Ordering.Explicit.{Explicit, build_on_order-Explicit}
use wevibe_bench.Cumulative.Progress.{
  ProgressVector, seam_values, reported_seams, to_dict, post_init,
}
use wevibe_bench.Cumulative.Progress.FromDict.{progress_from_dict, float_value, optional_float}
use wevibe_bench.Cumulative.Progress.RoundTrip.{HasFloats, progress_round_trip}
use wevibe_bench.Cumulative.Progress.Seams.{
  contains, on_only_seams, normalize_missing_telemetry_seams,
}
use wevibe_bench.Cumulative.Progress.Laws.{named, null_at, contains-normalize, reported_seams_modes}
use wevibe_bench.Cumulative.Tests.Data.{toy_py, toy_rng, toy_entry, toy_roster, toy_gate}

-- the injection gate passed, the work gate failed, and the lift gate was handed in as passed
abbrev injection : WalkGateVerdictRecord
injection = toy_gate injection_gate pass_verdict false

abbrev work : WalkGateVerdictRecord
work = toy_gate work_gate fail_verdict false

abbrev lift : WalkGateVerdictRecord
lift = toy_gate lift_gate pass_verdict false

stops :
    let (a, b, c) = records_for_ordered_gates injection (some work) (some lift) in
    first_stopping_walk_gate (a ∷ b ∷ c ∷ []) ≡ some b
unfolding records_for_ordered_gates first_stopping_walk_gate renumbered renumbered_or_none
stops = refl

ordered_stop_example :
    let (a, b, c) = records_for_ordered_gates injection (some work) (some lift) in
    ((b ≡ a) × (b.verdict ≡ not_evaluated_verdict) × (c.verdict ≡ not_evaluated_verdict))
    ⊎ ((b ≡ b) × (a.verdict ≡ pass_verdict) × (c.verdict ≡ not_evaluated_verdict))
    ⊎ ((b ≡ c) × (a.verdict ≡ pass_verdict) × (b.verdict ≡ pass_verdict))
ordered_stop_example = ordered_stop injection (some work) (some lift) stops

abbrev walked : List WalkGateVerdictRecord
walked =
    let (a, b, c) = records_for_ordered_gates injection (some work) (some lift) in a ∷ b ∷ c ∷ []

build_schedule-IsSchedule_example :
    (schedule : List ScheduledSession) × (build_schedule toy_py toy_rng toy_roster
        (pos 7)
        "h"
        (pos 3)
      ≡ ok schedule)
    × IsSchedule toy_roster 3 schedule
build_schedule-IsSchedule_example =
    build_schedule-IsSchedule toy_py toy_rng (pos 7) "h" toy_entry [] 3

build_on_order-Explicit_example :
    Explicit toy_roster 1 0
      ("m" ∷ "x" ∷ [])
      (build_on_order toy_py toy_rng toy_roster (pos 7) "h" (pos 2) (pos 1) (some ("m" ∷ "x" ∷ [])))
build_on_order-Explicit_example =
    build_on_order-Explicit toy_py toy_rng toy_entry [] (pos 7) "h" 2 1 ("m" ∷ "x" ∷ [])

contains-normalize_example :
    contains "turns" (
      normalize_missing_telemetry_seams
        (" turns " ∷ [])
        (field "retries" null end)
        ("retries" ∷ []))
    ≡ ((named "turns" (" turns " ∷ []) || null_at "turns" (field "retries" null end))
        && not (contains "turns" ("retries" ∷ [])))
contains-normalize_example =
    contains-normalize "turns" (" turns " ∷ []) (field "retries" null end) ("retries" ∷ [])

abbrev vector : Option ℤ → ProgressVector
vector injected = record {
  problems_before = none;
  problems_after = none;
  resolved_count = none;
  remaining_count = none;
  full_green = false;
  attempts_to_green = none;
  turns = pos 0;
  input_tokens = pos 0;
  output_tokens = pos 0;
  total_tokens = pos 0;
  wall_seconds = null;
  wall_cost_usd = null;
  injected_count = injected;
  injected_block_chars = none;
  injected_block_est_tokens = none;
  recall_fired_total = none;
  recall_returned_total = none;
  recall_returned_count_sum = none;
  no_keywords_count = none;
  served_attempted = none;
  served_failed = none;
  served_confirmed = none;
  recall_return_rate = null;
  inject_yield = null;
  serve_success_rate = null;
  consumer_injected_count = none;
  extraction_candidate_count = none;
  accepted_count = none;
  rejected_count = none;
  rejected_reasons = [];
  memory_mode = "";
  termination_reason = "";
  failed_gates = [];
  tool_calls = none;
  test_invocations = none;
  agentic_cycles = none;
  http_429_count = none;
  http_402_count = none;
  retry_count = none;
  upstream_error_count = none;
  max_request_ms = none;
  median_request_ms = none;
  wall_near_timeout = none;
  worker_image_id = none;
  worker_image_created = none;
  missing_telemetry_seams = [];
}

reported_seams_modes_example :
    ((vector (some (pos 2))).injected_count ≡ none
      → contains "served_failed" on_only_seams ≡ true
      → contains "served_failed" (reported_seams (vector (some (pos 2)))) ≡ false)
    × ((n : ℤ)
        → (vector (some (pos 2))).injected_count ≡ some n
        → null_at "served_failed" (seam_values (vector (some (pos 2)))) ≡ true
        → contains "served_failed" (reported_seams (vector (some (pos 2)))) ≡ true)
reported_seams_modes_example = reported_seams_modes "served_failed" (vector (some (pos 2)))

vector-HasFloats : HasFloats toy_py (vector none)
unfolding float_value optional_float
vector-HasFloats = record {
  wall_seconds = refl;
  wall_cost_usd = refl;
  recall_return_rate = refl;
  inject_yield = refl;
  serve_success_rate = refl;
}

progress_round_trip_example :
    progress_from_dict toy_py (to_dict (vector none))
    ≡ ok (
        post_init (record (vector none) { missing_telemetry_seams = reported_seams (vector none) }))
progress_round_trip_example = progress_round_trip toy_py (vector none) vector-HasFloats
