-- ===== src/Cumulative/Progress/FromCell.antt =====
-- Cell telemetry as a progress vector: wevibe_bench/cumulative/progress.py.
use wevibe_bench.Prelude.{
  ◌%◌, ◌^◌, Bool, false, not, Option, none, some, List, [], map, String, str_eq, length, ◌+◌,
  Result, ok, raise, ◌>>=◌, ◌==◌, if◌then◌else◌,
}
use wevibe_bench.Prelude.Int.{ℤ, pos, ◌+ℤ◌, ◌-ℤ◌, pos_part, neg_part, ltb_ℤ}
use wevibe_bench.Prelude.Text.{strip, is_truthy}
use wevibe_bench.Prelude.Json.{
  Json, null, bool, int, float, str, arr, obj, Builtins, get, truth, to_str, truncate, to_list,
}
use wevibe_bench.Cumulative.Errors.{Error, bad_value, overflow_error}
use wevibe_bench.Cumulative.Progress.{ProgressVector, post_init}
use wevibe_bench.Cumulative.Progress.Seams.{missing_telemetry_seams}

-- `_field`: a result is a dict, or an object whose attributes are given as a dict. `none` is
-- `_MISSING`.
unfoldable pub field_of : Json → String → Option Json
unfolding get
field_of (obj fs) name = get name fs
field_of _ name = none

-- `text[1:] if text[0] in "+-" else text`
unfoldable pub signless : String → String
signless String.[] = String.[]
signless (String.◌∷◌ c s) =
    if str_eq (String.◌∷◌ c String.[]) "+"
    then s
    else if str_eq (String.◌∷◌ c String.[]) "-"
    then s
    else String.◌∷◌ c s

-- `str.isdigit` is a parameter: it and `int` do not agree on every text.
module _ (py : Builtins) (is_digits : String → Bool) where
  -- `_optional_int`
  unfoldable pub parse_int : String → Result Error (Option ℤ)
  unfolding strip signless
  parse_int s =
      let text = strip s in
      if not (is_truthy text)
      then ok none
      else if not (is_digits (signless text))
      then ok none
      else elim (py.int_of text) [ none ↦ raise bad_value | some n ↦ ok (some n) ]

  unfoldable pub optional_int : Option Json → Result Error (Option ℤ)
  unfolding parse_int truncate
  optional_int (some (int n)) = ok (some n)
  optional_int (some (str s)) = parse_int s
  optional_int (some (float m k)) =
      ok (if (pos_part m + neg_part m) % 2 ^ k == 0 then some (truncate m k) else none)
  optional_int _ = ok none

  -- `_int_or_default`
  unfoldable pub int_or_default : ℤ → Option Json → Result Error ℤ
  unfolding optional_int
  int_or_default d v = do n ← optional_int v; ok (elim n [ none ↦ d | some k ↦ k ])

  -- `_float_or_default`: of an int `float` raises OverflowError alone, which is not caught
  unfoldable pub float_or_default : Json → Option Json → Result Error Json
  float_or_default d none = ok d
  float_or_default d (some null) = ok d
  float_or_default d (some (bool b)) = ok d
  float_or_default d (some (int n)) = elim (py.float_of (int n)) [
    | none ↦ raise overflow_error
    | some x ↦ ok x
  ]
  float_or_default d (some v) = elim (py.float_of v) [ none ↦ ok d | some x ↦ ok x ]

  -- `_bool_or_default`
  unfoldable pub bool_or_default : Bool → Option Json → Bool
  unfolding truth
  bool_or_default d none = d
  bool_or_default d (some null) = d
  bool_or_default d (some v) = truth v

  -- `_str_or_default` and `_optional_str`
  unfoldable pub optional_str : Option Json → Option String
  unfolding to_str
  optional_str none = none
  optional_str (some null) = none
  optional_str (some v) = some (to_str py v)

  unfoldable pub str_or_default : String → Option Json → String
  unfolding optional_str
  str_or_default d v = elim (optional_str v) [ none ↦ d | some s ↦ s ]

  -- `_str_list`
  unfoldable pub str_list : Option Json → List String
  unfolding to_str
  str_list (some (arr items)) = map (to_str py) (to_list items)
  str_list _ = []

  pub record ContentionFields : Type 0 where
    pub http_429_count : Option ℤ
    pub http_402_count : Option ℤ
    pub retry_count : Option ℤ
    pub upstream_error_count : Option ℤ
    pub max_request_ms : Option ℤ
    pub median_request_ms : Option ℤ
    pub wall_near_timeout : Option Bool

  -- the defaults of `ProgressVector`, which stand where `_contention_fields` returns `{}`
  abbrev pub no_contention : ContentionFields
  no_contention = record {
    http_429_count = none;
    http_402_count = none;
    retry_count = none;
    upstream_error_count = none;
    max_request_ms = none;
    median_request_ms = none;
    wall_near_timeout = none;
  }

  unfoldable pub read_contention : Json → Result Error ContentionFields
  unfolding int_or_default field_of bool_or_default
  read_contention c = do
    http_429_count ← int_or_default (pos 0) (field_of c "http_429_count")
    http_402_count ← int_or_default (pos 0) (field_of c "http_402_count")
    retry_count ← int_or_default (pos 0) (field_of c "retry_count")
    upstream_error_count ← int_or_default (pos 0) (field_of c "upstream_error_count")
    max_request_ms ← optional_int (field_of c "max_request_ms")
    median_request_ms ← optional_int (field_of c "median_request_ms")
    ok (record {
      http_429_count = some http_429_count;
      http_402_count = some http_402_count;
      retry_count = some retry_count;
      upstream_error_count = some upstream_error_count;
      max_request_ms = max_request_ms;
      median_request_ms = median_request_ms;
      wall_near_timeout = some (bool_or_default false (field_of c "wall_near_timeout"));
    })

  -- `_contention_fields`
  unfoldable pub contention_fields : Json → Result Error ContentionFields
  unfolding read_contention field_of
  contention_fields result = elim (field_of result "contention") [
    | none ↦ ok no_contention
    | some null ↦ ok no_contention
    | some c ↦ read_contention c
  ]

  -- `_problems_after_from_result`
  unfoldable pub problems_after_from_result : Json → Result Error (Option ℤ)
  unfolding field_of optional_int
  problems_after_from_result result = elim (field_of result "problems_final") [
    | none ↦ ok none
    | some null ↦ ok none
    | some (arr items) ↦ ok (some (pos (length (to_list items))))
    | some v ↦ optional_int (some v)
  ]

  -- `_worker_image_fields`
  unfoldable pub worker_image_fields : Json → Option String × Option String
  unfolding field_of optional_str
  worker_image_fields result = elim (field_of result "worker_image_fingerprint") [
    | none ↦ (none, none)
    | some null ↦ (none, none)
    | some f ↦ (optional_str (field_of f "image_id"), optional_str (field_of f "created"))
  ]

  -- `a / b if a is not None and b is not None and b > 0 else None`
  unfoldable pub rate : Option ℤ → Option ℤ → Json
  rate (some a) (some b) = if ltb_ℤ (pos 0) b then py.divide a b else null
  rate _ _ = null

  -- `a - b if a is not None and b is not None else None`
  unfoldable pub difference : Option ℤ → Option ℤ → Option ℤ
  difference (some a) (some b) = some (a -ℤ b)
  difference _ _ = none

  abbrev or_else : Option Json → Option Json → Option Json
  or_else none v = v
  or_else v _ = v

  abbrev or_else_int : Option ℤ → Option ℤ → Option ℤ
  or_else_int none v = v
  or_else_int v _ = v

  -- `progress_from_cell_result(result, cell=cell)`; `null` stands for no cell
  unfoldable pub progress_from_cell_result : (result cell : Json) → Result Error ProgressVector
  unfolding int_or_default optional_int field_of problems_after_from_result contention_fields
      worker_image_fields rate difference bool_or_default float_or_default str_or_default str_list
  progress_from_cell_result result cell = do
    input_tokens ← int_or_default (pos 0) (field_of result "input_tokens")
    output_tokens ← int_or_default (pos 0) (field_of result "output_tokens")
    total_tokens ←
        int_or_default (input_tokens +ℤ output_tokens)
          (or_else (field_of result "total_tokens") (field_of cell "total_tokens"))
    problems_before ← optional_int (field_of result "problems_before")
    problems_after ← problems_after_from_result result
    recall_fired_total ← optional_int (field_of result "recall_fired_total")
    recall_returned_total ← optional_int (field_of result "recall_returned_total")
    recall_returned_count_sum ← optional_int (field_of result "recall_returned_count_sum")
    no_keywords_count ← optional_int (field_of result "no_keywords_count")
    served_attempted ← optional_int (field_of result "served_attempted")
    served_failed ← optional_int (field_of result "served_failed")
    served_confirmed ← optional_int (field_of result "served_confirmed")
    result_injected ← optional_int (field_of result "injected_count")
    cell_injected ← elim result_injected [
      | some n ↦ ok none
      | none ↦ optional_int (field_of cell "injection_count")
    ]
    contention ← contention_fields result
    attempts_to_green ← optional_int (field_of result "attempts_to_green")
    turns ← int_or_default (pos 0) (field_of result "turns")
    wall_seconds ← float_or_default (float (pos 0) 0) (field_of result "wall_seconds")
    wall_cost_usd ← float_or_default (float (pos 0) 0) (field_of result "wall_cost_usd")
    injected_block_chars ← optional_int (field_of result "injected_block_chars")
    injected_block_est_tokens ← optional_int (field_of result "injected_block_est_tokens")
    tool_calls ← optional_int (field_of result "tool_calls")
    test_invocations ← optional_int (field_of result "test_invocations")
    agentic_cycles ← optional_int (field_of result "agentic_cycles")
    let injected_count = or_else_int result_injected cell_injected
    let (worker_image_id, worker_image_created) = worker_image_fields result
    ok (
        post_init (record {
          problems_before = problems_before;
          problems_after = problems_after;
          resolved_count = difference problems_before problems_after;
          remaining_count = problems_after;
          full_green = bool_or_default false (field_of result "conformed");
          attempts_to_green = attempts_to_green;
          turns = turns;
          input_tokens = input_tokens;
          output_tokens = output_tokens;
          total_tokens = total_tokens;
          wall_seconds = wall_seconds;
          wall_cost_usd = wall_cost_usd;
          injected_count = injected_count;
          injected_block_chars = injected_block_chars;
          injected_block_est_tokens = injected_block_est_tokens;
          recall_fired_total = recall_fired_total;
          recall_returned_total = recall_returned_total;
          recall_returned_count_sum = recall_returned_count_sum;
          no_keywords_count = no_keywords_count;
          served_attempted = served_attempted;
          served_failed = served_failed;
          served_confirmed = served_confirmed;
          recall_return_rate = rate recall_returned_total recall_fired_total;
          inject_yield = rate injected_count recall_returned_count_sum;
          serve_success_rate = rate served_confirmed served_attempted;
          consumer_injected_count = none;
          extraction_candidate_count = none;
          accepted_count = none;
          rejected_count = none;
          rejected_reasons = [];
          memory_mode = str_or_default "" (field_of result "memory_mode");
          termination_reason = str_or_default "" (field_of result "termination_reason");
          failed_gates = str_list (field_of result "failed_gates");
          tool_calls = tool_calls;
          test_invocations = test_invocations;
          agentic_cycles = agentic_cycles;
          http_429_count = contention.http_429_count;
          http_402_count = contention.http_402_count;
          retry_count = contention.retry_count;
          upstream_error_count = contention.upstream_error_count;
          max_request_ms = contention.max_request_ms;
          median_request_ms = contention.median_request_ms;
          wall_near_timeout = contention.wall_near_timeout;
          worker_image_id = worker_image_id;
          worker_image_created = worker_image_created;
          missing_telemetry_seams = missing_telemetry_seams;
        }))
