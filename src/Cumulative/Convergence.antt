-- ===== src/Cumulative/Convergence.antt =====
-- The convergence trend of a run: wevibe_bench/cumulative/convergence.py.
pub mod Laws
use wevibe_bench.Prelude.{
  ℕ, zero, suc, ◌+◌, ◌%◌, ◌^◌, Bool, true, false, Option, none, some, List, [], ◌∷◌, map, String,
  ◌==◌, if◌then◌else◌, length, count_if,
}
use wevibe_bench.Prelude.Int.{ℤ, pos, ◌+ℤ◌, pos_part, neg_part, leb_ℤ}
use wevibe_bench.Prelude.Text.{strip, is_truthy}
use wevibe_bench.Prelude.Json.{
  Json, null, bool, int, float, nonfinite, str, arr, obj, Fields, end, field, Builtins, get_or_none,
  truth, to_str, truncate, of_list,
}
use wevibe_bench.Prelude.Sort.{sort}
use wevibe_bench.Cumulative.Records.{SessionRecord}
use wevibe_bench.Cumulative.Records.Codec.Parts.{optional, get_default}

abbrev pub convergence_schema_version : ℤ
convergence_schema_version = pos 1

-- What the trend reads of a session: the four fields that `SessionRecord` and `_ScoredSession`
-- (wevibe_bench/cumulative/run_artifacts.py) share.
pub record ScoredSession : Type 0 where
  pub sequence_index : ℤ
  pub session_fp : Json
  pub session_id : Json
  pub progress : Option Fields

abbrev pub of_record : SessionRecord → ScoredSession
of_record r = record {
  sequence_index = r.sequence_index;
  session_fp = r.session_fp;
  session_id = r.session_id;
  progress = r.progress;
}

-- `_coerce_optional_int`
unfoldable pub coerce_optional_int : Json → Option ℤ
unfolding truncate
coerce_optional_int (int n) = some n
coerce_optional_int (float m k) =
    if (pos_part m + neg_part m) % 2 ^ k == 0 then some (truncate m k) else none
coerce_optional_int _ = none

-- `_coerce_int` with the default 0
unfoldable pub coerce_int : Json → ℤ
unfolding coerce_optional_int
coerce_int v = elim (coerce_optional_int v) [ none ↦ pos 0 | some n ↦ n ]

-- `text[:8]`
abbrev pub take_text : ℕ → String → String
take_text zero s = String.[]
take_text (suc n) String.[] = String.[]
take_text (suc n) (String.◌∷◌ c s) = String.◌∷◌ c (take_text n s)

pub record ConvergencePoint : Type 0 where
  pub sequence_index : ℤ
  pub session_fp : String
  pub problems_before : Option ℤ
  pub problems_after : Option ℤ
  pub resolved_count : Option ℤ
  pub remaining_count : Option ℤ
  pub full_green : Bool
  pub attempts_to_green : Option ℤ
  pub turns : ℤ
  pub total_tokens : ℤ
  pub wall_seconds : Json
  pub wall_cost_usd : Json
  pub tool_calls : Option ℤ
  pub test_invocations : Option ℤ
  pub agentic_cycles : Option ℤ

-- `progress.get("full_green", False)`, if that is a Boolean
unfoldable pub is_green : Fields → Bool
unfolding get_default
is_green progress = elim (get_default "full_green" (bool false) progress) [ bool b ↦ b | _ ↦ false ]

module _ (py : Builtins) where
  -- `_coerce_float` with the default 0.0. `float` of an int beyond the floats raises OverflowError,
  -- which the source does not catch; here it gives the default.
  unfoldable pub coerce_float : Json → Json
  coerce_float null = float (pos 0) 0
  coerce_float (bool b) = float (pos 0) 0
  coerce_float (str s) = float (pos 0) 0
  coerce_float v = elim (py.float_of v) [ none ↦ float (pos 0) 0 | some x ↦ x ]

  -- `SessionRecord.session_fp_of`
  unfoldable pub session_fp_of : String → String
  session_fp_of session_id = take_text 8 (py.sha256 session_id)

  -- `str(value or "").strip()`
  unfoldable pub stripped : Json → String
  unfolding truth to_str strip
  stripped v = strip (elim (truth v) [ true ↦ to_str py v | false ↦ "" ])

  -- the fingerprint of a session: its own, else that of its id, else `none`
  unfoldable pub fingerprint : ScoredSession → String
  unfolding stripped session_fp_of
  fingerprint r =
      if is_truthy (stripped r.session_fp)
      then stripped r.session_fp
      else if is_truthy (stripped r.session_id)
      then session_fp_of (stripped r.session_id)
      else "none"

  unfoldable pub point : ScoredSession → Fields → ConvergencePoint
  unfolding fingerprint coerce_int coerce_float is_green get_or_none
  point r progress = record {
    sequence_index = r.sequence_index;
    session_fp = fingerprint r;
    problems_before = coerce_optional_int (get_or_none "problems_before" progress);
    problems_after = coerce_optional_int (get_or_none "problems_after" progress);
    resolved_count = coerce_optional_int (get_or_none "resolved_count" progress);
    remaining_count = coerce_optional_int (get_or_none "remaining_count" progress);
    full_green = is_green progress;
    attempts_to_green = coerce_optional_int (get_or_none "attempts_to_green" progress);
    turns = coerce_int (get_or_none "turns" progress);
    total_tokens = coerce_int (get_or_none "total_tokens" progress);
    wall_seconds = coerce_float (get_or_none "wall_seconds" progress);
    wall_cost_usd = coerce_float (get_or_none "wall_cost_usd" progress);
    tool_calls = coerce_optional_int (get_or_none "tool_calls" progress);
    test_invocations = coerce_optional_int (get_or_none "test_invocations" progress);
    agentic_cycles = coerce_optional_int (get_or_none "agentic_cycles" progress);
  }

  -- `ConvergencePoint.from_session_record`
  unfoldable pub from_session_record : ScoredSession → Option ConvergencePoint
  unfolding point
  from_session_record r = elim r.progress [ none ↦ none | some p ↦ some (point r p) ]

-- `ConvergencePoint.to_dict`
unfoldable pub point_to_dict : ConvergencePoint → Fields
point_to_dict p = field "sequence_index" (int p.sequence_index) (
    field "session_fp" (str p.session_fp) (
      field "problems_before" (optional p.problems_before) (
        field "problems_after" (optional p.problems_after) (
          field "resolved_count" (optional p.resolved_count) (
            field "remaining_count" (optional p.remaining_count) (
              field "full_green" (bool p.full_green) (
                field "attempts_to_green" (optional p.attempts_to_green) (
                  field "turns" (int p.turns) (
                    field "total_tokens" (int p.total_tokens) (
                      field "wall_seconds" p.wall_seconds (
                        field "wall_cost_usd" p.wall_cost_usd (
                          field "tool_calls" (optional p.tool_calls) (
                            field "test_invocations" (optional p.test_invocations)
                              (field "agentic_cycles" (optional p.agentic_cycles) end))))))))))))))

pub record ConvergenceTrend : Type 0 where
  pub schema_version : ℤ
  pub points : List ConvergencePoint
  pub sessions_completed : ℕ
  pub sessions_green : ℕ
  pub resolved_total : Option ℤ
  pub tokens_total : ℤ
  pub wall_seconds_total : Json
  pub wall_cost_usd_total : Json

abbrev pub by_index : ConvergencePoint → ConvergencePoint → Bool
by_index p q = leb_ℤ p.sequence_index q.sequence_index

-- the values that are there, and `sum`
abbrev pub present {ℓ} : {A : Type ℓ} → List (Option A) → List A
present [] = []
present (none ∷ xs) = present xs
present (some a ∷ xs) = a ∷ present xs

abbrev pub sum_from : ℤ → List ℤ → ℤ
sum_from acc [] = acc
sum_from acc (x ∷ xs) = sum_from (acc +ℤ x) xs

abbrev pub sum_or_none : List ℤ → Option ℤ
sum_or_none [] = none
sum_or_none (x ∷ xs) = some (sum_from (pos 0) (x ∷ xs))

module _ (py : Builtins) where
  -- `build_convergence_trend` of the points, once they are sorted
  unfoldable pub trend_of : List ConvergencePoint → ConvergenceTrend
  trend_of points = record {
    schema_version = convergence_schema_version;
    points = points;
    sessions_completed = length points;
    sessions_green = count_if (λ p. p.full_green) points;
    resolved_total = sum_or_none (present (map (λ p. p.resolved_count) points));
    tokens_total = sum_from (pos 0) (map (λ p. p.total_tokens) points);
    wall_seconds_total = py.float_sum (map (λ p. p.wall_seconds) points);
    wall_cost_usd_total = py.float_sum (map (λ p. p.wall_cost_usd) points);
  }

  -- `build_convergence_trend`
  unfoldable pub build_convergence_trend : List ScoredSession → ConvergenceTrend
  unfolding trend_of sort from_session_record
  build_convergence_trend records =
      trend_of (sort by_index (present (map (from_session_record py) records)))

  -- `trend_hash`
  unfoldable pub trend_hash : ConvergenceTrend → String
  unfolding point_to_dict
  trend_hash t =
      take_text 8 (py.sha256 (py.dumps (arr (of_list (map (λ p. obj (point_to_dict p)) t.points)))))

  -- `ConvergenceTrend.to_dict`
  unfoldable pub trend_to_dict : ConvergenceTrend → Fields
  unfolding trend_hash point_to_dict
  trend_to_dict t = field "schema_version" (int t.schema_version) (
      field "points" (arr (of_list (map (λ p. obj (point_to_dict p)) t.points))) (
        field "sessions_completed" (int (pos t.sessions_completed)) (
          field "sessions_green" (int (pos t.sessions_green)) (
            field "resolved_total" (optional t.resolved_total) (
              field "tokens_total" (int t.tokens_total) (
                field "wall_seconds_total" t.wall_seconds_total (
                  field "wall_cost_usd_total" t.wall_cost_usd_total
                    (field "trend_hash" (str (trend_hash t)) end))))))))
