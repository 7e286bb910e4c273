-- ===== src/Report.antt =====
-- wevibe_bench/scorecard.py: what the cells of a run say of each model with and without memory.
pub mod Integrity
pub mod Counts
pub mod Complete
mod Tests
use wevibe_bench.Prelude.{
  ℕ, ◌==◌, Bool, true, false, not, ◌||◌, Option, none, some, List, [], ◌∷◌, ◌++◌, map, String,
  str_eq, length, keep, count_if, if◌then◌else◌,
}
use wevibe_bench.Prelude.Int.{ℤ, pos, ◌+ℤ◌, ◌-ℤ◌, ltb_ℤ, eqb_ℤ}
use wevibe_bench.Prelude.Sort.{sort}
use wevibe_bench.Proxy.Double.{Double, nought}
use wevibe_bench.Proxy.Profile.{is_none, strip_prefix}
use wevibe_bench.Seeding.{distinct}

pub record Cell (W : Type 0) : Type 0 where
  pub model : String
  pub task_id : String
  pub condition : String
  pub resolved : Bool
  pub input_tokens : ℤ
  pub output_tokens : ℤ
  pub turns : ℤ
  pub wall_cost_usd : W
  pub wall_seconds : W
  pub delivery : String
  pub scored : Bool
  pub not_scored_reason : Option String
  pub pattern_position : Option String
  pub run_block : Option String
  pub injection_count : Option ℤ
  pub injected_block_chars : Option ℤ
  pub injected_block_est_tokens : Option ℤ
  pub memory_mode : Option String
  pub keyword_match_rate : Option W
  pub keyword_matched_count : Option ℤ
  pub keyword_served_count : Option ℤ
  pub vector_only_serve_count : Option ℤ
  pub http_429_count : Option ℤ
  pub http_402_count : Option ℤ
  pub retry_count : Option ℤ
  pub upstream_error_count : Option ℤ
  pub max_request_ms : Option ℤ
  pub median_request_ms : Option ℤ
  pub wall_near_timeout : Bool

pub record ContentionArmSummary (W : Type 0) : Type 0 where
  pub cell_count : ℕ
  pub measured_cell_count : ℕ
  pub http_429_count_mean : Option W
  pub http_429_count_max : Option ℤ
  pub http_402_count_mean : Option W
  pub http_402_count_max : Option ℤ
  pub retry_count_mean : Option W
  pub retry_count_max : Option ℤ
  pub upstream_error_count_mean : Option W
  pub upstream_error_count_max : Option ℤ
  pub median_request_ms_mean : Option W
  pub max_request_ms_max : Option ℤ

pub record ModelDiff (W : Type 0) : Type 0 where
  pub model : String
  pub off_pass_rate : W
  pub on_pass_rate : W
  pub capability_lift_pp : W
  pub off_total_tokens : ℤ
  pub on_total_tokens : ℤ
  pub total_token_delta_pct : W
  pub off_cost_usd : W
  pub on_cost_usd : W
  pub cost_delta_pct : W
  pub off_n : ℕ
  pub on_scored_n : ℕ
  pub on_not_scored_n : ℕ
  pub off_contention : ContentionArmSummary W
  pub on_contention : ContentionArmSummary W
  pub on_condition : String

-- `sum` of integers
abbrev pub sum_int : List ℤ → ℤ
unfolding ◌+ℤ◌
sum_int [] = pos 0
sum_int (n ∷ ns) = n +ℤ sum_int ns

-- `_max_int`
unfoldable pub max_int : List ℤ → Option ℤ
max_int [] = none
max_int (n ∷ ns) = elim (max_int ns) [ none ↦ some n | some m ↦ some (if ltb_ℤ n m then m else n) ]

-- the values that are not `None`
abbrev pub given : List (Option ℤ) → List ℤ
given [] = []
given (none ∷ rest) = given rest
given (some n ∷ rest) = n ∷ given rest

-- `condition.startswith("ON")`
abbrev pub starts_on : String → Bool
unfolding strip_prefix
starts_on condition = not (is_none (strip_prefix "ON" condition))

-- `ratio` is the division of two integers with `/`, and `le_text` the order of texts. The sum of no
-- floats, which is the integer 0 in Python, is the float 0 here.
module _ {W : Type 0} (fl : Double W) (ratio : ℤ → ℤ → W) (le_text : String → String → Bool) where
  abbrev pub total_tokens : Cell W → ℤ
  unfolding ◌+ℤ◌
  total_tokens c = c.input_tokens +ℤ c.output_tokens

  -- `_mean_int`
  abbrev pub mean_int : List ℤ → Option W
  mean_int [] = none
  mean_int (n ∷ ns) = some (ratio (sum_int (n ∷ ns)) (pos (length (n ∷ ns))))

  abbrev pub is_measured : Cell W → Bool
  is_measured c =
      not (is_none c.http_429_count)
      || not (is_none c.http_402_count)
      || not (is_none c.retry_count)
      || not (is_none c.upstream_error_count)
      || not (is_none c.max_request_ms)
      || not (is_none c.median_request_ms)

  -- `_contention_summary`
  unfoldable pub contention_summary : List (Cell W) → ContentionArmSummary W
  unfolding max_int
  contention_summary cells =
      let measured = keep is_measured cells in
      let http_429_counts = given (map (λ c. c.http_429_count) measured) in
      let http_402_counts = given (map (λ c. c.http_402_count) measured) in
      let retry_counts = given (map (λ c. c.retry_count) measured) in
      let upstream_error_counts = given (map (λ c. c.upstream_error_count) measured) in
      let median_request_ms = given (map (λ c. c.median_request_ms) measured) in
      let max_request_ms = given (map (λ c. c.max_request_ms) measured) in
      record {
        cell_count = length cells;
        measured_cell_count = length measured;
        http_429_count_mean = mean_int http_429_counts;
        http_429_count_max = max_int http_429_counts;
        http_402_count_mean = mean_int http_402_counts;
        http_402_count_max = max_int http_402_counts;
        retry_count_mean = mean_int retry_counts;
        retry_count_max = max_int retry_counts;
        upstream_error_count_mean = mean_int upstream_error_counts;
        upstream_error_count_max = max_int upstream_error_counts;
        median_request_ms_mean = mean_int median_request_ms;
        max_request_ms_max = max_int max_request_ms;
      }

  abbrev pass_rate : List (Cell W) → W
  pass_rate cells =
      if length cells == 0
      then nought fl
      else ratio (pos (count_if (λ c. c.resolved) cells)) (pos (length cells))

  abbrev hundred : W
  hundred = fl.literal 100 0

  -- the comparison of two arms; of the cells that are not scored it takes the number
  unfoldable pub diff_of :
      (model on_condition : String)
      → (off_cells on_scored : List (Cell W)) → (on_not_scored_n : ℕ) → ModelDiff W
  unfolding contention_summary ◌-ℤ◌
  diff_of model on_condition off_cells on_scored on_not_scored_n =
      let off_pass_rate = pass_rate off_cells in
      let on_pass_rate = pass_rate on_scored in
      let off_total_tokens = sum_int (map total_tokens off_cells) in
      let on_total_tokens = sum_int (map total_tokens on_scored) in
      let off_cost_usd = fl.sum (map (λ c. c.wall_cost_usd) off_cells) in
      let on_cost_usd = fl.sum (map (λ c. c.wall_cost_usd) on_scored) in
      record {
        model = model;
        off_pass_rate = off_pass_rate;
        on_pass_rate = on_pass_rate;
        capability_lift_pp = fl.mul (fl.sub on_pass_rate off_pass_rate) hundred;
        off_total_tokens = off_total_tokens;
        on_total_tokens = on_total_tokens;
        total_token_delta_pct =
            if eqb_ℤ off_total_tokens (pos 0)
            then nought fl
            else fl.mul (ratio (on_total_tokens -ℤ off_total_tokens) off_total_tokens) hundred;
        off_cost_usd = off_cost_usd;
        on_cost_usd = on_cost_usd;
        cost_delta_pct =
            if fl.eq off_cost_usd (nought fl)
            then nought fl
            else fl.mul (fl.div (fl.sub on_cost_usd off_cost_usd) off_cost_usd) hundred;
        off_n = length off_cells;
        on_scored_n = length on_scored;
        on_not_scored_n = on_not_scored_n;
        off_contention = contention_summary off_cells;
        on_contention = contention_summary on_scored;
        on_condition = on_condition;
      }

  -- the body of the inner loop
  unfoldable pub condition_diff : String → List (Cell W) → String → ModelDiff W
  unfolding diff_of
  condition_diff model model_cells on_condition =
      let on_cells = keep (λ c. str_eq c.condition on_condition) model_cells in
      diff_of model on_condition (keep (λ c. str_eq c.condition "OFF") model_cells)
        (keep (λ c. c.scored) on_cells) (length (keep (λ c. not c.scored) on_cells))

  abbrev pub on_conditions : List (Cell W) → List String
  unfolding sort
  on_conditions cells = sort le_text (distinct (keep starts_on (map (λ c. c.condition) cells)))

  abbrev pub cells_of : String → List (Cell W) → List (Cell W)
  cells_of model = keep (λ c. str_eq c.model model)

  -- the body of the outer loop
  unfoldable pub diffs_of_model : List (Cell W) → String → List (ModelDiff W)
  unfolding condition_diff
  diffs_of_model cells model =
      let model_cells = cells_of model cells in
      map (condition_diff model model_cells) (on_conditions model_cells)

  unfoldable pub diffs_of_models : List (Cell W) → List String → List (ModelDiff W)
  unfolding diffs_of_model
  diffs_of_models cells [] = []
  diffs_of_models cells (m ∷ ms) = diffs_of_model cells m ++ diffs_of_models cells ms

  unfoldable pub model_diffs : List (Cell W) → List (ModelDiff W)
  unfolding diffs_of_models sort
  model_diffs cells = diffs_of_models cells (sort le_text (distinct (map (λ c. c.model) cells)))
