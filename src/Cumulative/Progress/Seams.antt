-- ===== src/Cumulative/Progress/Seams.antt =====
-- Telemetry that is missing: `_normalize_missing_telemetry_seams` of wevibe_bench/cumulative/types.py.
use wevibe_bench.Prelude.{
  Bool, true, false, not, ◌&&◌, ◌||◌, List, [], ◌∷◌, String, str_eq, if◌then◌else◌,
}
use wevibe_bench.Prelude.Json.{Json, null, Fields, end, field}
use wevibe_bench.Prelude.Text.{strip, is_truthy}

-- `name in names`
unfoldable pub contains : String → List String → Bool
contains x [] = false
contains x (y ∷ ys) = str_eq x y || contains x ys

-- `CONSTRUCTION_DEFERRED_TELEMETRY_SEAMS`, `ON_ONLY_TELEMETRY_SEAMS`; `MISSING_TELEMETRY_SEAMS`
-- is empty.
unfoldable pub construction_deferred_seams : List String
construction_deferred_seams =
    "consumer_injected_count" ∷ "extraction_candidate_count" ∷ "accepted_count" ∷ "rejected_count"
    ∷ "http_429_count" ∷ "http_402_count" ∷ "retry_count" ∷ "upstream_error_count"
    ∷ "wall_near_timeout" ∷ []

unfoldable pub on_only_seams : List String
on_only_seams =
    "injected_count" ∷ "injected_block_chars" ∷ "injected_block_est_tokens" ∷ "recall_fired_total"
    ∷ "recall_returned_total" ∷ "recall_returned_count_sum" ∷ "no_keywords_count"
    ∷ "served_attempted" ∷ "served_failed" ∷ "served_confirmed" ∷ "consumer_injected_count"
    ∷ "extraction_candidate_count" ∷ "accepted_count" ∷ "rejected_count" ∷ []

abbrev pub missing_telemetry_seams : List String
missing_telemetry_seams = []

abbrev pub snoc : List String → String → List String
snoc [] x = x ∷ []
snoc (y ∷ ys) x = y ∷ snoc ys x

abbrev pub is_null : Json → Bool
is_null null = true
is_null _ = false

module _ (excluded : List String) where
  -- one round of each of the three loops
  unfoldable pub add_seam : List String → String → List String
  unfolding contains
  add_seam normalized name =
      if not (contains name excluded) && not (contains name normalized)
      then snoc normalized name
      else normalized

  unfoldable pub add_provided : List String → List String → List String
  unfolding add_seam strip
  add_provided normalized [] = normalized
  add_provided normalized (seam ∷ seams) =
      let name = strip seam in
      add_provided (if is_truthy name then add_seam normalized name else normalized) seams

  unfoldable pub add_default : List String → List String → List String
  unfolding add_seam
  add_default normalized [] = normalized
  add_default normalized (seam ∷ seams) = add_default (add_seam normalized seam) seams

  unfoldable pub add_null : List String → Fields → List String
  unfolding add_seam
  add_null normalized end = normalized
  add_null normalized (field name value rest) =
      add_null (if is_null value then add_seam normalized name else normalized) rest

unfoldable pub normalize_missing_telemetry_seams :
    (provided : List String) (seam_values : Fields) (excluded_seams : List String) → List String
unfolding add_provided add_default add_null
normalize_missing_telemetry_seams provided values excluded =
    add_null excluded
      (add_default excluded (add_provided excluded [] provided) missing_telemetry_seams) values
