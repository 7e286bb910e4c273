-- ===== src/Report/Tests.antt =====
-- Three cells of a model: one with memory off, one scored with memory on, and one that is not scored.
use wevibe_bench.Prelude.{
  any, ℕ, map, ◌≡◌, refl, Bool, true, false, none, List, [], ◌∷◌, String, All, inl, inr, leb,
}
use wevibe_bench.Prelude.Int.{ℤ, pos}
use wevibe_bench.Proxy.Policy.{utf8_length}
use wevibe_bench.Proxy.Profile.{strip_prefix}
use wevibe_bench.Proxy.Tests.Data.{micros}
use wevibe_bench.Report.{Cell, ModelDiff, model_diffs}
use wevibe_bench.Report.Integrity.{AllAlike, model_diffs-AllAlike}
use wevibe_bench.Report.Complete.{shows, model_diffs-shows}
use wevibe_bench.Report.Counts.{IsCounted, model_diffs-IsCounted}

abbrev shorter : String → String → Bool
unfolding utf8_length
shorter a b = leb (utf8_length a) (utf8_length b)

-- the quotient in millionths, for counts
abbrev ratio : ℤ → ℤ → ℤ
ratio a b = micros.div a b

abbrev cell : String → (resolved scored : Bool) → (tokens : ℤ) → Cell ℤ
cell condition resolved scored tokens = record {
  model = "m";
  task_id = "t";
  condition = condition;
  resolved = resolved;
  input_tokens = tokens;
  output_tokens = pos 0;
  turns = pos 1;
  wall_cost_usd = tokens;
  wall_seconds = pos 1;
  delivery = "YES";
  scored = scored;
  not_scored_reason = none;
  pattern_position = none;
  run_block = none;
  injection_count = none;
  injected_block_chars = none;
  injected_block_est_tokens = none;
  memory_mode = none;
  keyword_match_rate = none;
  keyword_matched_count = none;
  keyword_served_count = none;
  vector_only_serve_count = none;
  http_429_count = none;
  http_402_count = none;
  retry_count = none;
  upstream_error_count = none;
  max_request_ms = none;
  median_request_ms = none;
  wall_near_timeout = false;
}

abbrev with_hit : List (Cell ℤ)
with_hit =
    cell "OFF" false true (pos 5) ∷ cell "ON" true false (pos 7) ∷ cell "ON" false true (pos 4) ∷ []

abbrev with_miss : List (Cell ℤ)
with_miss =
    cell "OFF" false true (pos 5)
    ∷ cell "ON" false false (pos 0)
    ∷ cell "ON" false true (pos 4)
    ∷ []

alike : AllAlike with_hit with_miss
unfolding strip_prefix
alike = (inl refl, (inr (refl, refl, refl, refl, refl), (inl refl, tt)))

model_diffs-AllAlike_example :
    model_diffs micros ratio shorter with_hit ≡ model_diffs micros ratio shorter with_miss
model_diffs-AllAlike_example = model_diffs-AllAlike micros ratio shorter with_hit with_miss alike

model_diffs-IsCounted_example :
    All (IsCounted micros ratio shorter with_hit) (model_diffs micros ratio shorter with_hit)
model_diffs-IsCounted_example = model_diffs-IsCounted micros ratio shorter with_hit

model_diffs-shows_example :
    any (shows (cell "ON" true false (pos 7))) (model_diffs micros ratio shorter with_hit) ≡ true
unfolding strip_prefix
model_diffs-shows_example =
    model_diffs-shows micros ratio shorter (cell "OFF" false true (pos 5) ∷ [])
      (cell "ON" false true (pos 4) ∷ []) (cell "ON" true false (pos 7)) refl

-- The only difference has one scored cell and one that is not.
one_difference :
    let shown : ModelDiff ℤ → ℕ × ℕ × ℕ = λ d. (d.off_n, d.on_scored_n, d.on_not_scored_n) in
    map shown (model_diffs micros ratio shorter with_hit) ≡ (1, 1, 1) ∷ []
unfolding model_diffs strip_prefix
one_difference = refl
