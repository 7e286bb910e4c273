-- ===== src/Cumulative/Tests/Cards.antt =====
-- The scorecard and the convergence trend of a short stream.
use mathlib.Core.List.{Permᴰ}
use wevibe_bench.Prelude.{
  ℕ, ◌+◌, ◌≤◌, ◌≡◌, refl, Bool, true, false, none, some, List, [], ◌∷◌, String, ok, length,
  count_if,
}
use wevibe_bench.Prelude.Int.{pos}
use wevibe_bench.Prelude.Json.{null, str, int, bool, obj, Fields, end, field}
use wevibe_bench.Prelude.Sort.{IsSorted}
use wevibe_bench.Cumulative.Convergence.{
  ScoredSession, ConvergencePoint, by_index, build_convergence_trend,
}
use wevibe_bench.Cumulative.Convergence.Laws.{
  scored, Distinct, build_convergence_trend_counts, build_convergence_trend_order,
}
use wevibe_bench.Cumulative.Artifacts.{RunManifest}
use wevibe_bench.Cumulative.Artifacts.Scorecard.{Scorecard, given_index, scorecard_of, assemble}
use wevibe_bench.Cumulative.Artifacts.Scorecard.Laws.{find, void_of}
use wevibe_bench.Cumulative.Artifacts.Scorecard.Outcome.{
  expected_session, names, is_undelivered, is_there, terminal_record, scorecard_of-find,
  scorecard_of-names, scorecard_of_counts,
}
use wevibe_bench.Cumulative.Tests.Data.{toy_py}

abbrev toy_manifest : RunManifest
toy_manifest = record {
  schema_version = pos 1;
  run_id = "r";
  created_at = "t";
  served_model = null;
  requested_model = null;
  memory_mode = "on";
  org_id = "org";
  source_commit = null;
  worker_image_fingerprint = null;
  seed = null;
  template_hash = null;
  roster_fingerprint = null;
}

abbrev attempt : ℕ → Bool → String → Fields
attempt n green reason = field "type" (str "attempt") (
    field "sequence_index" (int (pos n)) (
      field "terminal_reason" (str reason)
        (field "progress" (obj (field "full_green" (bool green) end)) end)))

abbrev delivery : ℕ → Fields
delivery n =
    field "type" (str "delivery")
      (field "sequence_index" (int (pos n)) (field "delivery_state" (str "unverified") end))

-- a green cell, a red one, one whose stream died, and one whose delivery was unverified
abbrev stream : List Fields
stream =
    attempt 0 true ""
    ∷ attempt 1 false "attempt_ceiling_reached"
    ∷ attempt 2 false "transport_incomplete"
    ∷ attempt 3 true ""
    ∷ delivery 3
    ∷ []

abbrev session : ℕ → Bool → ScoredSession
session n green = record {
  sequence_index = pos n;
  session_fp = str "";
  session_id = null;
  progress = some (field "full_green" (bool green) end);
}

abbrev card : Scorecard toy_py
card =
    assemble toy_py toy_manifest stream (session 0 true ∷ session 1 false ∷ [])
      (record { sequence_index = pos 3; memory_mode = ""; reason = "" } ∷ [])
      (record { sequence_index = pos 2; memory_mode = ""; reason = "provider_truncation" } ∷ [])

carded : scorecard_of toy_py toy_manifest stream ≡ ok card
unfolding scorecard_of given_index
carded = refl

scorecard_of-find_example : find toy_py (pos 2) card.scored ≡ expected_session toy_py (pos 2) stream
scorecard_of-find_example = scorecard_of-find toy_py toy_manifest stream carded (pos 2)

scorecard_of-names_example :
    (names toy_py (pos 2) card.not_scored ≡ is_undelivered toy_py (pos 2) stream)
    × (names toy_py (pos 2) card.void_instrument
        ≡ is_there (void_of toy_py (terminal_record toy_py (pos 2) stream)))
scorecard_of-names_example = scorecard_of-names toy_py toy_manifest stream carded (pos 2)

scorecard_of_counts_example :
    (card.scored_pass + card.scored_fail ≡ length card.scored)
    × (card.convergence.sessions_completed ≡ length card.scored)
    × (card.convergence.sessions_green ≡ card.scored_pass)
scorecard_of_counts_example = scorecard_of_counts toy_py toy_manifest stream carded

abbrev unscored : ScoredSession
unscored = record (session 5 true) { progress = none }

abbrev later_first : List ScoredSession
later_first = session 1 false ∷ session 0 true ∷ []

build_convergence_trend_counts_example :
    let t = build_convergence_trend toy_py later_first in
    IsSorted by_index t.points
    × ((test : ConvergencePoint → Bool)
        → count_if test t.points ≡ count_if test (scored toy_py later_first))
    × (t.sessions_completed ≡ length (scored toy_py later_first))
    × (t.sessions_green ≡ count_if (λ p. p.full_green) (scored toy_py later_first))
    × (t.sessions_green ≤ t.sessions_completed)
build_convergence_trend_counts_example = build_convergence_trend_counts toy_py later_first

swapped : Permᴰ later_first (session 0 true ∷ session 1 false ∷ [])
swapped = Permᴰ.swap refl refl

later_first-Distinct : Distinct toy_py later_first
later_first-Distinct = ((λ e. cc e, tt), (tt, tt))

build_convergence_trend_order_example :
    build_convergence_trend toy_py later_first
    ≡ build_convergence_trend toy_py (session 0 true ∷ session 1 false ∷ [])
build_convergence_trend_order_example =
    build_convergence_trend_order toy_py swapped later_first-Distinct
