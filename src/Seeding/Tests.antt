-- ===== src/Seeding/Tests.antt =====
-- Three tasks of two groups, split at time two; the times are numbers, and texts go by their length.
use wevibe_bench.Prelude.{
  ℕ, ltb, leb, ◌≡◌, ◌↔◌, refl, arith, Bool, none, List, [], ◌∷◌, String, keep, ok,
}
use wevibe_bench.Proxy.Policy.{utf8_length}
use wevibe_bench.Seeding.{Task, SplitPlan, is_seed, is_heldout, build_split, key_or_group}
use wevibe_bench.Seeding.Groups.{IsSeparated}
use wevibe_bench.Seeding.Split.{IsOrder, IsSplit, build_split-IsSplit, build_split-ok_iff}

abbrev shorter : String → String → Bool
unfolding utf8_length
shorter a b = leb (utf8_length a) (utf8_length b)

abbrev task : String → String → ℕ → Task ℕ
task id group time = record {
  task_id = id;
  group = group;
  timestamp = time;
  stack = [];
  provenance = "";
}

abbrev tasks : List (Task ℕ)
tasks = task "late" "b" 3 ∷ task "first" "a" 1 ∷ task "zeroth" "a" 0 ∷ []

abbrev plan : SplitPlan ℕ
plan = record {
  seed_tasks = task "zeroth" "a" 0 ∷ task "first" "a" 1 ∷ [];
  heldout_tasks = task "late" "b" 3 ∷ [];
  cutoff = 2;
}

number-IsOrder : IsOrder ltb shorter
unfolding utf8_length
number-IsOrder = record {
  lt_asymm = λ a b h. ground arith;
  lt_between = λ a b c h. ground arith;
  le_text_total = λ a b h. ground arith;
  le_text_trans = λ a b c h k. ground arith;
}

planned : build_split ltb shorter tasks 2 none ≡ ok plan
unfolding build_split
planned = refl

build_split-IsSplit_example : IsSplit ltb shorter tasks 2 (key_or_group none) plan
build_split-IsSplit_example =
    build_split-IsSplit ltb shorter tasks 2 none plan number-IsOrder planned

build_split-ok_iff_example :
    ((p : SplitPlan ℕ) × (build_split ltb shorter tasks 2 none ≡ ok p))
    ↔ IsSeparated ltb shorter
        (key_or_group none)
        (keep (is_seed ltb shorter 2) tasks)
        (keep (is_heldout ltb shorter 2) tasks)
build_split-ok_iff_example = build_split-ok_iff ltb shorter tasks 2 none
