-- ===== src/Seeding.antt =====
-- wevibe_bench/seeding.py: the split of the tasks into seeds and held-out tasks at a point in time.
pub mod Groups
pub mod Split
mod Tests
use wevibe_bench.Prelude.{
  ℕ, Bool, true, false, not, ◌&&◌, ◌||◌, Option, none, some, List, [], ◌∷◌, map, ◌++◌, String,
  str_eq, length, keep, any, if◌then◌else◌, Result, ok, raise,
}
use wevibe_bench.Prelude.Text.{is_truthy}
use wevibe_bench.Prelude.Sort.{sort}

-- `T` is the type of `datetime`.
pub record Task (T : Type 0) : Type 0 where
  pub task_id : String
  pub group : String
  pub timestamp : T
  pub stack : List String
  pub provenance : String

pub record SplitPlan (T : Type 0) : Type 0 where
  pub seed_tasks : List (Task T)
  pub heldout_tasks : List (Task T)
  pub cutoff : T

-- what the message of a `SplitViolation` says of a group
pub record Straddle : Type 0 where
  pub group_key : String
  pub seed_ids : List String
  pub heldout_ids : List String

-- the values of a set, each once
abbrev pub distinct : List String → List String
distinct [] = []
distinct (x ∷ xs) = if any (str_eq x) xs then distinct xs else x ∷ distinct xs

pub record Disclosure (T : Type 0) : Type 0 where
  pub cutoff : T
  pub seed_count : ℕ
  pub heldout_count : ℕ
  pub seed_groups : List String
  pub heldout_groups : List String
  pub seed_stacks : List String
  pub heldout_stacks : List String
  pub seed_provenance : List String
  pub heldout_provenance : List String
  pub grouped_disjoint : Bool
  pub temporal_split : Bool

-- `group_key or (lambda task: task.group)`
abbrev pub key_or_group : {T : Type 0} → Option (Task T → String) → Task T → String
key_or_group none t = t.group
key_or_group (some key_fn) t = key_fn t

-- `lt` compares times, and `le_text` texts.
module _ {T : Type 0} (lt : T → T → Bool) (le_text : String → String → Bool) where
  abbrev pub is_seed : T → Task T → Bool
  is_seed cutoff t = lt t.timestamp cutoff

  -- `t.timestamp >= cutoff`
  abbrev pub is_heldout : T → Task T → Bool
  is_heldout cutoff t = not (lt t.timestamp cutoff)

  -- the order of the keys `(timestamp, task_id)`
  abbrev pub by_time_and_id : Task T → Task T → Bool
  by_time_and_id a b =
      lt a.timestamp b.timestamp
      || (not (lt b.timestamp a.timestamp) && le_text a.task_id b.task_id)

  -- `assert_no_straddle`: the groups on both sides
  unfoldable pub assert_no_straddle : List (Task T) → T → (Task T → String) → List String
  assert_no_straddle tasks cutoff key_fn =
      let seed_groups = distinct (map key_fn (keep (is_seed cutoff) tasks)) in
      let heldout_groups = distinct (map key_fn (keep (is_heldout cutoff) tasks)) in
      keep (λ g. any (str_eq g) heldout_groups) seed_groups

  abbrev pub ids_of : (Task T → String) → String → List (Task T) → List String
  unfolding sort
  ids_of key_fn g tasks =
      sort le_text (map (λ t. t.task_id) (keep (λ t. str_eq (key_fn t) g) tasks))

  abbrev pub straddle_of : (Task T → String) → (seeds heldouts : List (Task T)) → String → Straddle
  straddle_of key_fn seeds heldouts g = record {
    group_key = g;
    seed_ids = ids_of key_fn g seeds;
    heldout_ids = ids_of key_fn g heldouts;
  }

  -- A `SplitViolation` is the list that its message is made of.
  unfoldable pub build_split :
      List (Task T) → T → Option (Task T → String) → Result (List Straddle) (SplitPlan T)
  unfolding assert_no_straddle sort
  build_split tasks cutoff group_key =
      let seed_tasks = sort by_time_and_id (keep (is_seed cutoff) tasks) in
      let heldout_tasks = sort by_time_and_id (keep (is_heldout cutoff) tasks) in
      let key_fn = key_or_group group_key in
      elim (assert_no_straddle tasks cutoff key_fn) [
        | [] ↦
            ok (record { seed_tasks = seed_tasks; heldout_tasks = heldout_tasks; cutoff = cutoff })
        | straddling ↦
            raise (map (straddle_of key_fn seed_tasks heldout_tasks) (sort le_text straddling))
      ]

  abbrev pub sorted_set : List String → List String
  unfolding sort
  sorted_set xs = sort le_text (distinct xs)

  abbrev stacks_of : List (Task T) → List String
  stacks_of [] = []
  stacks_of (t ∷ ts) = t.stack ++ stacks_of ts

  unfoldable pub disclosure : SplitPlan T → Disclosure T
  unfolding sort
  disclosure plan = record {
    cutoff = plan.cutoff;
    seed_count = length plan.seed_tasks;
    heldout_count = length plan.heldout_tasks;
    seed_groups = sorted_set (map (λ t. t.group) plan.seed_tasks);
    heldout_groups = sorted_set (map (λ t. t.group) plan.heldout_tasks);
    seed_stacks = sorted_set (stacks_of plan.seed_tasks);
    heldout_stacks = sorted_set (stacks_of plan.heldout_tasks);
    seed_provenance = sorted_set (keep is_truthy (map (λ t. t.provenance) plan.seed_tasks));
    heldout_provenance = sorted_set (keep is_truthy (map (λ t. t.provenance) plan.heldout_tasks));
    grouped_disjoint = true;
    temporal_split = true;
  }
