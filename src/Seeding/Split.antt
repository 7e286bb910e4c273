-- ===== src/Seeding/Split.antt =====
-- The plan that `build_split` returns.
use mathlib.Core.List.Perm
use mathlib.Core.List.{Perm}
use wevibe_bench.Prelude.{
  ◌≡◌, ◌≢◌, ◌↔◌, ◌⊎◌, refl, sym, ◌∙◌, Bool, true, false, Option, List, ◌∷◌, ◌++◌, map, String,
  arith, keep, All, ok, raise, ok-inj, subst, inl, inr,
}
use wevibe_bench.Prelude.Sort.{sort, IsSorted, sort-perm, All-sort, sort-IsSorted}
use wevibe_bench.Seeding.{
  Task, SplitPlan, Straddle, is_seed, is_heldout, by_time_and_id, assert_no_straddle, straddle_of,
  key_or_group, build_split,
}
use wevibe_bench.Seeding.Groups.{
  keep-All, keep_perm, All-mono, List-cases, IsSeparated, assert_no_straddle-nil,
}

module _ {T : Type 0} (lt : T → T → Bool) (le_text : String → String → Bool) where
  -- What a datetime's order and a text's are: total orders; times may be tied.
  pub record IsOrder : Type 0 where
    pub lt_asymm : (a b : T) → lt a b ≡ true → lt b a ≡ false
    pub lt_between : (a b c : T) → lt a c ≡ true → (lt a b ≡ true) ⊎ (lt b c ≡ true)
    pub le_text_total : (a b : String) → le_text a b ≡ false → le_text b a ≡ true
    pub le_text_trans :
        (a b c : String) → le_text a b ≡ true → le_text b c ≡ true → le_text a c ≡ true

  module _ (o : IsOrder) where
    by_time_and_id_total :
        (a b : Task T)
        → by_time_and_id lt le_text a b ≡ false
        → by_time_and_id lt le_text b a ≡ true
    by_time_and_id_total a b h = ground (arith, o.le_text_total a.task_id b.task_id)

    by_time_and_id_trans :
        (a b c : Task T)
        → by_time_and_id lt le_text a b ≡ true
        → by_time_and_id lt le_text b c ≡ true
        → by_time_and_id lt le_text a c ≡ true
    by_time_and_id_trans a b c h k = ground (
      arith,
      o.le_text_trans a.task_id b.task_id c.task_id,
      o.lt_asymm a.timestamp b.timestamp,
      o.lt_asymm a.timestamp c.timestamp,
      o.lt_asymm b.timestamp c.timestamp,
      o.lt_between a.timestamp b.timestamp c.timestamp,
      o.lt_between b.timestamp a.timestamp c.timestamp,
      o.lt_between a.timestamp c.timestamp b.timestamp,
      o.lt_between c.timestamp a.timestamp b.timestamp,
      o.lt_between c.timestamp b.timestamp a.timestamp,
    )

  -- A plan has every task once: the seeds are the tasks before the cutoff, the held-out ones the
  -- others, each sorted, and no group is in both.
  pub record IsSplit (tasks : List (Task T)) (cutoff : T) (key_fn : Task T → String)
      (plan : SplitPlan T) : Type 0 where
    pub complete : Perm (plan.seed_tasks ++ plan.heldout_tasks) tasks
    pub before : All (λ t. lt t.timestamp cutoff ≡ true) plan.seed_tasks
    pub behind : All (λ t. lt t.timestamp cutoff ≡ false) plan.heldout_tasks
    pub seeds_sorted : IsSorted (by_time_and_id lt le_text) plan.seed_tasks
    pub heldouts_sorted : IsSorted (by_time_and_id lt le_text) plan.heldout_tasks
    pub separated : IsSeparated lt le_text key_fn plan.seed_tasks plan.heldout_tasks
    pub same_cutoff : plan.cutoff ≡ cutoff

  abbrev sorted_plan : List (Task T) → T → SplitPlan T
  unfolding sort
  sorted_plan tasks cutoff = record {
    seed_tasks = sort (by_time_and_id lt le_text) (keep (is_seed lt le_text cutoff) tasks);
    heldout_tasks = sort (by_time_and_id lt le_text) (keep (is_heldout lt le_text cutoff) tasks);
    cutoff = cutoff;
  }

  sorted_plan-IsSplit :
      (tasks : List (Task T)) (cutoff : T) (key_fn : Task T → String)
      → IsOrder
      → IsSeparated lt le_text key_fn
          (keep (is_seed lt le_text cutoff) tasks)
          (keep (is_heldout lt le_text cutoff) tasks)
      → IsSplit tasks cutoff key_fn (sorted_plan tasks cutoff)
  unfolding sort
  sorted_plan-IsSplit tasks cutoff key_fn o apart =
      let order = by_time_and_id lt le_text in
      let seeds = keep (is_seed lt le_text cutoff) tasks in
      let heldouts = keep (is_heldout lt le_text cutoff) tasks in
      let total = by_time_and_id_total o in
      let trans = by_time_and_id_trans o in
      record {
        complete =
            Perm.trans (Perm.append (sort-perm order seeds) (sort-perm order heldouts))
              (keep_perm (is_seed lt le_text cutoff) tasks);
        before =
            All-sort order (λ t. lt t.timestamp cutoff ≡ true) seeds
              (keep-All (is_seed lt le_text cutoff) tasks);
        behind =
            All-sort order (λ t. lt t.timestamp cutoff ≡ false) heldouts
              (All-mono (λ t h. ground arith) heldouts
                (keep-All (is_heldout lt le_text cutoff) tasks));
        seeds_sorted = sort-IsSorted order total trans seeds;
        heldouts_sorted = sort-IsSorted order total trans heldouts;
        separated =
            All-sort order (λ s. All (λ h. key_fn s ≢ key_fn h) (sort order heldouts)) seeds
              (All-mono (λ s. All-sort order (λ h. key_fn s ≢ key_fn h) heldouts) seeds apart);
        same_cutoff = refl;
      }

  module _ (tasks : List (Task T)) (cutoff : T) (group_key : Option (Task T → String)) where
    abbrev key_fn : Task T → String
    key_fn = key_or_group group_key

    abbrev AreSeparated : Type 0
    AreSeparated =
        IsSeparated lt le_text key_fn (keep (is_seed lt le_text cutoff) tasks)
          (keep (is_heldout lt le_text cutoff) tasks)

    build_split_by_groups :
        (AreSeparated
          × (build_split lt le_text tasks cutoff group_key ≡ ok (sorted_plan tasks cutoff)))
        ⊎ (¬ AreSeparated
            × ((v : List Straddle) × (build_split lt le_text tasks cutoff group_key ≡ raise v)))
    unfolding build_split sort
    build_split_by_groups =
        let found = assert_no_straddle-nil lt le_text tasks cutoff key_fn in
        elim (List-cases (assert_no_straddle lt le_text tasks cutoff key_fn)) [
          | inl e ↦ inl (found.0 e, rw (e, build_split) refl)
          | inr (g, gs, e) ↦
              let s = sorted_plan tasks cutoff in
              let v =
                map (straddle_of lt le_text key_fn s.seed_tasks s.heldout_tasks)
                  (sort le_text (g ∷ gs)) in
              inr ((λ h. absurd (cc (found.1 h, e))), (v, rw (e, build_split) refl))
        ]

    -- A plan is made exactly if no task before the cutoff shares its group with one behind it; else
    -- the call raises.
    pub build_split-ok_iff :
        ((plan : SplitPlan T) × (build_split lt le_text tasks cutoff group_key ≡ ok plan))
        ↔ IsSeparated lt le_text
            (key_or_group group_key)
            (keep (is_seed lt le_text cutoff) tasks)
            (keep (is_heldout lt le_text cutoff) tasks)
    build_split-ok_iff = elim build_split_by_groups [
      | inl (apart, e) ↦ ((λ _. apart), (λ _. (sorted_plan tasks cutoff, e)))
      | inr (shared, (v, e)) ↦ ((λ (plan, f). absurd (cc (e, f))), (λ h. absurd (shared h)))
    ]

    -- For times and texts in a total order: if there is a plan, it has each task once, the tasks
    -- before the cutoff as seeds and the others held out, each sorted by time and id, and no group
    -- has tasks in both.
    pub build_split-IsSplit :
        (plan : SplitPlan T)
        → IsOrder
        → build_split lt le_text tasks cutoff group_key ≡ ok plan
        → IsSplit tasks cutoff (key_or_group group_key) plan
    build_split-IsSplit plan o h = elim build_split_by_groups [
      | inr (shared, (v, e)) ↦ absurd (cc (e, h))
      | inl (apart, e) ↦
          subst (IsSplit tasks cutoff (key_or_group group_key))
            (ok-inj (sorted_plan tasks cutoff) plan (sym e ∙ h))
            (sorted_plan-IsSplit tasks cutoff key_fn o apart)
    ]
