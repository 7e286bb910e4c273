-- ===== src/Cumulative/Gates/Laws.antt =====
-- The order of the gates, and which of them stops a walk.
use wevibe_bench.Prelude.{
  ◌≡◌, ◌≢◌, ◌↔◌, ◌⊎◌, refl, true, false, Option, none, some, List, [], ◌∷◌, String, arith, str_eq,
  eq_iff, Bool-cases, inl, inr, All,
}
use wevibe_bench.Prelude.Int.{ℤ, pos}
use wevibe_bench.Cumulative.Gates.{
  WalkGateVerdictRecord, injection_gate, work_gate, lift_gate, skipped, not_evaluated, renumbered,
  renumbered_or_none, pass_verdict, fail_verdict, not_evaluated_verdict, post_init,
  records_for_ordered_gates, first_stopping_walk_gate,
}

-- A record as its constructor leaves it: it stops the walk if it failed, and not if it was not
-- evaluated.
pub record IsNormal (g : WalkGateVerdictRecord) : Type 0 where
  pub fails : g.verdict ≡ fail_verdict → g.stops_walk ≡ true
  pub skips : g.verdict ≡ not_evaluated_verdict → g.stops_walk ≡ false

fail≢not_evaluated : ◌≢◌ {A = String} fail_verdict not_evaluated_verdict
fail≢not_evaluated = ground (arith, eq_iff fail_verdict not_evaluated_verdict)

pass≢fail : ◌≢◌ {A = String} pass_verdict fail_verdict
pass≢fail = ground (arith, eq_iff pass_verdict fail_verdict)

pub post_init-IsNormal : (g : WalkGateVerdictRecord) → IsNormal (post_init g)
unfolding post_init
post_init-IsNormal g = record {
  fails = λ e. ground (
    arith,
    eq_iff g.verdict fail_verdict,
    eq_iff g.verdict not_evaluated_verdict,
    fail≢not_evaluated,
  );
  skips = λ e. ground (
    arith,
    eq_iff g.verdict fail_verdict,
    eq_iff g.verdict not_evaluated_verdict,
    fail≢not_evaluated,
  );
}

-- Building a record from one that is normal changes nothing.
pub post_init_of_IsNormal : (g : WalkGateVerdictRecord) → IsNormal g → post_init g ≡ g
unfolding post_init
post_init_of_IsNormal g n =
    ground (arith, eq_iff g.verdict fail_verdict, eq_iff g.verdict not_evaluated_verdict)

-- Every gate of a walk is a record as its constructor leaves it.
abbrev pub AllNormal : List WalkGateVerdictRecord → Type 0
AllNormal = All IsNormal

-- Among normal records, none stops the walk exactly when none failed.
pub first_stopping_walk_gate-none_iff :
    (gs : List WalkGateVerdictRecord)
    → AllNormal gs
    → (first_stopping_walk_gate gs ≡ none) ↔ All (λ g. g.verdict ≢ fail_verdict) gs
unfolding first_stopping_walk_gate
first_stopping_walk_gate-none_iff [] n = (λ _. tt, λ _. refl)
first_stopping_walk_gate-none_iff (g ∷ gs) n =
    let (to, back) = first_stopping_walk_gate-none_iff gs n.1 in
    (
      λ e. ground (arith, eq_iff g.verdict fail_verdict, to),
      λ h. ground (arith, eq_iff g.verdict fail_verdict, back h.1),
    )

-- The gate that stops a walk failed.
pub first_stopping_walk_gate_failed :
    (gs : List WalkGateVerdictRecord) {g : WalkGateVerdictRecord}
    → first_stopping_walk_gate gs ≡ some g
    → (g.verdict ≡ fail_verdict) × (g.stops_walk ≡ true)
unfolding first_stopping_walk_gate
first_stopping_walk_gate_failed [] e = cc
first_stopping_walk_gate_failed (x ∷ gs) {g} e =
    ground (arith, eq_iff x.verdict fail_verdict, first_stopping_walk_gate_failed gs {g = g})

-- A renumbered record has the number and the name that it was given, and is normal.
pub renumbered_or_none_lem :
    (n : ℤ) (name : String) (o : Option WalkGateVerdictRecord)
    → let g = renumbered_or_none n name o in (g.ordinal ≡ n) × (g.gate ≡ name) × IsNormal g
unfolding renumbered_or_none post_init
renumbered_or_none_lem n name none = (refl, refl, post_init-IsNormal (skipped n name))
renumbered_or_none_lem n name (some g) =
    (refl, refl, post_init-IsNormal (record g { ordinal = n; gate = name }))

pub renumbered_lem :
    (n : ℤ) (name : String) (g : WalkGateVerdictRecord)
    → let r = renumbered n name g in (r.ordinal ≡ n) × (r.gate ≡ name) × IsNormal r
unfolding renumbered post_init
renumbered_lem n name g = (refl, refl, post_init-IsNormal (record g { ordinal = n; gate = name }))

pub not_evaluated_lem :
    (n : ℤ) (name : String)
    → let g = not_evaluated n name in
      (g.ordinal ≡ n) × (g.gate ≡ name) × (g.verdict ≡ not_evaluated_verdict) × IsNormal g
unfolding not_evaluated post_init
not_evaluated_lem n name = (refl, refl, refl, post_init-IsNormal (skipped n name))

module _ (i : WalkGateVerdictRecord) (w l : Option WalkGateVerdictRecord) where
  -- The three records carry their numbers and names.
  pub ordered_names :
      let (a, b, c) = records_for_ordered_gates i w l in
      (a.ordinal ≡ pos 1)
      × (b.ordinal ≡ pos 2)
      × (c.ordinal ≡ pos 3)
      × (a.gate ≡ injection_gate)
      × (b.gate ≡ work_gate)
      × (c.gate ≡ lift_gate)
  unfolding records_for_ordered_gates
  ordered_names = ground (
    arith,
    renumbered_lem (pos 1) injection_gate i,
    renumbered_or_none_lem (pos 2) work_gate w,
    renumbered_or_none_lem (pos 3) lift_gate l,
    not_evaluated_lem (pos 2) work_gate,
    not_evaluated_lem (pos 3) lift_gate,
  )

  -- Every record of an ordered walk stops the walk if it failed, and does not stop it if it was not
  -- evaluated.
  pub ordered_normal : let (a, b, c) = records_for_ordered_gates i w l in AllNormal (a ∷ b ∷ c ∷ [])
  unfolding records_for_ordered_gates
  ordered_normal =
      elim (Bool-cases (str_eq (renumbered (pos 1) injection_gate i).verdict pass_verdict)) [
        | inr e ↦ rw e (first, (unasked (pos 2) work_gate, (unasked (pos 3) lift_gate, tt)))
        | inl e ↦
            elim (Bool-cases
              (str_eq (renumbered_or_none (pos 2) work_gate w).verdict pass_verdict)) [
                | inr e' ↦ rw (e, e') (first, (second, (unasked (pos 3) lift_gate, tt)))
                | inl e' ↦
                    rw (e, e')
                      (first, (second, ((renumbered_or_none_lem (pos 3) lift_gate l).2, tt)))
              ]
      ]
    where
      first : IsNormal (renumbered (pos 1) injection_gate i)
      first = (renumbered_lem (pos 1) injection_gate i).2

      second : IsNormal (renumbered_or_none (pos 2) work_gate w)
      second = (renumbered_or_none_lem (pos 2) work_gate w).2

      unasked : (n : ℤ) (name : String) → IsNormal (not_evaluated n name)
      unasked n name = (not_evaluated_lem n name).3

  -- Of the three ordered records, one is evaluated only if all before it passed, whatever verdicts
  -- were handed in.
  pub ordered_prerequisites :
      let (a, b, c) = records_for_ordered_gates i w l in
      (b.verdict ≢ not_evaluated_verdict → a.verdict ≡ pass_verdict)
      × (c.verdict ≢ not_evaluated_verdict
          → (a.verdict ≡ pass_verdict) × (b.verdict ≡ pass_verdict))
  unfolding records_for_ordered_gates
  ordered_prerequisites = ground (
    arith,
    eq_iff (renumbered (pos 1) injection_gate i).verdict pass_verdict,
    eq_iff (renumbered_or_none (pos 2) work_gate w).verdict pass_verdict,
    not_evaluated_lem (pos 2) work_gate,
    not_evaluated_lem (pos 3) lift_gate,
  )

  -- If one of the three ordered records stops the walk, all before it passed and none behind it was
  -- evaluated.
  pub ordered_stop :
      {g : WalkGateVerdictRecord}
      → let (a, b, c) = records_for_ordered_gates i w l in
        first_stopping_walk_gate (a ∷ b ∷ c ∷ []) ≡ some g
        → ((g ≡ a) × (b.verdict ≡ not_evaluated_verdict) × (c.verdict ≡ not_evaluated_verdict))
          ⊎ ((g ≡ b) × (a.verdict ≡ pass_verdict) × (c.verdict ≡ not_evaluated_verdict))
          ⊎ ((g ≡ c) × (a.verdict ≡ pass_verdict) × (b.verdict ≡ pass_verdict))
  unfolding records_for_ordered_gates first_stopping_walk_gate
  ordered_stop {g} = ground (
    arith,
    eq_iff (renumbered (pos 1) injection_gate i).verdict pass_verdict,
    eq_iff (renumbered (pos 1) injection_gate i).verdict fail_verdict,
    eq_iff (renumbered_or_none (pos 2) work_gate w).verdict pass_verdict,
    eq_iff (renumbered_or_none (pos 2) work_gate w).verdict fail_verdict,
    eq_iff (not_evaluated (pos 2) work_gate).verdict fail_verdict,
    eq_iff (not_evaluated (pos 3) lift_gate).verdict fail_verdict,
    fail≢not_evaluated,
    pass≢fail,
    not_evaluated_lem (pos 2) work_gate,
    not_evaluated_lem (pos 3) lift_gate,
  )
