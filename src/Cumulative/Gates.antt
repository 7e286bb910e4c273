-- ===== src/Cumulative/Gates.antt =====
-- The ordered walk gates of a session: `WalkGateVerdictRecord` of
-- wevibe_bench/cumulative/types.py.
pub mod Laws
use wevibe_bench.Prelude.{
  ℕ, Bool, true, false, not, ◌&&◌, Option, none, some, List, [], ◌∷◌, String, str_eq, if◌then◌else◌,
}
use wevibe_bench.Prelude.Int.{ℤ, pos}
use wevibe_bench.Prelude.Json.{Fields, end}

-- `WalkGateName` and `WalkGateVerdict`
abbrev pub injection_gate : String
injection_gate = "injection"

abbrev pub work_gate : String
work_gate = "work"

abbrev pub lift_gate : String
lift_gate = "lift"

abbrev pub pass_verdict : String
pass_verdict = "pass"

abbrev pub fail_verdict : String
fail_verdict = "fail"

abbrev pub not_evaluated_verdict : String
not_evaluated_verdict = "not-evaluated"

pub record WalkGateVerdictRecord : Type 0 where
  pub ordinal : ℤ
  pub gate : String
  pub verdict : String
  pub evidence : Fields
  pub stops_walk : Bool
  pub expected_producer_model_ids : List String
  pub observed_producer_model_ids : List String

-- `__post_init__`: a failed gate stops the walk, and one that was not evaluated does not. The
-- second test reads `stops_walk` after the first has set it.
unfoldable pub post_init : WalkGateVerdictRecord → WalkGateVerdictRecord
post_init r =
    let stops = if str_eq r.verdict fail_verdict && not r.stops_walk then true else r.stops_walk in
    let stops' = if str_eq r.verdict not_evaluated_verdict && stops then false else stops in
    record r { stops_walk = stops' }

-- the arguments that `not_evaluated` gives to the constructor
abbrev pub skipped : ℤ → String → WalkGateVerdictRecord
skipped n name = record {
  ordinal = n;
  gate = name;
  verdict = not_evaluated_verdict;
  evidence = end;
  stops_walk = false;
  expected_producer_model_ids = [];
  observed_producer_model_ids = [];
}

-- `WalkGateVerdictRecord.not_evaluated`
unfoldable pub not_evaluated : ℤ → String → WalkGateVerdictRecord
unfolding post_init
not_evaluated n name = post_init (skipped n name)

-- `cls.from_dict({**g.to_dict(), "ordinal": n, "gate": name})`
unfoldable pub renumbered : ℤ → String → WalkGateVerdictRecord → WalkGateVerdictRecord
unfolding post_init
renumbered n name g = post_init (record g { ordinal = n; gate = name })

-- The same of an optional gate: without one the dict has only an ordinal, a name and the verdict
-- `not-evaluated`.
unfoldable pub renumbered_or_none :
    ℤ → String → Option WalkGateVerdictRecord → WalkGateVerdictRecord
unfolding renumbered not_evaluated
renumbered_or_none n name (some g) = renumbered n name g
renumbered_or_none n name none = not_evaluated n name

-- `records_for_ordered_gates`
unfoldable pub records_for_ordered_gates :
    WalkGateVerdictRecord
    → Option WalkGateVerdictRecord
    → Option WalkGateVerdictRecord
    → WalkGateVerdictRecord × WalkGateVerdictRecord × WalkGateVerdictRecord
records_for_ordered_gates injection work lift =
    let first = renumbered (pos 1) injection_gate injection in
    let second = renumbered_or_none (pos 2) work_gate work in
    let third = renumbered_or_none (pos 3) lift_gate lift in
    if not (str_eq first.verdict pass_verdict)
    then (first, not_evaluated (pos 2) work_gate, not_evaluated (pos 3) lift_gate)
    else if not (str_eq second.verdict pass_verdict)
    then (first, second, not_evaluated (pos 3) lift_gate)
    else (first, second, third)

-- `_first_stopping_walk_gate` of wevibe_bench/cumulative/sequencer.py
unfoldable pub first_stopping_walk_gate : List WalkGateVerdictRecord → Option WalkGateVerdictRecord
first_stopping_walk_gate [] = none
first_stopping_walk_gate (g ∷ gs) =
    if str_eq g.verdict fail_verdict && g.stops_walk then some g else first_stopping_walk_gate gs
