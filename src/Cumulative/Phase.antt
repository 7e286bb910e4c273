-- ===== src/Cumulative/Phase.antt =====
-- The phases of a session: `SessionPhase`, `PhaseGroup`, `PHASE_ORDER` and `next_phase` of
-- wevibe_bench/cumulative/types.py.
use wevibe_bench.Prelude.{
  ℕ, suc, ◌≡◌, refl, ap, Option, none, some, List, [], ◌∷◌, arith, String, str_eq, eq_iff,
  get_elem?, if◌then◌else◌,
}

pub data SessionPhase : Type 0 where
  prepare_fixture run_session halted_on_gate done : SessionPhase

-- `phase.value`
unfoldable pub value : SessionPhase → String
value prepare_fixture = "PREPARE_FIXTURE"
value run_session = "RUN_SESSION"
value halted_on_gate = "HALTED_ON_GATE"
value done = "DONE"

-- `SessionPhase(text)`; `none` where it raises `ValueError`
unfoldable pub of_value : String → Option SessionPhase
of_value s =
    if str_eq s "PREPARE_FIXTURE"
    then some prepare_fixture
    else if str_eq s "RUN_SESSION"
    then some run_session
    else if str_eq s "HALTED_ON_GATE"
    then some halted_on_gate
    else if str_eq s "DONE"
    then some done
    else none

pub of_value-value : (p : SessionPhase) → of_value (value p) ≡ some p
unfolding of_value value
of_value-value prepare_fixture = refl
of_value-value run_session = refl
of_value-value halted_on_gate = refl
of_value-value done = refl

pub value_of_of_value : (s : String) (p : SessionPhase) → of_value s ≡ some p → s ≡ value p
unfolding of_value
value_of_of_value s prepare_fixture h = unfold value in ground (arith, eq_iff s "PREPARE_FIXTURE")
value_of_of_value s run_session h = unfold value in ground (arith, eq_iff s "RUN_SESSION")
value_of_of_value s halted_on_gate h = unfold value in ground (arith, eq_iff s "HALTED_ON_GATE")
value_of_of_value s done h = unfold value in ground (arith, eq_iff s "DONE")

pub value-inj : (p q : SessionPhase) → value p ≡ value q → p ≡ q
value-inj p q e = cc (of_value-value p, of_value-value q, ap of_value e)

pub data PhaseGroup : Type 0 where
  off_baseline on : PhaseGroup

unfoldable pub group_value : PhaseGroup → String
group_value off_baseline = "off_baseline"
group_value on = "on"

unfoldable pub phase_order : List SessionPhase
phase_order = prepare_fixture ∷ run_session ∷ done ∷ []

-- `_PHASE_INDEX.get(phase)`: the position in `PHASE_ORDER`
unfoldable pub phase_index : SessionPhase → Option ℕ
phase_index prepare_fixture = some 0
phase_index run_session = some 1
phase_index done = some 2
phase_index halted_on_gate = none

unfoldable pub next_phase : SessionPhase → Option SessionPhase
unfolding phase_index phase_order
next_phase p = elim (phase_index p) [ none ↦ none | some i ↦ get_elem? phase_order (suc i) ]
