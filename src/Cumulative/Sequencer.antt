-- ===== src/Cumulative/Sequencer.antt =====
-- The sequencer of sessions: wevibe_bench/cumulative/sequencer.py.
pub mod State
pub mod Monad
pub mod Invariant
pub mod Rounds
pub mod Loop
pub mod Termination
pub mod Checks
pub mod Start
pub mod Laws
use wevibe_bench.Prelude.{
  ℕ, zero, suc, ◌-◌, Bool, true, false, not, Option, none, some, List, [], ◌∷◌, map, String, Result,
  ok, raise, if◌then◌else◌, get_elem?, set, length,
}
use wevibe_bench.Prelude.Int.{ℤ, pos, negsuc, ◌+ℤ◌, eqb_ℤ}
use wevibe_bench.Prelude.Json.{Json, null, str, int, Fields, Builtins}
use wevibe_bench.Cumulative.Errors.{
  Error, negative_index, index_drift, unknown_phase, no_stopping_gate, os_error, file_not_found,
}
use wevibe_bench.Cumulative.Phase.{
  SessionPhase, prepare_fixture, run_session, halted_on_gate, done, value, of_value,
}
use wevibe_bench.Cumulative.Gates.{WalkGateVerdictRecord, first_stopping_walk_gate}
use wevibe_bench.Cumulative.Records.{SessionRecord, CumulativeManifest, set_phase}
use wevibe_bench.Cumulative.Convergence.{of_record, build_convergence_trend, trend_to_dict}
use wevibe_bench.Cumulative.Progress.{to_dict}
use wevibe_bench.Cumulative.Progress.FromCell.{progress_from_cell_result}
use wevibe_bench.Cumulative.Manifest.{atomic_write}
use wevibe_bench.Cumulative.Artifacts.Scorecard.{Scorecard, build_scorecard}
use wevibe_bench.Cumulative.Sequencer.Monad.{Env, Machine, M, ◌>>=◌, ◌>>◌, return, lift, get}

pub record HaltedOnGate : Type 0 where
  pub sequence_index : ℤ
  pub ordinal : ℤ
  pub model : String
  pub gate : String
  pub verdict : String
  pub evidence : Fields
  pub expected_producer_model_ids : List String
  pub observed_producer_model_ids : List String

pub data StepUntilDoneResult : Type 0 where
  halted : HaltedOnGate → StepUntilDoneResult
  finished : (convergence : Fields) → StepUntilDoneResult

-- `current_session`, with the position of the session
unfoldable pub current_session : CumulativeManifest → Result Error (Option (ℕ × SessionRecord))
current_session m = elim m.current_index [
  | negsuc n ↦ raise negative_index
  | pos k ↦ ok (elim (get_elem? m.session_records k) [ none ↦ none | some r ↦ some (k, r) ])
]

-- `_phase_of`
unfoldable pub phase_of : SessionRecord → Result Error SessionPhase
unfolding of_value
phase_of r = elim (of_value r.phase) [ none ↦ raise unknown_phase | some p ↦ ok p ]

-- `_halted_descriptor`
unfoldable pub halted_descriptor : SessionRecord → Result Error HaltedOnGate
unfolding first_stopping_walk_gate
halted_descriptor r = elim (first_stopping_walk_gate r.walk_gates) [
  | none ↦ raise no_stopping_gate
  | some g ↦ ok (record {
    sequence_index = r.sequence_index;
    ordinal = g.ordinal;
    model = r.model;
    gate = g.gate;
    verdict = g.verdict;
    evidence = g.evidence;
    expected_producer_model_ids = g.expected_producer_model_ids;
    observed_producer_model_ids = g.observed_producer_model_ids;
  })
]

-- the session at a position, changed
abbrev pub change : ℕ → (SessionRecord → SessionRecord) → List SessionRecord → List SessionRecord
change k f [] = []
change zero f (r ∷ rs) = f r ∷ rs
change (suc k) f (r ∷ rs) = r ∷ change k f rs

-- a session that is not there, for a position that no list has
abbrev pub session_or : SessionRecord → List SessionRecord → ℕ → SessionRecord
session_or d rs k = elim (get_elem? rs k) [ none ↦ d | some r ↦ r ]

module _ {env : Env} where
  -- `_utc_now_iso`
  unfoldable pub utc_now_iso : M env String
  utc_now_iso s = let (now, w) = env.clock s.world in (ok now, record s { world = w })

  -- `_checkpoint`
  unfoldable pub checkpoint : M env (Unit {0})
  unfolding utc_now_iso atomic_write
  checkpoint s =
      let (now, w) = env.clock s.world in
      let m = record s.manifest { updated_at = now } in
      let (fails, w') = env.faults w in
      let (saved, d) = atomic_write fails m s.disk in
      (saved, record { manifest = m; disk = d; world = w' })

  -- an assignment to fields of the session at a position
  unfoldable pub modify_session : ℕ → (SessionRecord → SessionRecord) → M env (Unit {0})
  modify_session k f s = (
    ok tt,
    record s {
      manifest = record s.manifest { session_records = change k f s.manifest.session_records };
    },
  )

  -- `session.set_phase(...)`
  unfoldable pub enter : ℕ → SessionPhase → M env (Unit {0})
  unfolding utc_now_iso modify_session set_phase
  enter k p = do now ← utc_now_iso; modify_session k (set_phase p now)

  -- `session.set_phase(...)`, `self._checkpoint()`
  unfoldable pub enter_saved : ℕ → SessionPhase → M env (Unit {0})
  unfolding enter checkpoint
  enter_saved k p = do enter k p; checkpoint

  -- the calls of the runner with the session at a position
  unfoldable pub call_prepare : ℕ → SessionRecord → M env (Unit {0})
  call_prepare k r s =
      let (result, r', w) = env.prepare_fixture r s.world in
      (
        result,
        record s {
          manifest = record s.manifest { session_records = set s.manifest.session_records k r' };
          world = w;
        },
      )

  unfoldable pub call_run : ℕ → SessionRecord → M env Json
  call_run k r s =
      let (result, r', w) = env.run_session r s.world in
      (
        result,
        record s {
          manifest = record s.manifest { session_records = set s.manifest.session_records k r' };
          world = w;
        },
      )

  -- what `_advance_to_next_session` does to the session that comes next
  unfoldable pub prime : ℕ → SessionRecord → M env (Unit {0})
  unfolding modify_session enter phase_of
  prime k next = do
    s ← get
    modify_session k (λ r. record r { org_id = str s.manifest.org_id })
    p ← lift (phase_of next)
    elim p [ prepare_fixture ↦ return tt | _ ↦ enter k prepare_fixture ]

  unfoldable pub prime_next : ℕ → M env (Unit {0})
  unfolding prime checkpoint
  prime_next k = do
    s ← get
    elim (get_elem? s.manifest.session_records (suc k)) [
      | none ↦ return tt
      | some next ↦ prime (suc k) next
    ]
    checkpoint

  -- `_advance_to_next_session`
  unfoldable pub advance : ℕ → SessionRecord → M env (Unit {0})
  unfolding prime_next
  advance k r s =
      let m = s.manifest in
      if eqb_ℤ m.current_index r.sequence_index
      then prime_next k
          (record s { manifest = record m { current_index = m.current_index +ℤ pos 1 } })
      else if eqb_ℤ m.current_index (r.sequence_index +ℤ pos 1)
      then (ok tt, s)
      else (raise index_drift, s)

  -- the round of a session in PREPARE_FIXTURE
  unfoldable pub prepare_round : ℕ → SessionRecord → M env (Unit {0})
  unfolding modify_session call_prepare enter_saved
  prepare_round k r = do
    s ← get
    let r' = record r { org_id = str s.manifest.org_id }
    modify_session k (λ _. r')
    call_prepare k r'
    enter_saved k run_session

  -- the rest of the round of a session in RUN_SESSION, once its progress is recorded
  unfoldable pub conclude : ℕ → SessionRecord → M env (Option StepUntilDoneResult)
  unfolding modify_session enter_saved advance halted_descriptor
  conclude k r = elim (first_stopping_walk_gate r.walk_gates) [
    | some gate ↦ do
      enter_saved k halted_on_gate
      s ← get
      d ← lift (halted_descriptor (session_or r s.manifest.session_records k))
      return (some (halted d))
    | none ↦ do
      modify_session k (λ r. record r { complete_gate = true })
      enter_saved k done
      s ← get
      advance k (session_or r s.manifest.session_records k)
      return none
  ]

  -- `session.started_at`, set once
  unfoldable pub started : SessionRecord → M env SessionRecord
  unfolding utc_now_iso
  started r = elim r.started_at [
    | null ↦ do now ← utc_now_iso; return (record r { started_at = str now })
    | _ ↦ return r
  ]

module _ (py : Builtins) (is_digits : String → Bool) (loads : String → Option Json)
    {env : Env} where
  -- the round of a session in RUN_SESSION; `none` goes on to the next round
  unfoldable pub run_round : ℕ → SessionRecord → M env (Option StepUntilDoneResult)
  unfolding modify_session started call_run conclude
  run_round k r = do
    r' ← started r
    modify_session k (λ _. r')
    telemetry ← call_run k r'
    progress ← lift (progress_from_cell_result py is_digits telemetry null)
    modify_session k (λ r. record r { progress = some (to_dict progress) })
    s ← get
    conclude k (session_or r' s.manifest.session_records k)

  -- `_convergence_for_done_state`: without readable artifacts it falls back to the manifest.
  unfoldable pub convergence_for_done_state : Machine env → Result Error Fields
  unfolding build_scorecard build_convergence_trend trend_to_dict
  convergence_for_done_state s =
      let (run_manifest, stream) = env.artifacts s.world in
      let fallback =
        trend_to_dict py (build_convergence_trend py (map of_record s.manifest.session_records)) in
      elim (build_scorecard py loads run_manifest stream) [
        | ok c ↦ ok (trend_to_dict py c.convergence)
        | raise file_not_found ↦ ok fallback
        | raise os_error ↦ ok fallback
        | raise e ↦ raise e
      ]

  -- one round of the loop of `step_until_done`, with a session in a phase
  unfoldable pub turn : ℕ → SessionRecord → SessionPhase → M env (Option StepUntilDoneResult)
  unfolding halted_descriptor advance prepare_round run_round
  turn k r halted_on_gate = do d ← lift (halted_descriptor r); return (some (halted d))
  turn k r done = do advance k r; return none
  turn k r prepare_fixture = do prepare_round k r; return none
  turn k r run_session = run_round k r

  unfoldable pub dispatch : Option (ℕ × SessionRecord) → M env (Option StepUntilDoneResult)
  unfolding phase_of turn convergence_for_done_state
  dispatch none = do s ← get; c ← lift (convergence_for_done_state s); return (some (finished c))
  dispatch (some (k, r)) = do p ← lift (phase_of r); turn k r p

  unfoldable pub round : M env (Option StepUntilDoneResult)
  unfolding current_session dispatch
  round = do s ← get; current ← lift (current_session s.manifest); dispatch current

  -- `step_until_done`, for a number of rounds; `none` is a loop that has not ended by then
  unfoldable pub step_until_done : ℕ → M env (Option StepUntilDoneResult)
  unfolding round
  step_until_done zero = return none
  step_until_done (suc rounds) = do
    result ← round
    elim result [ some r ↦ return (some r) | none ↦ step_until_done rounds ]
