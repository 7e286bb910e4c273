-- ===== src/Cumulative/Sequencer/State.antt =====
-- `CumulativeSequencer.state`, the summary of a run.
use wevibe_bench.Prelude.{
  ℕ, ◌+◌, ◌-◌, ◌≡◌, refl, subst, ok-inj, >>=-eq-ok, arith, leb, none, some, String, if◌then◌else◌,
  Result, ok, ◌>>=◌, length,
}
use wevibe_bench.Prelude.Int.{ℤ, pos, negsuc}
use wevibe_bench.Cumulative.Errors.{Error}
use wevibe_bench.Cumulative.Phase.{done, value}
use wevibe_bench.Cumulative.Records.{CumulativeManifest}
use wevibe_bench.Cumulative.Sequencer.{current_session, phase_of}

pub record RunState : Type 0 where
  pub current_index : ℤ
  pub phase : String
  pub sessions : ℕ
  pub completed : ℕ
  pub remaining : ℕ

-- `min(max(index, 0), total)`
abbrev pub completed_of : ℤ → ℕ → ℕ
completed_of (negsuc n) total = 0
completed_of (pos k) total = if leb k total then k else total

unfoldable pub state : CumulativeManifest → Result Error RunState
unfolding current_session phase_of
state m = do
  current ← current_session m
  phase ← elim current [ none ↦ ok done | some (k, r) ↦ phase_of r ]
  let total = length m.session_records
  let completed = completed_of m.current_index total
  ok (record {
    current_index = m.current_index;
    phase = value phase;
    sessions = total;
    completed = completed;
    remaining = total - completed;
  })

completed_of_lem :
    (index : ℤ) (total : ℕ) → completed_of index total + (total - completed_of index total) ≡ total
completed_of_lem (negsuc n) total = omega arith
completed_of_lem (pos k) total = ground arith

state-totals :
    (m : CumulativeManifest) (s : RunState)
    → state m ≡ ok s
    → (s.completed + s.remaining ≡ s.sessions) × (s.sessions ≡ length m.session_records)
unfolding state
state-totals m s h =
    let (current, e, h1) = >>=-eq-ok (current_session m) _ h in
    let (phase, f, h2) = >>=-eq-ok (elim current [ none ↦ ok done | some x ↦ phase_of x.1 ]) _ h1 in
    let total = length m.session_records in
    subst (λ (t : RunState). (t.completed + t.remaining ≡ t.sessions) × (t.sessions ≡ total))
      (ok-inj _ s h2) (completed_of_lem m.current_index total, refl)
