-- ===== src/Cumulative/Sequencer/Laws.antt =====
-- What `step_until_done` (wevibe_bench/cumulative/sequencer.py) promises.
use wevibe_bench.Prelude.{
  ℕ, zero, suc, ◌*◌, ◌<◌, ◌≤◌, ◌≡◌, refl, sym, ap, ◌∙◌, Bool, true, false, Option, none, some, List,
  All, arith, String, Result, ok, raise, get_elem?, lt_of_get_elem?-some,
}
use wevibe_bench.Prelude.Int.{pos, ◌+ℤ◌, eqb_ℤ, eqb_ℤ_iff, pos_next}
use wevibe_bench.Prelude.Json.{Json, Builtins}
use wevibe_bench.Cumulative.Errors.{Error}
use wevibe_bench.Cumulative.Phase.{
  SessionPhase, halted_on_gate, done, value, of_value, of_value-value,
}
use wevibe_bench.Cumulative.Records.{ScheduledSession, SessionRecord}
use wevibe_bench.Cumulative.Manifest.{Plan}
use wevibe_bench.Cumulative.Sequencer.{
  StepUntilDoneResult, halted, finished, halted_descriptor, phase_of, current_session, turn,
  dispatch, round, step_until_done, advance,
}
use wevibe_bench.Cumulative.Sequencer.Monad.{Env, Machine, Outcome, Outcome-map}
use wevibe_bench.Cumulative.Sequencer.Invariant.{
  shift_zero, Each-All, Each-map, InPlace, IsResumable,
}
use wevibe_bench.Cumulative.Sequencer.Rounds.{KeepsSessions, Between}
use wevibe_bench.Cumulative.Sequencer.Termination.{
  Ended, rounds_left, rounds_behind, step_until_done_ends, session_rounds_le,
}

module _ (py : Builtins) (is_digits : String → Bool) (loads : String → Option Json)
    {env : Env} where
  -- One round at a session, from its phase.
  round_at :
      (k : ℕ) (r : SessionRecord) (p : SessionPhase) (s : Machine env)
      → s.manifest.current_index ≡ pos k
      → get_elem? s.manifest.session_records k ≡ some r
      → r.phase ≡ value p
      → round py is_digits loads s ≡ turn py is_digits loads k r p s
  unfolding round current_session dispatch phase_of
  round_at k r p s at here phase = ground (arith, at, here, ap of_value phase, of_value-value p)

  advance_stuck :
      (k : ℕ) (r : SessionRecord) (s : Machine env)
      → s.manifest.current_index ≡ pos (suc k)
      → r.sequence_index ≡ pos k
      → advance (suc k) r s ≡ (ok tt, s)
  unfolding advance
  advance_stuck k r s at behind =
      let ahead : eqb_ℤ s.manifest.current_index r.sequence_index ≡ false =
        ground (arith, at, behind) in
      let next : eqb_ℤ s.manifest.current_index (r.sequence_index +ℤ pos 1) ≡ true =
        (eqb_ℤ_iff s.manifest.current_index (r.sequence_index +ℤ pos 1)).1
          (at ∙ sym (ap (λ i. i +ℤ pos 1) behind ∙ pos_next k)) in
      rw (ahead, next) refl

  turn_stuck :
      (k : ℕ) (r : SessionRecord) (s : Machine env)
      → s.manifest.current_index ≡ pos (suc k)
      → r.sequence_index ≡ pos k
      → turn py is_digits loads (suc k) r done s ≡ (ok none, s)
  unfolding turn
  turn_stuck k r s at behind =
      ap
        (λ (p : Result Error (Unit {0}) × Machine env).
          let q : Result Error (Option StepUntilDoneResult) × Machine env = elim p.0 [
            | ok a ↦ (ok none, p.1)
            | raise e ↦ (raise e, p.1)
          ] in
          q)
        (advance_stuck k r s at behind)

  -- If the current session is DONE and bears the index before the current one, `step_until_done` has
  -- not ended after any number of rounds, and has changed nothing.
  pub step_until_done_stuck :
      (rounds k : ℕ) (r : SessionRecord) (s : Machine env)
      → s.manifest.current_index ≡ pos (suc k)
      → get_elem? s.manifest.session_records (suc k) ≡ some r
      → r.phase ≡ value done
      → r.sequence_index ≡ pos k
      → step_until_done py is_digits loads rounds s ≡ (ok none, s)
  unfolding step_until_done
  step_until_done_stuck zero k r s at here phase behind = refl
  step_until_done_stuck (suc rounds) k r s at here phase behind = ground (
    arith,
    round_at (suc k) r done s at here phase,
    turn_stuck k r s at behind,
    step_until_done_stuck rounds k r s at here phase behind,
  )

module _ (py : Builtins) (plan : Plan) (schedule : List ScheduledSession) (n : ℕ) {env : Env}
    (keeps : KeepsSessions env) (is_digits : String → Bool) (loads : String → Option Json) where
  -- A run between two rounds: its manifest is the run's, and its file holds that manifest.
  abbrev pub Settled : ℕ → Machine env → Type 0
  Settled k s = Between py plan schedule n keeps k s

  -- What `step_until_done` may leave: a halted run whose session bears the descriptor, or a run
  -- whose sessions are all DONE with their gates complete; its file holds its manifest.
  abbrev pub ResultOf : Option StepUntilDoneResult → Machine env → Type 0
  ResultOf none t = ⊥
  ResultOf (some (halted d)) t =
      (k : ℕ) × Settled k t
      × (r : SessionRecord) × (get_elem? t.manifest.session_records k ≡ some r)
      × (r.phase ≡ value halted_on_gate)
      × (halted_descriptor r ≡ ok d)
  ResultOf (some (finished c)) t =
      Settled n t
      × All (λ r. (r.phase ≡ value done) × (r.complete_gate ≡ true)) t.manifest.session_records

  All-done :
      (t : Machine env)
      → Settled n t
      → All (λ r. (r.phase ≡ value done) × (r.complete_gate ≡ true)) t.manifest.session_records
  All-done t h =
      let rs = t.manifest.session_records in
      let P = λ (j : ℕ) (r : SessionRecord). (r.phase ≡ value done) × (r.complete_gate ≡ true) in
      Each-All P (λ r. (r.phase ≡ value done) × (r.complete_gate ≡ true)) 0 rs (λ j r p. p)
        (Each-map (InPlace n) P 0 rs
          (λ j r e i.
            let past : r.phase ≡ value done =
              i.over (omega (arith, shift_zero j, h.run.count, lt_of_get_elem?-some rs j e)) in
            (past, i.complete past))
          h.run.each)

  -- From a run of `n` sessions between two rounds, with a runner that keeps its sessions, more than
  -- `3 * n` rounds are enough: whatever the runner returns or raises and whichever writes fail,
  -- `step_until_done` returns within them, with a session halted on the gate that its descriptor
  -- names or with all sessions DONE and their gates complete, and the file holds the manifest; or
  -- it raises, and the file is one from which the run can be taken up.
  pub step_until_done_returns :
      (rounds k : ℕ) (s : Machine env)
      → Settled k s
      → 3 * n < rounds
      → Outcome ResultOf
          (λ t. IsResumable py plan schedule n t.disk)
          (step_until_done py is_digits loads rounds s)
  step_until_done_returns rounds k s h lt =
      let bound : rounds_left py plan schedule n keeps is_digits loads k s ≤ 3 * n = omega (
        arith,
        h.run.within,
        session_rounds_le py plan schedule n keeps is_digits loads
            (get_elem? s.manifest.session_records k),
        rounds_behind py plan schedule n keeps is_digits loads k s h,
      ) in
      Outcome-map (Ended py plan schedule n keeps is_digits loads) ResultOf
        (λ t. IsResumable py plan schedule n t.disk) (step_until_done py is_digits loads rounds s)
        told
        (step_until_done_ends py plan schedule n keeps is_digits loads rounds k s h (omega arith))
    where
      told :
          (a : Option StepUntilDoneResult) (t : Machine env)
          → Ended py plan schedule n keeps is_digits loads a t
          → ResultOf a t
      told none t b = b
      told (some (halted d)) t (k, b, (r, e, (phase, same))) = (k, b, r, e, phase, same)
      told (some (finished c)) t b = (b, All-done t b)
