-- ===== src/Cumulative/Sequencer/Termination.antt =====
-- `step_until_done` ends, and a run that it ends is over.
use wevibe_bench.Prelude.{
  ℕ, zero, suc, ◌+◌, ◌*◌, ◌-◌, ◌<◌, ◌≤◌, ◌≡◌, refl, sym, ap, ◌∙◌, subst, Bool, Option, none, some,
  List, arith, String, Result, ok, raise, get_elem?, Option-cases, inl, inr, lt_of_get_elem?-some,
  le_of_get_elem?-none,
}
use wevibe_bench.Prelude.Int.{pos}
use wevibe_bench.Prelude.Json.{Json, Fields, Builtins}
use wevibe_bench.Cumulative.Errors.{Error, unknown_phase}
use wevibe_bench.Cumulative.Phase.{
  SessionPhase, prepare_fixture, run_session, halted_on_gate, done, value, of_value, of_value-value,
  value_of_of_value,
}
use wevibe_bench.Cumulative.Records.{ScheduledSession, SessionRecord, CumulativeManifest}
use wevibe_bench.Cumulative.Manifest.{Plan}
use wevibe_bench.Cumulative.Sequencer.{
  prepare_round, run_round, advance, StepUntilDoneResult, HaltedOnGate, halted, finished,
  halted_descriptor, phase_of, current_session, turn, dispatch, round, step_until_done,
  convergence_for_done_state,
}
use wevibe_bench.Cumulative.Sequencer.Monad.{
  Env, Machine, M, ◌>>=◌, return, lift, Outcome, >>=-Outcome, Outcome-map,
}
use wevibe_bench.Cumulative.Sequencer.Rounds.{KeepsSessions, Between-Within, advance-Between}
use wevibe_bench.Cumulative.Sequencer.Loop.{
  Settled, Lost, Holds, Went, prepare_round-Settled, run_round-Went,
}

-- the rounds that a phase of a session still takes
abbrev pub phase_rounds : Option SessionPhase → ℕ
phase_rounds (some prepare_fixture) = 3
phase_rounds (some run_session) = 2
phase_rounds (some done) = 1
phase_rounds _ = 0

abbrev pub session_rounds : Option SessionRecord → ℕ
session_rounds none = 0
session_rounds (some r) = phase_rounds (of_value r.phase)

module _ (py : Builtins) (plan : Plan) (schedule : List ScheduledSession) (n : ℕ) {env : Env}
    (keeps : KeepsSessions env) (is_digits : String → Bool) (loads : String → Option Json) where
  -- a bound of the rounds that a run takes from its session `k` on
  abbrev pub rounds_left : ℕ → Machine env → ℕ
  rounds_left k s = 3 * (n - suc k) + session_rounds (get_elem? s.manifest.session_records k)

  abbrev pub AtRest : ℕ → Machine env → Type 0
  AtRest k s = Settled py plan schedule n keeps k s

  -- What a call leaves: a halted run with its descriptor, a run that is over, or a run with fewer
  -- rounds to go.
  abbrev pub After : ℕ → Option StepUntilDoneResult → Machine env → Type 0
  After left (some (halted d)) s =
      (k : ℕ) × AtRest k s
      × Holds py plan schedule n keeps k
          (λ x. (x.phase ≡ value halted_on_gate) × (halted_descriptor x ≡ ok d)) s
  After left (some (finished c)) s = AtRest n s
  After left none s = (k : ℕ) × AtRest k s × (rounds_left k s < left)

  pub session_rounds_le : (o : Option SessionRecord) → session_rounds o ≤ 3
  session_rounds_le none = omega arith
  session_rounds_le (some r) = go (of_value r.phase)
    where
      go : (p : Option SessionPhase) → phase_rounds p ≤ 3
      go none = omega arith
      go (some prepare_fixture) = omega arith
      go (some run_session) = omega arith
      go (some halted_on_gate) = omega arith
      go (some done) = omega arith

  phase_known :
      (r : SessionRecord) {p : SessionPhase}
      → phase_of r ≡ ok p
      → (of_value r.phase ≡ some p) × (r.phase ≡ value p)
  unfolding phase_of
  phase_known r {p} h = let f = known (of_value r.phase) h in (f, value_of_of_value r.phase p f)
    where
      known :
          (o : Option SessionPhase) {p : SessionPhase}
          → (let v : Result Error SessionPhase = elim o [
            | none ↦ raise unknown_phase
            | some q ↦ ok q
          ] in
              v)
            ≡ ok p
          → o ≡ some p
      known none e = absurd (cc)
      known (some q) e = cc

  rounds_here :
      (k : ℕ) (s : Machine env) {r : SessionRecord} {p : SessionPhase}
      → get_elem? s.manifest.session_records k ≡ some r
      → of_value r.phase ≡ some p
      → rounds_left k s ≡ 3 * (n - suc k) + phase_rounds (some p)
  rounds_here k s e f = rw (e, session_rounds, f) refl

  pub rounds_behind :
      (k : ℕ) (t : Machine env)
      → AtRest k t
      → session_rounds (get_elem? t.manifest.session_records k) ≤ 3 * (n - k)
  rounds_behind k t h = elim (Option-cases (get_elem? t.manifest.session_records k)) [
    | inl e ↦ rw (e, session_rounds) (omega arith)
    | inr (r, e) ↦
        let lt = lt_of_get_elem?-some t.manifest.session_records k e in
        omega (arith, h.run.count, session_rounds_le (get_elem? t.manifest.session_records k))
  ]

  next_fewer :
      (k : ℕ) (s t : Machine env) {r : SessionRecord} {p : SessionPhase}
      → k < n
      → get_elem? s.manifest.session_records k ≡ some r
      → of_value r.phase ≡ some p
      → 0 < phase_rounds (some p)
      → AtRest (suc k) t
      → rounds_left (suc k) t < rounds_left k s
  next_fewer k s t {p = p} lt e f more h =
      let here : rounds_left k s ≡ 3 * (n - suc k) + phase_rounds (some p) = rounds_here k s e f in
      let behind : session_rounds (get_elem? t.manifest.session_records (suc k)) ≤ 3 * (n - suc k) =
        rounds_behind (suc k) t h in
      omega (arith, session_rounds_le (get_elem? t.manifest.session_records (suc k)))

  below :
      (k : ℕ) (s : Machine env) {r : SessionRecord}
      → AtRest k s
      → get_elem? s.manifest.session_records k ≡ some r
      → k < n
  below k s h e =
      subst (λ l. k < l) h.run.count (lt_of_get_elem?-some s.manifest.session_records k e)

  turn-After :
      (k : ℕ) (s : Machine env) (r : SessionRecord) (p : SessionPhase)
      → AtRest k s
      → get_elem? s.manifest.session_records k ≡ some r
      → of_value r.phase ≡ some p
      → r.phase ≡ value p
      → Outcome
          (After (rounds_left k s))
          (Lost py plan schedule n keeps)
          (turn py is_digits loads k r p s)
  unfolding turn
  turn-After k s r halted_on_gate h e f v = go (halted_descriptor r) refl
    where
      go :
          (d : Result Error HaltedOnGate)
          → halted_descriptor r ≡ d
          → Outcome
              (After (rounds_left k s))
              (Lost py plan schedule n keeps)
              ((lift d >>= λ d. return (some (halted d))) s)
      go (ok d) same = (k, h, (r, e, (v, same)))
      go (raise x) same = (Between-Within py plan schedule n keeps k s h).file
  turn-After k s r done h e f v =
      >>=-Outcome (λ _ t. AtRest (suc k) t) (After (rounds_left k s))
        (Lost py plan schedule n keeps) (advance k r) (λ _. return none) s
        (advance-Between py plan schedule n keeps k r s
          (Between-Within py plan schedule n keeps k s h) e v)
        (λ _ t b. (suc k, b, next_fewer k s t (below k s h e) e f (omega arith) b))
  turn-After k s r prepare_fixture h e f v =
      >>=-Outcome
        (λ _ t. AtRest k t × Holds py plan schedule n keeps k (λ x. x.phase ≡ value run_session) t)
        (After (rounds_left k s)) (Lost py plan schedule n keeps) (prepare_round k r)
        (λ _. return none) s (prepare_round-Settled py plan schedule n keeps k r s h e v)
        (λ _ t b.
          let (x, found, phase) = b.1 in
          (
            k,
            b.0,
            omega (
              arith,
              rounds_here k s e f,
              rounds_here k t found (ap of_value phase ∙ of_value-value run_session),
            ),
          ))
  turn-After k s r run_session h e f v =
      Outcome-map (Went py plan schedule n keeps k) (After (rounds_left k s))
        (Lost py plan schedule n keeps) (run_round py is_digits loads k r s) went
        (run_round-Went py plan schedule n keeps is_digits loads k r s h e)
    where
      went :
          (a : Option StepUntilDoneResult) (t : Machine env)
          → Went py plan schedule n keeps k a t
          → After (rounds_left k s) a t
      went none t b = (suc k, b, next_fewer k s t (below k s h e) e f (omega arith) b)
      went (some (halted d)) t b = (k, b.0, b.1)
      went (some (finished c)) t b = b

  positioned : ℕ → Option SessionRecord → Option (ℕ × SessionRecord)
  positioned k none = none
  positioned k (some r) = some (k, r)

  current_session_at :
      (k : ℕ) (m : CumulativeManifest)
      → m.current_index ≡ pos k
      → current_session m ≡ ok (positioned k (get_elem? m.session_records k))
  unfolding current_session positioned
  current_session_at k m e = ground (arith, e)

  dispatch-After :
      (k : ℕ) (s : Machine env)
      → AtRest k s
      → (o : Option SessionRecord) → get_elem? s.manifest.session_records k ≡ o
      → Outcome
          (After (rounds_left k s))
          (Lost py plan schedule n keeps)
          (dispatch py is_digits loads (positioned k o) s)
  unfolding dispatch positioned
  dispatch-After k s h none e = go (convergence_for_done_state py is_digits loads s)
    where
      over : AtRest n s
      over =
          subst (λ i. AtRest i s)
            (let same : k ≡ n = omega (
              arith,
              h.run.within,
              h.run.count,
              le_of_get_elem?-none s.manifest.session_records k e,
            ) in
              same)
            h

      go :
          (c : Result Error Fields)
          → Outcome
              (After (rounds_left k s))
              (Lost py plan schedule n keeps)
              ((lift c >>= λ c. return (some (finished c))) s)
      go (ok c) = over
      go (raise x) = (Between-Within py plan schedule n keeps k s h).file
  dispatch-After k s h (some r) e = go (phase_of r) refl
    where
      go :
          (p : Result Error SessionPhase)
          → phase_of r ≡ p
          → Outcome
              (After (rounds_left k s))
              (Lost py plan schedule n keeps)
              ((lift p >>= turn py is_digits loads k r) s)
      go (ok p) known = let (f, v) = phase_known r known in turn-After k s r p h e f v
      go (raise x) known = (Between-Within py plan schedule n keeps k s h).file

  pub round-After :
      (k : ℕ) (s : Machine env)
      → AtRest k s
      → Outcome
          (After (rounds_left k s))
          (Lost py plan schedule n keeps)
          (round py is_digits loads s)
  unfolding round
  round-After k s h =
      subst
        (λ (c : Result Error (Option (ℕ × SessionRecord))).
          Outcome (After (rounds_left k s)) (Lost py plan schedule n keeps)
            ((lift c >>= dispatch py is_digits loads) s))
        (sym (current_session_at k s.manifest h.run.at))
        (dispatch-After k s h (get_elem? s.manifest.session_records k) refl)

  -- What a call of `step_until_done` ends with.
  abbrev pub Ended : Option StepUntilDoneResult → Machine env → Type 0
  Ended none t = ⊥
  Ended (some (halted d)) t =
      (k : ℕ) × AtRest k t
      × Holds py plan schedule n keeps k
          (λ x. (x.phase ≡ value halted_on_gate) × (halted_descriptor x ≡ ok d)) t
  Ended (some (finished c)) t = AtRest n t

  -- With more rounds than a run has left, `step_until_done` does not run out of them.
  pub step_until_done_ends :
      (rounds k : ℕ) (s : Machine env)
      → AtRest k s
      → rounds_left k s < rounds
      → Outcome Ended (Lost py plan schedule n keeps) (step_until_done py is_digits loads rounds s)
  unfolding step_until_done
  step_until_done_ends zero k s h lt = absurd (omega arith)
  step_until_done_ends (suc rounds) k s h lt =
      >>=-Outcome (After (rounds_left k s)) Ended (Lost py plan schedule n keeps)
        (round py is_digits loads)
        (λ result. elim result [
          | some r ↦ return (some r)
          | none ↦ step_until_done py is_digits loads rounds
        ])
        s (round-After k s h) (λ a t b. go (step_until_done_ends rounds) a t b)
    where
      go :
          ((j : ℕ) (t : Machine env)
            → AtRest j t
            → rounds_left j t < rounds
            → Outcome Ended
                (Lost py plan schedule n keeps)
                (step_until_done py is_digits loads rounds t))
          → (a : Option StepUntilDoneResult) (t : Machine env) → After (rounds_left k s) a t
          → Outcome Ended (Lost py plan schedule n keeps) (
              (let m : M env (Option StepUntilDoneResult) = elim a [
                | some r ↦ return (some r)
                | none ↦ step_until_done py is_digits loads rounds
              ] in
                  m)
                t)
      go again none t (j, b, fewer) = again j t b (omega arith)
      go again (some (halted d)) t b = b
      go again (some (finished c)) t b = b
