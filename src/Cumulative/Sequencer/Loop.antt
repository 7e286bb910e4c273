-- ===== src/Cumulative/Sequencer/Loop.antt =====
-- The loop of `step_until_done`: it ends, and what it leaves is a run.
use wevibe_bench.Prelude.{
  ℕ, zero, suc, ◌<◌, ◌≡◌, refl, sym, ◌∙◌, subst, Bool, true, Option, none, some, List, [], ◌∷◌,
  String, Result, ok, raise, get_elem?, set, length-set, lt_of_get_elem?-some, get_elem?-set_self,
}
use wevibe_bench.Prelude.Json.{Json, null, str, Builtins}
use wevibe_bench.Cumulative.Errors.{Error}
use wevibe_bench.Cumulative.Phase.{
  SessionPhase, prepare_fixture, run_session, halted_on_gate, done, value, value-inj,
}
use wevibe_bench.Cumulative.Gates.{WalkGateVerdictRecord, first_stopping_walk_gate}
use wevibe_bench.Cumulative.Records.{ScheduledSession, SessionRecord, set_phase}
use wevibe_bench.Cumulative.Progress.{ProgressVector, to_dict}
use wevibe_bench.Cumulative.Progress.FromCell.{progress_from_cell_result}
use wevibe_bench.Cumulative.Manifest.{Plan}
use wevibe_bench.Cumulative.Sequencer.{
  change, utc_now_iso, checkpoint, modify_session, enter, enter_saved, call_prepare, call_run,
  conclude, prepare_round, run_round, started, session_or, advance, StepUntilDoneResult,
  HaltedOnGate, halted, finished, halted_descriptor,
}
use wevibe_bench.Cumulative.Sequencer.Monad.{
  Env, Machine, M, ◌>>=◌, ◌>>◌, return, lift, get, Outcome, >>=-Outcome, Outcome-map,
}
use wevibe_bench.Cumulative.Sequencer.Invariant.{
  Each-set, shift_zero, InPlace, IsRun, IsRun-InPlace,
}
use wevibe_bench.Cumulative.Sequencer.Rounds.{
  KeepsSessions, Within, Between, Raised, Saved, Between-Within, checkpoint-Saved,
  modify_session-Within, enter-Within, advance-Between, IsRun-records,
}

pub get_elem?-change :
    (k : ℕ) (f : SessionRecord → SessionRecord) (rs : List SessionRecord) {r : SessionRecord}
    → get_elem? rs k ≡ some r
    → get_elem? (change k f rs) k ≡ some (f r)
get_elem?-change k f [] e = absurd (cc)
get_elem?-change zero f (x ∷ rs) e = cc
get_elem?-change (suc k) f (x ∷ rs) e = get_elem?-change k f rs e

session_or_lem :
    (d : SessionRecord) (rs : List SessionRecord) (k : ℕ) {x : SessionRecord}
    → get_elem? rs k ≡ some x
    → session_or d rs k ≡ x
session_or_lem d rs k e = rw (e, session_or) refl

module _ (py : Builtins) (plan : Plan) (schedule : List ScheduledSession) (n : ℕ) {env : Env}
    (keeps : KeepsSessions env) where
  abbrev pub Inside : ℕ → Machine env → Type 0
  Inside k s = Within py plan schedule n keeps k s

  abbrev pub Settled : ℕ → Machine env → Type 0
  Settled k s = Between py plan schedule n keeps k s

  abbrev pub Lost : Machine env → Type 0
  Lost s = Raised py plan schedule n keeps s

  -- the session at a position, with what holds of it
  abbrev pub Holds : ℕ → (SessionRecord → Type 0) → Machine env → Type 0
  Holds k Q s = (r : SessionRecord) × (get_elem? s.manifest.session_records k ≡ some r) × Q r

  call-Inside :
      {A : Type 0} (k : ℕ) (result : Result Error A) (r' : SessionRecord) (w : env.World)
      (s : Machine env)
      → Inside k s
      → k < n
      → InPlace k k r'
      → Outcome
          (λ _ s'. Inside k s' × Holds k (λ x. x ≡ r') s')
          Lost
          (
            result,
            record s {
              manifest = record s.manifest {
                session_records = set s.manifest.session_records k r';
              };
              world = w;
            },
          )
  call-Inside {A} k result r' w s h lt p = go result
    where
      rs : List SessionRecord
      rs = s.manifest.session_records

      run : IsRun py plan schedule n k (record s.manifest { session_records = set rs k r' })
      run =
          IsRun-records py plan schedule n keeps k s.manifest (set rs k r') h.run
            (length-set rs k r' ∙ h.run.count)
            (Each-set (InPlace k) 0 rs k r' h.run.each
              (subst (λ i. InPlace k i r') (sym (shift_zero k)) p))

      go :
          (result : Result Error A)
          → Outcome
              (λ _ s'. Inside k s' × Holds k (λ x. x ≡ r') s')
              Lost
              (
                result,
                record s {
                  manifest = record s.manifest { session_records = set rs k r' };
                  world = w;
                },
              )
      go (ok a) = (
        record { run = run; file = h.file },
        (r', get_elem?-set_self rs k r' (subst (λ l. k < l) (sym h.run.count) lt), refl),
      )
      go (raise e) = h.file

  entered :
      (k : ℕ) (p : SessionPhase) (s : Machine env) (r : SessionRecord) (t : Machine env)
      → get_elem? s.manifest.session_records k ≡ some r
      → t.manifest.session_records ≡ (enter k p s).1.manifest.session_records
      → Holds k (λ x. (x.phase ≡ value p) × (x.walk_gates ≡ r.walk_gates)) t
  unfolding enter modify_session utc_now_iso set_phase
  entered k p s r t e same = (
    set_phase p (env.clock s.world).0 r,
    rw same (get_elem?-change k (set_phase p (env.clock s.world).0) s.manifest.session_records e),
    (refl, refl),
  )

  -- `set_phase` and `_checkpoint`, one behind the other.
  enter_checkpoint :
      (k : ℕ) (p : SessionPhase) (s : Machine env) (r : SessionRecord)
      → Inside k s
      → get_elem? s.manifest.session_records k ≡ some r
      → (value p ≡ value done → r.complete_gate ≡ true)
      → Outcome
          (λ _ s'.
            Settled k s' × Holds k (λ x. (x.phase ≡ value p) × (x.walk_gates ≡ r.walk_gates)) s')
          Lost
          (enter_saved k p s)
  unfolding enter_saved enter
  enter_checkpoint k p s r h e c =
      let s1 = (enter k p s).1 in
      let h1 = enter-Within py plan schedule n keeps k p s h (λ d x f.
        subst (λ (y : SessionRecord). y.complete_gate ≡ true) {x = r}
          (let same : r ≡ x = cc in same) (c d)) in
      Outcome-map (Saved py plan schedule n keeps k s1)
        (λ _ s'.
          Settled k s' × Holds k (λ x. (x.phase ≡ value p) × (x.walk_gates ≡ r.walk_gates)) s')
        Lost (checkpoint s1) (λ _ t b. (b.0, entered k p s r t e b.1))
        (checkpoint-Saved py plan schedule n keeps k s1 h1)

  -- A round of a session in PREPARE_FIXTURE: the session goes on to RUN_SESSION, and the file with
  -- it.
  pub prepare_round-Settled :
      (k : ℕ) (r : SessionRecord) (s : Machine env)
      → Settled k s
      → get_elem? s.manifest.session_records k ≡ some r
      → r.phase ≡ value prepare_fixture
      → Outcome
          (λ _ s'. Settled k s' × Holds k (λ x. x.phase ≡ value run_session) s')
          Lost
          (prepare_round k r s)
  unfolding prepare_round call_prepare modify_session
  prepare_round-Settled k r s h e p =
      let r1 = record r { org_id = str s.manifest.org_id } in
      let s1 = (modify_session k (λ _. r1) s).1 in
      let place = IsRun-InPlace py plan schedule n k s.manifest k h.run e in
      let place1 : InPlace k k r1 = record {
        numbered = place.numbered;
        normal = place.normal;
        over = place.over;
        complete = place.complete;
      } in
      let h1 =
        modify_session-Within py plan schedule n keeps k k (λ _. r1) s
          (Between-Within py plan schedule n keeps k s h) (λ _ _ _. place1) in
      let (result, r2, w) = env.prepare_fixture r1 s1.world in
      let (index, phase, complete, gates) = keeps.prepared r1 s1.world in
      let place2 : InPlace k k r2 = record {
        numbered = index ∙ place.numbered;
        normal = gates place.normal;
        over = λ lt. phase ∙ place.over lt;
        complete = λ d. complete ∙ place.complete (sym phase ∙ d);
      } in
      let lt : k < n =
        subst (λ l. k < l) h.run.count (lt_of_get_elem?-some s.manifest.session_records k e) in
      >>=-Outcome (λ _ s'. Inside k s' × Holds k (λ x. x ≡ r2) s')
        (λ _ s'. Settled k s' × Holds k (λ x. x.phase ≡ value run_session) s') Lost
        (call_prepare k r1) (λ _. enter_saved k run_session) s1
        (call-Inside k result r2 w s1 h1 lt place2)
        (λ _ t b.
          let (x, f, _) = b.1 in
          Outcome-map
            (λ _ s'.
              Settled k s'
              × Holds k (λ y. (y.phase ≡ value run_session) × (y.walk_gates ≡ x.walk_gates)) s')
            _ Lost (enter_saved k run_session t) (λ _ u c. (c.0, (c.1.0, c.1.1, c.1.2.0)))
            (enter_checkpoint k run_session t x b.0 f
              (λ d. absurd (cc (value-inj run_session done d)))))

  lift-Outcome :
      {A : Type 0} (P : Machine env → Type 0) (r : Result Error A) (s : Machine env)
      → P s
      → (P s → Lost s)
      → Outcome (λ (a : A) s'. P s' × (r ≡ ok a)) Lost (r, s)
  lift-Outcome P (ok a) s p f = (p, refl)
  lift-Outcome P (raise e) s p f = f p

  -- What a round leaves: a result, or a run that has gone on.
  abbrev pub Went : ℕ → Option StepUntilDoneResult → Machine env → Type 0
  Went k (some (halted d)) s =
      Settled k s × Holds k (λ x. (x.phase ≡ value halted_on_gate) × (halted_descriptor x ≡ ok d)) s
  Went k (some (finished c)) s = Settled n s
  Went k none s = Settled (suc k) s

  described :
      (k : ℕ) (x : SessionRecord) (t : Machine env)
      → Settled k t
      → get_elem? t.manifest.session_records k ≡ some x
      → x.phase ≡ value halted_on_gate
      → Outcome
          (λ d s'.
            Settled k s'
            × Holds k (λ y. (y.phase ≡ value halted_on_gate) × (halted_descriptor y ≡ ok d)) s')
          Lost
          (halted_descriptor x, t)
  described k x t h f phase = go (halted_descriptor x) refl
    where
      go :
          (r : Result Error HaltedOnGate)
          → halted_descriptor x ≡ r
          → Outcome
              (λ d s'.
                Settled k s'
                × Holds k (λ y. (y.phase ≡ value halted_on_gate) × (halted_descriptor y ≡ ok d)) s')
              Lost
              (r, t)
      go (ok d) same = (h, (x, f, (phase, same)))
      go (raise e) same = (Between-Within py plan schedule n keeps k t h).file

  conclude_halted :
      (k : ℕ) (r : SessionRecord) (s : Machine env)
      → Inside k s
      → get_elem? s.manifest.session_records k ≡ some r
      → Outcome (Went k) Lost (
          (do
            enter_saved k halted_on_gate
            s ← get
            d ← lift (halted_descriptor (session_or r s.manifest.session_records k))
            return (some (halted d)))
            s)
  conclude_halted k r s h e =
      >>=-Outcome
        (λ _ s'.
          Settled k s'
          × Holds k (λ y. (y.phase ≡ value halted_on_gate) × (y.walk_gates ≡ r.walk_gates)) s')
        (Went k) Lost (enter_saved k halted_on_gate) _ s
        (enter_checkpoint k halted_on_gate s r h e
          (λ d. absurd (cc (value-inj halted_on_gate done d))))
        (λ _ t b.
          let (x, f, (phase, _)) = b.1 in
          let same : session_or r t.manifest.session_records k ≡ x =
            session_or_lem r t.manifest.session_records k f in
          >>=-Outcome
            (λ d s'.
              Settled k s'
              × Holds k (λ y. (y.phase ≡ value halted_on_gate) × (halted_descriptor y ≡ ok d)) s')
            (Went k) Lost (lift (halted_descriptor (session_or r t.manifest.session_records k)))
            (λ d. return (some (halted d))) t (rw same (described k x t b.0 f phase)) (λ d u c. c))

  conclude_done :
      (k : ℕ) (r : SessionRecord) (s : Machine env)
      → Inside k s
      → get_elem? s.manifest.session_records k ≡ some r
      → Outcome (Went k) Lost (
          (do
            modify_session k (λ r. record r { complete_gate = true })
            enter_saved k done
            s ← get
            advance k (session_or r s.manifest.session_records k)
            return none)
            s)
  unfolding modify_session
  conclude_done k r s h e =
      let f = λ (r : SessionRecord). record r { complete_gate = true } in
      let s1 = (modify_session k f s).1 in
      let h1 = modify_session-Within py plan schedule n keeps k k f s h (λ x _ i. record {
        numbered = i.numbered;
        normal = i.normal;
        over = i.over;
        complete = λ _. refl;
      }) in
      >>=-Outcome
        (λ _ s'.
          Settled k s' × Holds k (λ y. (y.phase ≡ value done) × (y.walk_gates ≡ r.walk_gates)) s')
        (Went k) Lost (enter_saved k done) _ s1
        (enter_checkpoint k done s1 (f r) h1 (get_elem?-change k f s.manifest.session_records e)
          (λ _. refl))
        (λ _ t b.
          let (x, found, (phase, _)) = b.1 in
          let same : session_or r t.manifest.session_records k ≡ x =
            session_or_lem r t.manifest.session_records k found in
          >>=-Outcome (λ _ s'. Settled (suc k) s') (Went k) Lost
            (advance k (session_or r t.manifest.session_records k)) (λ _. return none) t
            (rw same (
              advance-Between py plan schedule n keeps k x t
                (Between-Within py plan schedule n keeps k t b.0) found phase))
            (λ _ u c. c))

  conclude-Went :
      (k : ℕ) (r : SessionRecord) (s : Machine env)
      → Inside k s
      → get_elem? s.manifest.session_records k ≡ some r
      → Outcome (Went k) Lost (conclude k r s)
  unfolding conclude
  conclude-Went k r s h e = go (first_stopping_walk_gate r.walk_gates)
    where
      go :
          (o : Option WalkGateVerdictRecord)
          → Outcome (Went k) Lost (
              (let m : M env (Option StepUntilDoneResult) = elim o [
                | some gate ↦ do
                  enter_saved k halted_on_gate
                  s ← get
                  d ← lift (halted_descriptor (session_or r s.manifest.session_records k))
                  return (some (halted d))
                | none ↦ do
                  modify_session k (λ r. record r { complete_gate = true })
                  enter_saved k done
                  s ← get
                  advance k (session_or r s.manifest.session_records k)
                  return none
              ] in
                  m)
                s)
      go none = conclude_done k r s h e
      go (some gate) = conclude_halted k r s h e

  started-Inside :
      (k : ℕ) (r : SessionRecord) (s : Machine env)
      → Inside k s
      → InPlace k k r
      → Outcome (λ x s'. Inside k s' × InPlace k k x) Lost (started r s)
  unfolding started utc_now_iso
  started-Inside k r s h i = go r.started_at
    where
      later : (v : Json) → InPlace k k (record r { started_at = v })
      later v = record {
        numbered = i.numbered;
        normal = i.normal;
        over = i.over;
        complete = i.complete;
      }

      go :
          (v : Json)
          → Outcome
              (λ x s'. Inside k s' × InPlace k k x)
              Lost
              ((let m : M env SessionRecord = elim v [
                | null ↦ do now ← utc_now_iso; return (record r { started_at = str now })
                | _ ↦ return r
              ] in
                  m)
                s)
      go null = (record { run = h.run; file = h.file }, later (str (env.clock s.world).0))
      go v = (h, i)

  -- the round from the call of the runner on
  run_started :
      (is_digits : String → Bool) (k : ℕ) (r1 : SessionRecord) (t : Machine env)
      → Inside k t
      → InPlace k k r1
      → k < n
      → Outcome (Went k) Lost (
          (do
            modify_session k (λ _. r1)
            telemetry ← call_run k r1
            progress ← lift (progress_from_cell_result py is_digits telemetry null)
            modify_session k (λ r. record r { progress = some (to_dict progress) })
            s ← get
            conclude k (session_or r1 s.manifest.session_records k))
            t)
  unfolding call_run modify_session
  run_started is_digits k r1 t h place lt =
      let t1 = (modify_session k (λ _. r1) t).1 in
      let h1 = modify_session-Within py plan schedule n keeps k k (λ _. r1) t h (λ _ _ _. place) in
      let (result, r2, w) = env.run_session r1 t1.world in
      let (index, phase, complete, gates) = keeps.ran r1 t1.world in
      let place2 : InPlace k k r2 = record {
        numbered = index ∙ place.numbered;
        normal = gates place.normal;
        over = λ lt. phase ∙ place.over lt;
        complete = λ d. complete ∙ place.complete (sym phase ∙ d);
      } in
      >>=-Outcome (λ _ s'. Inside k s' × Holds k (λ x. x ≡ r2) s') (Went k) Lost (call_run k r1) _
        t1 (call-Inside k result r2 w t1 h1 lt place2)
        (λ telemetry u b.
          >>=-Outcome (λ _ s'. Inside k s' × Holds k (λ x. x ≡ r2) s') (Went k) Lost
            (lift (progress_from_cell_result py is_digits telemetry null)) _ u
            (kept (progress_from_cell_result py is_digits telemetry null) u b)
            (λ progress v c.
              let f = λ (r : SessionRecord). record r { progress = some (to_dict progress) } in
              let (x, found, _) = c.1 in
              let v1 = (modify_session k f v).1 in
              let h2 = modify_session-Within py plan schedule n keeps k k f v c.0 (λ y _ i. record {
                numbered = i.numbered;
                normal = i.normal;
                over = i.over;
                complete = i.complete;
              }) in
              let found1 : get_elem? v1.manifest.session_records k ≡ some (f x) =
                get_elem?-change k f v.manifest.session_records found in
              subst (λ (y : SessionRecord). Outcome (Went k) Lost (conclude k y v1))
                (sym (session_or_lem r1 v1.manifest.session_records k found1))
                (conclude-Went k (f x) v1 h2 found1)))
    where
      kept :
          {r2 : SessionRecord} (r : Result Error ProgressVector) (u : Machine env)
          → Inside k u × Holds k (λ x. x ≡ r2) u
          → Outcome (λ _ s'. Inside k s' × Holds k (λ x. x ≡ r2) s') Lost (r, u)
      kept (ok p) u b = b
      kept (raise e) u b = b.0.file

  -- A round of a session in RUN_SESSION, whatever the runner returns or raises.
  pub run_round-Went :
      (is_digits : String → Bool) (loads : String → Option Json) (k : ℕ) (r : SessionRecord)
      (s : Machine env)
      → Settled k s
      → get_elem? s.manifest.session_records k ≡ some r
      → Outcome (Went k) Lost (run_round py is_digits loads k r s)
  unfolding run_round call_run modify_session
  run_round-Went is_digits loads k r s h e =
      let place = IsRun-InPlace py plan schedule n k s.manifest k h.run e in
      let lt : k < n =
        subst (λ l. k < l) h.run.count (lt_of_get_elem?-some s.manifest.session_records k e) in
      >>=-Outcome (λ x s'. Inside k s' × InPlace k k x) (Went k) Lost (started r) _ s
        (started-Inside k r s (Between-Within py plan schedule n keeps k s h) place)
        (λ r1 t b. run_started is_digits k r1 t b.0 b.1 lt)
