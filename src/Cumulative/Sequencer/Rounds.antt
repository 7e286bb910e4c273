-- ===== src/Cumulative/Sequencer/Rounds.antt =====
-- Each round of the sequencer keeps the run's invariant, and its file can always be taken up.
use wevibe_bench.Prelude.{
  ℕ, suc, ◌<◌, ◌≡◌, refl, sym, ◌∙◌, subst, Bool, true, false, Option, none, some, List, ◌∷◌, arith,
  String, Result, ok, raise, get_elem?, length, Bool-cases, inl, inr, any, ltb, ltb→lt,
  lt_of_get_elem?-some,
}
use wevibe_bench.Prelude.Int.{pos, ◌+ℤ◌, eqb_ℤ_iff, pos_next}
use wevibe_bench.Prelude.Json.{str, obj, Builtins}
use wevibe_bench.Cumulative.Errors.{Error}
use wevibe_bench.Cumulative.Phase.{SessionPhase, prepare_fixture, done, value, value-inj}
use wevibe_bench.Cumulative.Gates.Laws.{AllNormal}
use wevibe_bench.Cumulative.Records.{ScheduledSession, SessionRecord, CumulativeManifest, set_phase}
use wevibe_bench.Cumulative.Records.Codec.{manifest_to_dict}
use wevibe_bench.Cumulative.Files.{Disk, Stage, make_parent, create_temporary, checkpoint_stages}
use wevibe_bench.Cumulative.Files.Laws.{written, write_replacing_checkpoint}
use wevibe_bench.Cumulative.Manifest.{Plan, atomic_write}
use wevibe_bench.Cumulative.Manifest.Laws.{saved}
use wevibe_bench.Cumulative.Sequencer.{
  phase_of, change, utc_now_iso, checkpoint, modify_session, enter, prime, prime_next, advance,
}
use wevibe_bench.Cumulative.Sequencer.Monad.{
  Env, Machine, M, return, lift, Outcome, >>=-Outcome, Outcome-map,
}
use wevibe_bench.Cumulative.Sequencer.Invariant.{
  Each, Each-change, Each-map, shift_zero, length-change, InPlace, IsRun, IsResumable,
  IsRun-InPlace, shift,
}

-- What the sequencer relies on of the runner: it leaves the index and the phase of the session
-- alone, and a gate that it records is made by its constructor.
pub record KeepsSessions (env : Env) : Type 0 where
  pub prepared :
      (r : SessionRecord) (w : env.World)
      → let (_, r', _) = env.prepare_fixture r w in
        (r'.sequence_index ≡ r.sequence_index)
        × (r'.phase ≡ r.phase)
        × (r'.complete_gate ≡ r.complete_gate)
        × (AllNormal r.walk_gates → AllNormal r'.walk_gates)
  pub ran :
      (r : SessionRecord) (w : env.World)
      → let (_, r', _) = env.run_session r w in
        (r'.sequence_index ≡ r.sequence_index)
        × (r'.phase ≡ r.phase)
        × (r'.complete_gate ≡ r.complete_gate)
        × (AllNormal r.walk_gates → AllNormal r'.walk_gates)

module _ (py : Builtins) (plan : Plan) (schedule : List ScheduledSession) (n : ℕ) {env : Env}
    (keeps : KeepsSessions env) where
  -- Within a round: the manifest in memory is the run's, and the file can be taken up.
  pub record Within (k : ℕ) (s : Machine env) : Type 0 where
    pub run : IsRun py plan schedule n k s.manifest
    pub file : IsResumable py plan schedule n s.disk

  -- Between two rounds, the file is the manifest in memory.
  pub record Between (k : ℕ) (s : Machine env) : Type 0 where
    pub run : IsRun py plan schedule n k s.manifest
    pub synced : s.disk.target ≡ saved s.manifest

  -- After an exception only the file counts.
  abbrev pub Raised : Machine env → Type 0
  Raised s = IsResumable py plan schedule n s.disk

  pub Between-Within : (k : ℕ) (s : Machine env) → Between k s → Within k s
  Between-Within k s b = record { run = b.run; file = (s.manifest, k, b.synced, b.run) }

  IsRun-updated :
      (k : ℕ) (m : CumulativeManifest) (now : String)
      → IsRun py plan schedule n k m
      → IsRun py plan schedule n k (record m { updated_at = now })
  IsRun-updated k m now h = record {
    at = h.at;
    within = h.within;
    count = h.count;
    each = h.each;
    fits = record {
      schema = h.fits.schema;
      roster = h.fits.roster;
      seed = h.fits.seed;
      task = h.fits.task;
      chunk_plan = h.fits.chunk_plan;
    };
    org = h.org;
    config = h.config;
    scheduled = h.scheduled;
  }

  pub IsRun-records :
      (k : ℕ) (m : CumulativeManifest) (rs : List SessionRecord)
      → IsRun py plan schedule n k m
      → length rs ≡ n
      → Each (InPlace k) 0 rs
      → IsRun py plan schedule n k (record m { session_records = rs })
  IsRun-records k m rs h l e = record {
    at = h.at;
    within = h.within;
    count = l;
    each = e;
    fits = record {
      schema = h.fits.schema;
      roster = h.fits.roster;
      seed = h.fits.seed;
      task = h.fits.task;
      chunk_plan = h.fits.chunk_plan;
    };
    org = h.org;
    config = h.config;
    scheduled = h.scheduled;
  }

  -- A checkpoint leaves the sessions alone; it is written whole, or the file stays.
  abbrev pub Saved : ℕ → Machine env → Unit {0} → Machine env → Type 0
  Saved k s _ s' = Between k s' × (s'.manifest.session_records ≡ s.manifest.session_records)

  atomic_write-saved :
      (fails : Stage → Bool) (m : CumulativeManifest) (d : Disk)
      → atomic_write fails m d
        ≡ written
            (any fails (make_parent ∷ create_temporary ∷ checkpoint_stages))
            fails
            (obj (manifest_to_dict m))
            d
  unfolding atomic_write
  atomic_write-saved fails m d = write_replacing_checkpoint fails (obj (manifest_to_dict m)) d

  written-Saved :
      (k : ℕ) (s : Machine env) (m : CumulativeManifest) (fails : Stage → Bool) (d : Disk)
      (w : env.World)
      → IsRun py plan schedule n k m
      → m.session_records ≡ s.manifest.session_records
      → IsResumable py plan schedule n d
      → (failed : Bool)
      → let (r, d') = written failed fails (obj (manifest_to_dict m)) d in
        Outcome (Saved k s) Raised (r, record { manifest = m; disk = d'; world = w })
  written-Saved k s m fails d w run same old true = old
  written-Saved k s m fails d w run same old false = (record { run = run; synced = refl }, same)

  pub checkpoint-Saved :
      (k : ℕ) (s : Machine env) → Within k s → Outcome (Saved k s) Raised (checkpoint s)
  unfolding checkpoint atomic_write
  checkpoint-Saved k s h =
      let now = (env.clock s.world).0 in
      let (fails, w) = env.faults (env.clock s.world).1 in
      let m = record s.manifest { updated_at = now } in
      subst
        (λ (p : Result Error (Unit {0}) × Disk).
          Outcome (Saved k s) Raised (p.0, record { manifest = m; disk = p.1; world = w }))
        (sym (atomic_write-saved fails m s.disk))
        (written-Saved k s m fails s.disk w (IsRun-updated k s.manifest now h.run) refl h.file
          (any fails (make_parent ∷ create_temporary ∷ checkpoint_stages)))

  pub modify_session-Within :
      (k j : ℕ) (f : SessionRecord → SessionRecord) (s : Machine env)
      → Within k s
      → ((r : SessionRecord)
          → get_elem? s.manifest.session_records j ≡ some r
          → InPlace k j r
          → InPlace k j (f r))
      → Within k (modify_session j f s).1
  unfolding modify_session
  modify_session-Within k j f s h keep = record {
    run =
        IsRun-records k s.manifest (change j f s.manifest.session_records) h.run
          (length-change s.manifest.session_records j f ∙ h.run.count)
          (Each-change (InPlace k) 0 s.manifest.session_records j f h.run.each (λ r e.
            subst (λ i. InPlace k i r → InPlace k i (f r)) (sym (shift_zero j)) (keep r e)));
    file = h.file;
  }

  -- A session whose phase is set to one that is not DONE, or whose gate is complete, stays in its
  -- place, if it is not over.
  phase-InPlace :
      (k : ℕ) (p : SessionPhase) (now : String) (r : SessionRecord)
      → InPlace k k r
      → (value p ≡ value done → r.complete_gate ≡ true)
      → InPlace k k (set_phase p now r)
  unfolding set_phase
  phase-InPlace k p now r h c = record {
    numbered = h.numbered;
    normal = h.normal;
    over = λ lt. absurd (omega arith);
    complete = c;
  }

  pub enter-Within :
      (k : ℕ) (p : SessionPhase) (s : Machine env)
      → Within k s
      → (value p ≡ value done
          → (r : SessionRecord) → get_elem? s.manifest.session_records k ≡ some r
          → r.complete_gate ≡ true)
      → Within k (enter k p s).1
  unfolding enter utc_now_iso
  enter-Within k p s h c =
      modify_session-Within k k (set_phase p (env.clock s.world).0)
        (record s { world = (env.clock s.world).1 }) (record { run = h.run; file = h.file })
        (λ r f i. phase-InPlace k p (env.clock s.world).0 r i (λ e. c e r f))

  pub prime-Within :
      (k : ℕ) (next : SessionRecord) (s : Machine env)
      → Within k s
      → Outcome (λ _ s'. Within k s') Raised (prime k next s)
  unfolding prime modify_session
  prime-Within k next s h =
      let f = λ (r : SessionRecord). record r { org_id = str s.manifest.org_id } in
      let s1 = (modify_session k f s).1 in
      let h1 = modify_session-Within k k f s h (λ r _ i. record {
        numbered = i.numbered;
        normal = i.normal;
        over = i.over;
        complete = i.complete;
      }) in
      >>=-Outcome (λ p s'. Within k s') (λ _ s'. Within k s') Raised (lift (phase_of next)) _ s1
        (lifted (phase_of next) s1 h1) (λ p s' h'. primed p s' h')
    where
      lifted :
          {A : Type 0} (r : Result Error A) (s' : Machine env)
          → Within k s'
          → Outcome (λ _ s'. Within k s') Raised (r, s')
      lifted (ok a) s' h' = h'
      lifted (raise e) s' h' = h'.file

      primed :
          (p : SessionPhase) (s' : Machine env)
          → Within k s'
          → Outcome
              (λ _ s'. Within k s')
              Raised
              ((let m : M env (Unit {0}) = elim p [
                | prepare_fixture ↦ return tt
                | _ ↦ enter k prepare_fixture
              ] in
                  m)
                s')
      primed prepare_fixture s' h' = h'
      primed p s' h' =
          enter-Within k prepare_fixture s' h' (λ e. absurd (cc (value-inj prepare_fixture done e)))

  abbrev pub AtDone : ℕ → Machine env → Type 0
  AtDone k s =
      (r : SessionRecord) → get_elem? s.manifest.session_records k ≡ some r → r.phase ≡ value done

  IsRun-next :
      (k : ℕ) (s : Machine env)
      → IsRun py plan schedule n k s.manifest
      → AtDone k s
      → k < n
      → IsRun py plan schedule n
          (suc k)
          (record s.manifest { current_index = s.manifest.current_index +ℤ pos 1 })
  IsRun-next k s h d lt = record {
    at = rw h.at (pos_next k);
    within = omega arith;
    count = h.count;
    each =
        Each-map (InPlace k) (InPlace (suc k)) 0 s.manifest.session_records
          (λ j r e i. record {
            numbered = i.numbered;
            normal = i.normal;
            over = over j r e i.over;
            complete = i.complete;
          })
          h.each;
    fits = record {
      schema = h.fits.schema;
      roster = h.fits.roster;
      seed = h.fits.seed;
      task = h.fits.task;
      chunk_plan = h.fits.chunk_plan;
    };
    org = h.org;
    config = h.config;
    scheduled = h.scheduled;
  }
    where
      over :
          (j : ℕ) (r : SessionRecord)
          → get_elem? s.manifest.session_records j ≡ some r
          → (shift j 0 < k → r.phase ≡ value done)
          → shift j 0 < suc k
          → r.phase ≡ value done
      over j r e old lt' = elim (Bool-cases (ltb (shift j 0) k)) [
        | inl below ↦ old (ltb→lt (shift j 0) k below)
        | inr here ↦ d r (
            subst (λ i. get_elem? s.manifest.session_records i ≡ some r)
              (let same : j ≡ k = ground (arith, shift_zero j) in same) e)
      ]

  prime_next-Between :
      (k : ℕ) (s : Machine env)
      → Within (suc k) s
      → Outcome (λ _ s'. Between (suc k) s') Raised (prime_next k s)
  unfolding prime_next
  prime_next-Between k s h =
      >>=-Outcome (λ _ s'. Within (suc k) s') (λ _ s'. Between (suc k) s') Raised
        (let m : M env (Unit {0}) = elim (get_elem? s.manifest.session_records (suc k)) [
          | none ↦ return tt
          | some next ↦ prime (suc k) next
        ] in
          m)
        _ s (primed (get_elem? s.manifest.session_records (suc k)))
        (λ _ s' h'.
          Outcome-map (Saved (suc k) s') (λ _ s'. Between (suc k) s') Raised (checkpoint s')
            (λ _ t b. b.0) (checkpoint-Saved (suc k) s' h'))
    where
      primed :
          (o : Option SessionRecord)
          → Outcome
              (λ _ s'. Within (suc k) s')
              Raised
              ((let m : M env (Unit {0}) = elim o [
                | none ↦ return tt
                | some next ↦ prime (suc k) next
              ] in
                  m)
                s)
      primed none = h
      primed (some next) = prime-Within (suc k) next s h

  -- `_advance_to_next_session` behind a session that is DONE.
  pub advance-Between :
      (k : ℕ) (r : SessionRecord) (s : Machine env)
      → Within k s
      → get_elem? s.manifest.session_records k ≡ some r
      → r.phase ≡ value done
      → Outcome (λ _ s'. Between (suc k) s') Raised (advance k r s)
  unfolding advance
  advance-Between k r s h e d =
      let place = IsRun-InPlace py plan schedule n k s.manifest k h.run e in
      let lt : k < n =
        subst (λ l. k < l) h.run.count (lt_of_get_elem?-some s.manifest.session_records k e) in
      let done_here : AtDone k s = λ x f. ground (arith, e, f, d) in
      rw ((eqb_ℤ_iff s.manifest.current_index r.sequence_index).1 (h.run.at ∙ sym place.numbered)) (
        prime_next-Between k
          (record s {
            manifest = record s.manifest { current_index = s.manifest.current_index +ℤ pos 1 };
          })
          (record { run = IsRun-next k s h.run done_here lt; file = h.file }))
