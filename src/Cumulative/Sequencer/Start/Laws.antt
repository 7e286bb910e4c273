-- ===== src/Cumulative/Sequencer/Start/Laws.antt =====
-- How a sequencer starts on a file: that of its own run, and that of another plan.
use wevibe_bench.Prelude.{
  ℕ, suc, ◌≡◌, refl, sym, ap, ◌∙◌, List, [], ◌∷◌, inl, inr, Result, Result-cases, ok, raise, length,
  arith,
}
use wevibe_bench.Prelude.Int.{ℤ}
use wevibe_bench.Prelude.Json.{Builtins}
use wevibe_bench.Cumulative.Errors.{Error}
use wevibe_bench.Cumulative.Records.{
  ScheduledSession, SessionRecord, CumulativeManifest, hash_roster,
}
use wevibe_bench.Cumulative.Ordering.{Random, build_schedule}
use wevibe_bench.Cumulative.Files.{Disk}
use wevibe_bench.Cumulative.Manifest.{Plan, resume_or_create, validate_or_fail}
use wevibe_bench.Cumulative.Manifest.Laws.{
  Fits, disk, saved, NormalGates, resume_saved, resume_drifted, validate_or_fail-Fits,
}
use wevibe_bench.Cumulative.Sequencer.Monad.{Env, Machine, ◌>>=◌, ◌>>◌, lift, get}
use wevibe_bench.Cumulative.Sequencer.Invariant.{IsRun, IsRun-NormalGates}
use wevibe_bench.Cumulative.Sequencer.Start.{
  world_behind, fill_missing, initialise, initialised, opened, start,
}
use wevibe_bench.Cumulative.Sequencer.Checks.{
  check_index, check_drift, check_drift_run, check_drift_sound, check_index_run,
}

module _ (py : Builtins) (rng : Random) (plan : Plan) (schedule : List ScheduledSession)
    (on_budget : ℤ)
    (planned : build_schedule py rng plan.roster plan.seed (hash_roster py plan.roster) on_budget
      ≡ ok schedule)
    {env : Env} where
  initialise_run :
      (n k : ℕ) (s : Machine env)
      → IsRun py plan schedule (suc n) k s.manifest
      → initialise plan schedule s ≡ (ok tt, s)
  unfolding initialise
  initialise_run n k s h =
      rw (check_drift_run plan schedule s.manifest h.org h.config h.scheduled)
        (filled s.manifest.session_records refl)
    where
      filled :
          (rs : List SessionRecord)
          → s.manifest.session_records ≡ rs
          → (fill_missing plan.org_id rs >> (get >>= λ s. lift (check_index s.manifest))) s
            ≡ (ok tt, s)
      filled [] e = absurd (omega (arith, h.count, ap length e))
      filled (r ∷ rs) e =
          unfold fill_missing in
          rw (check_index_run k s.manifest h.at (omega (arith, h.within, h.count))) refl

  opened_run :
      (n k : ℕ) (m : CumulativeManifest) (d : Disk) (w : env.World)
      → IsRun py plan schedule (suc n) k m
      → opened {env = env} plan schedule w (ok m, d)
        ≡ (ok (record { manifest = m; disk = d; world = w }), d)
  unfolding opened initialised
  opened_run n k m d w h =
      ap
        (λ (p : Result Error (Unit {0}) × Machine env).
          let r : Result Error (Machine env) = elim p.0 [ ok _ ↦ ok p.1 | raise e ↦ raise e ] in
          (r, p.1.disk))
        (initialise_run n k (record { manifest = m; disk = d; world = w }) h)

  start_planned :
      (d : Disk) (w : env.World)
      → start {env = env} py rng plan on_budget d w
        ≡ opened plan schedule
            (world_behind env d.target w)
            (resume_or_create py plan schedule (env.clock w).0 (env.faults (env.clock w).1).0 d)
  unfolding start
  start_planned d w = ground (arith, planned)

  -- If the plan's schedule can be built and the file holds a manifest of a run of that plan with at
  -- least one session, the sequencer starts from that manifest as it was saved, and the file
  -- stays as it is, whatever temporary file stands beside it.
  pub start_resumes :
      (n k : ℕ) (m : CumulativeManifest) (d : Disk) (w : env.World)
      → d.target ≡ saved m
      → IsRun py plan schedule (suc n) k m
      → start {env = env} py rng plan on_budget d w
        ≡ (ok (record { manifest = m; disk = d; world = w }), d)
  start_resumes n k m d w at h =
      start_planned d w
      ∙ ap
          (λ f.
            opened {env = env} plan schedule (world_behind env f w)
              (resume_or_create py plan schedule (env.clock w).0 (env.faults (env.clock w).1).0 d))
          at
      ∙ ap (opened {env = env} plan schedule w) (
          resume_saved py plan schedule (env.clock w).0 (env.faults (env.clock w).1).0 m d at
            (IsRun-NormalGates py plan schedule (suc n) k m h) h.fits)
      ∙ opened_run n k m d w h

-- The manifest is one of a run of this plan: all that the validation and the constructor compare
-- agrees, the schedule with the one that the plan has.
pub record IsOwn (py : Builtins) (rng : Random) (plan : Plan) (on_budget : ℤ)
    (m : CumulativeManifest) : Type 0 where
  pub fits : Fits py m plan
  pub same_org : m.org_id ≡ plan.org_id
  pub same_config : m.config_fingerprint ≡ plan.config_fingerprint
  pub scheduled :
      build_schedule py rng plan.roster plan.seed (hash_roster py plan.roster) on_budget
      ≡ ok m.schedule

opened_drifted :
    (plan : Plan) (schedule : List ScheduledSession) {env : Env} (w : env.World) (d : Disk)
    (m : CumulativeManifest) (e : Error)
    → check_drift plan schedule m ≡ raise e
    → opened {env = env} plan schedule w (ok m, d) ≡ (raise e, d)
unfolding opened initialised initialise
opened_drifted plan schedule w d m e drifted = rw drifted refl

-- If the file holds a manifest, with gates as their constructor leaves them, that is not of this plan:
-- it does not fit in what the validation compares, or is of another org, configuration or
-- schedule. Then the constructor raises, whatever the clock and the file system are, and the file
-- stays as it is.
pub start_refuses :
    (py : Builtins) (rng : Random) (plan : Plan) (on_budget : ℤ) {env : Env}
    (m : CumulativeManifest) (w : env.World)
    → NormalGates m
    → ¬ IsOwn py rng plan on_budget m
    → (e : Error) × (start {env = env} py rng plan on_budget (disk (saved m)) w
        ≡ (raise e, disk (saved m)))
unfolding start
start_refuses py rng plan on_budget {env} m w normal foreign =
    elim (Result-cases
      (build_schedule py rng plan.roster plan.seed (hash_roster py plan.roster) on_budget)) [
        | inr (e, unplanned) ↦ (e, ground (arith, unplanned))
        | inl (schedule, planned) ↦
            let begun = start_planned py rng plan schedule on_budget planned (disk (saved m)) w in
            let now = (env.clock w).0 in
            let fails = (env.faults (env.clock w).1).0 in
            elim (Result-cases (validate_or_fail py m plan)) [
              | inr (e, unfit) ↦
                  let not_fit : ¬ Fits py m plan =
                    λ f. absurd (cc ((validate_or_fail-Fits py m plan).1 f, unfit)) in
                  let (e', refused) = resume_drifted py plan schedule now fails m normal not_fit in
                  (e', begun ∙ ap (opened {env = env} plan schedule w) refused)
              | inl (u, valid) ↦
                  let fits = (validate_or_fail-Fits py m plan).0 valid in
                  let resumed =
                    resume_saved py plan schedule now fails m (disk (saved m)) refl normal fits in
                  elim (Result-cases (check_drift plan schedule m)) [
                    | inr (e, drifted) ↦ (
                      e,
                      begun
                          ∙ ap (opened {env = env} plan schedule w) resumed
                          ∙ opened_drifted plan schedule {env = env} w (disk (saved m)) m e drifted,
                    )
                    | inl (u', same) ↦
                        let (org, config, scheduled) = check_drift_sound plan schedule m same in
                        absurd (
                          foreign (record {
                            fits = fits;
                            same_org = org;
                            same_config = config;
                            scheduled = planned ∙ ap ok (sym scheduled);
                          }))
                  ]
            ]
      ]
