-- ===== src/Cumulative/Sequencer/Checks.antt =====
-- The checks of `CumulativeSequencer.__init__` (wevibe_bench/cumulative/sequencer.py).
use wevibe_bench.Prelude.{
  ℕ, ◌≤◌, ◌≡◌, refl, Bool, true, false, not, ◌&&◌, List, [], ◌∷◌, str_eq, eq_iff, eq_refl, Result,
  ok, raise, raise_if, ◌>>◌, ltb, length, arith,
}
use wevibe_bench.Prelude.Int.{ℤ, pos, negsuc, eqb_ℤ, eqb_ℤ_iff}
use wevibe_bench.Cumulative.Errors.{
  Error, org_drift, config_drift, schedule_drift, negative_index, index_exceeds_records,
}
use wevibe_bench.Cumulative.Records.{ScheduledSession, CumulativeManifest}
use wevibe_bench.Cumulative.Manifest.{Plan}

-- equality of two sessions, and of two schedules, by their dicts
abbrev pub same_session : ScheduledSession → ScheduledSession → Bool
same_session a b =
    eqb_ℤ a.sequence_index b.sequence_index
    && str_eq a.model b.model
    && str_eq a.provider_pin b.provider_pin
    && str_eq a.memory_mode b.memory_mode
    && str_eq a.phase_group b.phase_group
    && eqb_ℤ a.roster_index b.roster_index

unfoldable pub same_schedule : List ScheduledSession → List ScheduledSession → Bool
same_schedule [] [] = true
same_schedule (a ∷ as') (b ∷ bs) = same_session a b && same_schedule as' bs
same_schedule _ _ = false

-- the three drift checks of the constructor
unfoldable pub check_drift :
    Plan → List ScheduledSession → CumulativeManifest → Result Error (Unit {0})
unfolding same_schedule
check_drift plan schedule m = do
  raise_if (not (str_eq m.org_id plan.org_id)) org_drift
  raise_if (not (str_eq m.config_fingerprint plan.config_fingerprint)) config_drift
  raise_if (not (same_schedule m.schedule schedule)) schedule_drift

-- its two checks of the index
unfoldable pub check_index : CumulativeManifest → Result Error (Unit {0})
check_index m = elim m.current_index [
  | negsuc n ↦ raise negative_index
  | pos k ↦ raise_if (ltb (length m.session_records) k) index_exceeds_records
]

same_session_refl : (a : ScheduledSession) → same_session a a ≡ true
same_session_refl a = rw (
  (eqb_ℤ_iff a.sequence_index a.sequence_index).1 refl,
  eq_refl a.model,
  eq_refl a.provider_pin,
  eq_refl a.memory_mode,
  eq_refl a.phase_group,
  (eqb_ℤ_iff a.roster_index a.roster_index).1 refl,
)

same_schedule_refl : (s : List ScheduledSession) → same_schedule s s ≡ true
unfolding same_schedule
same_schedule_refl [] = refl
same_schedule_refl (a ∷ rest) = rw (same_session_refl a, same_schedule_refl rest)

same_session_eq : (a b : ScheduledSession) → same_session a b ≡ true → a ≡ b
same_session_eq a b h = ground (
  arith,
  eqb_ℤ_iff a.sequence_index b.sequence_index,
  eq_iff a.model b.model,
  eq_iff a.provider_pin b.provider_pin,
  eq_iff a.memory_mode b.memory_mode,
  eq_iff a.phase_group b.phase_group,
  eqb_ℤ_iff a.roster_index b.roster_index,
)

same_schedule_eq : (a b : List ScheduledSession) → same_schedule a b ≡ true → a ≡ b
unfolding same_schedule
same_schedule_eq [] [] h = refl
same_schedule_eq [] (b ∷ bs) h = absurd (cc)
same_schedule_eq (a ∷ rest) [] h = absurd (cc)
same_schedule_eq (a ∷ rest) (b ∷ bs) h =
    ground (arith, same_session_eq a b, same_schedule_eq rest bs)

pub check_drift_run :
    (plan : Plan) (schedule : List ScheduledSession) (m : CumulativeManifest)
    → m.org_id ≡ plan.org_id
    → m.config_fingerprint ≡ plan.config_fingerprint
    → m.schedule ≡ schedule
    → check_drift plan schedule m ≡ ok tt
unfolding check_drift
check_drift_run plan schedule m org config scheduled = rw (
  org,
  config,
  scheduled,
  eq_refl plan.org_id,
  eq_refl plan.config_fingerprint,
  same_schedule_refl schedule,
)

pub check_drift_sound :
    (plan : Plan) (schedule : List ScheduledSession) (m : CumulativeManifest)
    → check_drift plan schedule m ≡ ok tt
    → (m.org_id ≡ plan.org_id)
      × (m.config_fingerprint ≡ plan.config_fingerprint)
      × (m.schedule ≡ schedule)
unfolding check_drift
check_drift_sound plan schedule m h = ground (
  arith,
  eq_iff m.org_id plan.org_id,
  eq_iff m.config_fingerprint plan.config_fingerprint,
  same_schedule_eq m.schedule schedule,
)

pub check_index_run :
    (k : ℕ) (m : CumulativeManifest)
    → m.current_index ≡ pos k
    → k ≤ length m.session_records
    → check_index m ≡ ok tt
unfolding check_index
check_index_run k m at within = ground (arith, at)

pub check_index_sound :
    (m : CumulativeManifest)
    → check_index m ≡ ok tt
    → (k : ℕ) × (m.current_index ≡ pos k) × (k ≤ length m.session_records)
unfolding check_index
check_index_sound m h = go m.current_index refl h
  where
    go :
        (i : ℤ)
        → m.current_index ≡ i
        → (let r : Result Error (Unit {0}) = elim i [
          | negsuc n ↦ raise negative_index
          | pos k ↦ raise_if (ltb (length m.session_records) k) index_exceeds_records
        ] in
            r)
          ≡ ok tt
        → (k : ℕ) × (m.current_index ≡ pos k) × (k ≤ length m.session_records)
    go (pos k) e f = (k, e, ground arith)
    go (negsuc n) e f = absurd (cc)
