-- ===== src/Cumulative/Sequencer/Invariant.antt =====
-- What holds of a run between two rounds of the sequencer, and of its file at any time.
use wevibe_bench.Prelude.{
  true, ℕ, zero, suc, ◌+◌, ◌<◌, ◌≤◌, ◌≡◌, refl, ap, subst, some, List, [], ◌∷◌, All, arith,
  get_elem?, set, length,
}
use wevibe_bench.Prelude.Int.{pos}
use wevibe_bench.Prelude.Json.{Builtins}
use wevibe_bench.Cumulative.Phase.{done, value}
use wevibe_bench.Cumulative.Gates.Laws.{AllNormal}
use wevibe_bench.Cumulative.Records.{ScheduledSession, SessionRecord, CumulativeManifest}
use wevibe_bench.Cumulative.Files.{Disk}
use wevibe_bench.Cumulative.Manifest.{Plan}
use wevibe_bench.Cumulative.Manifest.Laws.{Fits, saved, NormalGates}
use wevibe_bench.Cumulative.Sequencer.{change}

-- `k + i`, counted up from `i`
abbrev pub shift : ℕ → ℕ → ℕ
shift zero i = i
shift (suc k) i = shift k (suc i)

shift-add : (k i : ℕ) → shift k i ≡ k + i
shift-add zero i = omega arith
shift-add (suc k) i = omega (arith, shift-add k (suc i))

pub shift_zero : (k : ℕ) → shift k 0 ≡ k
shift_zero k = omega (arith, shift-add k 0)

-- A statement on each session and its position.
abbrev pub Each : (ℕ → SessionRecord → Type 0) → ℕ → List SessionRecord → Type 0
Each P i [] = Unit
Each P i (r ∷ rs) = P i r × Each P (suc i) rs

pub Each-get :
    (P : ℕ → SessionRecord → Type 0) (i : ℕ) (rs : List SessionRecord) (k : ℕ) {r : SessionRecord}
    → Each P i rs
    → get_elem? rs k ≡ some r
    → P (shift k i) r
Each-get P i [] k h e = absurd (cc)
Each-get P i (x ∷ rs) zero {r} h e = subst (P i) {x = x} (cc e) h.0
Each-get P i (x ∷ rs) (suc k) h e = Each-get P (suc i) rs k h.1 e

pub Each-change :
    (P : ℕ → SessionRecord → Type 0) (i : ℕ) (rs : List SessionRecord) (k : ℕ)
    (f : SessionRecord → SessionRecord)
    → Each P i rs
    → ((r : SessionRecord) → get_elem? rs k ≡ some r → P (shift k i) r → P (shift k i) (f r))
    → Each P i (change k f rs)
Each-change P i [] k f h keep = tt
Each-change P i (x ∷ rs) zero f h keep = (keep x refl h.0, h.1)
Each-change P i (x ∷ rs) (suc k) f h keep = (h.0, Each-change P (suc i) rs k f h.1 keep)

pub Each-set :
    (P : ℕ → SessionRecord → Type 0) (i : ℕ) (rs : List SessionRecord) (k : ℕ) (r : SessionRecord)
    → Each P i rs
    → P (shift k i) r
    → Each P i (set rs k r)
Each-set P i [] k r h p = tt
Each-set P i (x ∷ rs) zero r h p = (p, h.1)
Each-set P i (x ∷ rs) (suc k) r h p = (h.0, Each-set P (suc i) rs k r h.1 p)

pub Each-map :
    (P Q : ℕ → SessionRecord → Type 0) (i : ℕ) (rs : List SessionRecord)
    → ((j : ℕ) (r : SessionRecord) → get_elem? rs j ≡ some r → P (shift j i) r → Q (shift j i) r)
    → Each P i rs
    → Each Q i rs
Each-map P Q i [] f h = tt
Each-map P Q i (x ∷ rs) f h =
    (f zero x refl h.0, Each-map P Q (suc i) rs (λ j r e. f (suc j) r e) h.1)

pub Each-All :
    (P : ℕ → SessionRecord → Type 0) (Q : SessionRecord → Type 0) (i : ℕ) (rs : List SessionRecord)
    → ((j : ℕ) (r : SessionRecord) → P j r → Q r)
    → Each P i rs
    → All Q rs
Each-All P Q i [] f h = tt
Each-All P Q i (x ∷ rs) f h = (f i x h.0, Each-All P Q (suc i) rs f h.1)

pub length-change :
    (rs : List SessionRecord) (k : ℕ) (f : SessionRecord → SessionRecord)
    → length (change k f rs) ≡ length rs
length-change [] k f = refl
length-change (x ∷ rs) zero f = refl
length-change (x ∷ rs) (suc k) f = ap suc (length-change rs k f)

-- A session in its place, when `k` sessions are over: it bears its own index, its gates are as
-- their constructor leaves them, it is DONE if it is over, and DONE only with its gate complete.
pub record InPlace (k i : ℕ) (r : SessionRecord) : Type 0 where
  pub numbered : r.sequence_index ≡ pos i
  pub normal : AllNormal r.walk_gates
  pub over : i < k → r.phase ≡ value done
  pub complete : r.phase ≡ value done → r.complete_gate ≡ true

module _ (py : Builtins) (plan : Plan) (schedule : List ScheduledSession) (n : ℕ) where
  -- The manifest of a run of `n` sessions, of which `k` are over.
  pub record IsRun (k : ℕ) (m : CumulativeManifest) : Type 0 where
    pub at : m.current_index ≡ pos k
    pub within : k ≤ n
    pub count : length m.session_records ≡ n
    pub each : Each (InPlace k) 0 m.session_records
    pub fits : Fits py m plan
    pub org : m.org_id ≡ plan.org_id
    pub config : m.config_fingerprint ≡ plan.config_fingerprint
    pub scheduled : m.schedule ≡ schedule

  -- A file from which the run can be taken up.
  abbrev pub IsResumable : Disk → Type 0
  IsResumable d = (m : CumulativeManifest) × (k : ℕ) × (d.target ≡ saved m) × IsRun k m

  pub IsRun-NormalGates : (k : ℕ) (m : CumulativeManifest) → IsRun k m → NormalGates m
  IsRun-NormalGates k m h =
      Each-All (InPlace k) (λ r. AllNormal r.walk_gates) 0 m.session_records (λ j r p. p.normal)
        h.each

  pub IsRun-InPlace :
      (k : ℕ) (m : CumulativeManifest) (i : ℕ) {r : SessionRecord}
      → IsRun k m
      → get_elem? m.session_records i ≡ some r
      → InPlace k i r
  IsRun-InPlace k m i {r} h e =
      subst (λ j. InPlace k j r) (shift_zero i)
        (Each-get (InPlace k) 0 m.session_records i h.each e)
