-- ===== src/Cumulative/Sequencer/Monad.antt =====
-- What the sequencer acts on, and how its steps are put together: a step changes the machine and
-- returns a value or raises, and what it has changed by then stays changed.
use wevibe_bench.Prelude.{Bool, String, Result, ok, raise}
use wevibe_bench.Prelude.Json.{Json}
use wevibe_bench.Cumulative.Errors.{Error}
use wevibe_bench.Cumulative.Records.{SessionRecord, CumulativeManifest}
use wevibe_bench.Cumulative.Files.{FileState, Disk, Stage}
use wevibe_bench.Cumulative.Artifacts.{StreamState}

-- Everything outside the sequencer: the clock, the faults of the next file write, the injected
-- `SessionRunner`, which may change the session that it is given, and the files that
-- `build_scorecard` reads.
pub record Env : Type 1 where
  pub World : Type 0
  pub clock : World → String × World
  pub faults : World → (Stage → Bool) × World
  pub prepare_fixture : SessionRecord → World → Result Error (Unit {0}) × SessionRecord × World
  pub run_session : SessionRecord → World → Result Error Json × SessionRecord × World
  pub artifacts : World → FileState × StreamState

module _ (env : Env) where
  pub record Machine : Type 0 where
    pub manifest : CumulativeManifest
    pub disk : Disk
    pub world : env.World

  abbrev pub M {ℓ} : Type ℓ → Type ℓ
  M A = Machine → Result Error A × Machine

module _ {env : Env} where
  infixl 5 ◌>>=◌ ◌>>◌
  abbrev pub ◌>>=◌ {ℓ κ} : {X : Type ℓ} {Y : Type κ} → M env X → (X → M env Y) → M env Y
  ◌>>=◌ step next s = let (r, s') = step s in elim r [ ok x ↦ next x s' | raise e ↦ (raise e, s') ]

  abbrev pub ◌>>◌ {ℓ} : {Y : Type ℓ} → M env (Unit {0}) → M env Y → M env Y
  step >> after = step >>= λ _. after

  abbrev pub return {ℓ} : {A : Type ℓ} → A → M env A
  return a s = (ok a, s)

  abbrev pub lift {ℓ} : {A : Type ℓ} → Result Error A → M env A
  lift r s = (r, s)

  abbrev pub get : M env (Machine env)
  get s = (ok s, s)

  -- What holds of a step's outcome: one statement if it returns, one if it raises.
  abbrev pub Outcome {ℓ} :
      {A : Type ℓ}
      → (A → Machine env → Type 0)
      → (Machine env → Type 0)
      → Result Error A × Machine env
      → Type 0
  Outcome Q R (ok a, s) = Q a s
  Outcome Q R (raise e, s) = R s

  pub >>=-Outcome {ℓ κ} :
      {A : Type ℓ} {B : Type κ} (P : A → Machine env → Type 0) (Q : B → Machine env → Type 0)
      (R : Machine env → Type 0) (m : M env A) (f : A → M env B) (s : Machine env)
      → Outcome P R (m s)
      → ((a : A) (s' : Machine env) → P a s' → Outcome Q R (f a s'))
      → Outcome Q R ((m >>= f) s)
  >>=-Outcome {A} P Q R m f s h k = go (m s) h
    where
      go :
          (r : Result Error A × Machine env)
          → Outcome P R r
          → Outcome Q R (elim r.0 [ ok a ↦ f a r.1 | raise e ↦ (raise e, r.1) ])
      go (ok a, s') h' = k a s' h'
      go (raise e, s') h' = h'

  pub Outcome-map {ℓ} :
      {A : Type ℓ} (P Q : A → Machine env → Type 0) (R : Machine env → Type 0)
      (r : Result Error A × Machine env)
      → ((a : A) (s : Machine env) → P a s → Q a s)
      → Outcome P R r
      → Outcome Q R r
  Outcome-map P Q R (ok a, s) f h = f a s h
  Outcome-map P Q R (raise e, s) f h = h
