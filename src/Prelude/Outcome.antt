-- ===== src/Prelude/Outcome.antt =====
-- A Python call: it returns a value or raises an exception.
use mathlib.Core.Path.{◌≡◌, refl}
use mathlib.Core.Logic.{◌⊎◌, inl, inr}
use mathlib.Core.Bool.{Bool, true, false}

pub data Result {ℓ} (E : Type 0) (A : Type ℓ) : Type ℓ where
  ok : A → Result E A
  raise : E → Result E A

module _ {E : Type 0} where
  infixl 5 ◌>>=◌ ◌>>◌
  abbrev pub ◌>>=◌ {ℓ κ} : {X : Type ℓ} {Y : Type κ} → Result E X → (X → Result E Y) → Result E Y
  raise e >>= next = raise e
  ok x >>= next = next x

  abbrev pub ◌>>◌ {ℓ} : {Y : Type ℓ} → Result E (Unit {0}) → Result E Y → Result E Y
  call >> after = call >>= λ _. after

  -- `if c: raise e`
  abbrev pub raise_if : Bool → E → Result E (Unit {0})
  raise_if true e = raise e
  raise_if false e = ok tt

  pub Result-cases {ℓ} :
      {A : Type ℓ} (r : Result E A) → ((a : A) × (r ≡ ok a)) ⊎ ((e : E) × (r ≡ raise e))
  Result-cases (ok a) = inl (a, refl)
  Result-cases (raise e) = inr (e, refl)

  -- A chain that returns has a first call that returns, and the rest returns from its value.
  pub >>=-eq-ok {ℓ κ} :
      {X : Type ℓ} {Y : Type κ} (call : Result E X) (next : X → Result E Y) {y : Y}
      → call >>= next ≡ ok y
      → (x : X) × (call ≡ ok x) × (next x ≡ ok y)
  >>=-eq-ok (raise e) next returned = cc
  >>=-eq-ok (ok x) next returned = (x, refl, returned)

  pub ok-inj {ℓ} : {A : Type ℓ} (x y : A) → ◌≡◌ {A = Result E A} (ok x) (ok y) → x ≡ y
  ok-inj x y e = cc
