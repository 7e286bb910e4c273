-- ===== src/Prelude/Dict.antt =====
-- Python's `dict`, in insertion order, for keys with a decidable equality.
use Prim.Native.String.{String}
use mathlib.Core.Path.{◌≡◌, refl, ap}
use mathlib.Core.Bool.{Bool, true}
use mathlib.Core.Logic.{◌↔◌, inl, inr}
use mathlib.Core.Option.{Option, none, some}
use mathlib.Core.List.{List, [], ◌∷◌, map}
use native.Mathlib.Omega.{arith}
use text.Mathlib.Text.{◌==◌ as str_eq}
use text.Mathlib.TextEquality.{eq_iff}
use wevibe_bench.Prelude.Tests.{if◌then◌else◌, Bool-cases}
use wevibe_bench.Prelude.Int.{ℤ, eqb_ℤ, eqb_ℤ_iff}

pub record Eq (K : Type 0) : Type 0 where
  pub beq : K → K → Bool
  pub beq_iff : (a b : K) → (beq a b ≡ true) ↔ (a ≡ b)

instance abbrev pub int_eq : Eq ℤ
int_eq = record { beq = eqb_ℤ; beq_iff = eqb_ℤ_iff }

instance abbrev pub string_eq : Eq String
string_eq = record { beq = str_eq; beq_iff = eq_iff }

module _ {ℓ} {K : Type 0} {V : Type ℓ} ⦃e : Eq K⦄ where
  -- `d.get(k)`
  unfoldable pub lookup : K → List (K × V) → Option V
  lookup k [] = none
  lookup k ((j, v) ∷ d) = if e.beq j k then some v else lookup k d

  -- `d[k] = v`: a new key goes to the end
  unfoldable pub insert : K → V → List (K × V) → List (K × V)
  insert k v [] = (k, v) ∷ []
  insert k v ((j, w) ∷ d) = if e.beq j k then (j, v) ∷ d else (j, w) ∷ insert k v d

  -- `d.pop(k, None)`
  unfoldable pub erase : K → List (K × V) → List (K × V)
  erase k [] = []
  erase k ((j, w) ∷ d) = if e.beq j k then d else (j, w) ∷ erase k d

  pub lookup-insert :
      (k j : K) (v : V) (d : List (K × V))
      → lookup j (insert k v d) ≡ (if e.beq k j then some v else lookup j d)
  unfolding lookup insert
  lookup-insert k j v [] = refl
  lookup-insert k j v ((i, w) ∷ d) =
      ground (arith, e.beq_iff k j, e.beq_iff i k, e.beq_iff i j, lookup-insert k j v d)

  abbrev pub keys : List (K × V) → List K
  keys = map (λ p. p.0)

  -- No key twice.
  abbrev pub IsDict : List (K × V) → Type ℓ
  IsDict [] = Unit
  IsDict ((k, v) ∷ d) = (lookup k d ≡ none) × IsDict d

  pub insert-IsDict : (k : K) (v : V) (d : List (K × V)) → IsDict d → IsDict (insert k v d)
  unfolding insert lookup
  insert-IsDict k v [] h = (refl, tt)
  insert-IsDict k v ((j, w) ∷ d) h =
      ground (arith, e.beq_iff j k, e.beq_iff k j, lookup-insert k j v d, insert-IsDict k v d h.1)

  pub erase_absent : (k : K) (d : List (K × V)) → lookup k d ≡ none → erase k d ≡ d
  unfolding lookup erase
  erase_absent k [] h = refl
  erase_absent k ((j, w) ∷ d) h = elim (Bool-cases (e.beq j k)) [
    | inl s ↦ absurd (cc (rw s at h))
    | inr s ↦ rw s (ap (◌∷◌ (j, w)) (erase_absent k d (rw s at h)))
  ]

  pub erase-insert :
      (k : K) (v : V) (d : List (K × V)) → lookup k d ≡ none → erase k (insert k v d) ≡ d
  unfolding lookup erase insert
  erase-insert k v [] h = rw ((e.beq_iff k k).1 refl) refl
  erase-insert k v ((j, w) ∷ d) h = elim (Bool-cases (e.beq j k)) [
    | inl s ↦ absurd (cc (rw s at h))
    | inr s ↦ rw s (rw s (ap (◌∷◌ (j, w)) (erase-insert k v d (rw s at h))))
  ]
