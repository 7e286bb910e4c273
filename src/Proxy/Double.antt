-- ===== src/Proxy/Double.antt =====
-- What the proxy does with a `float`. A sum of money is such a number.
use wevibe_bench.Prelude.{
  ℕ, ◌≡◌, All, Bool, true, false, Option, none, some, List, [], ◌∷◌, if◌then◌else◌, Result, ok,
  raise,
}
use wevibe_bench.Prelude.Int.{ℤ, pos, ◌+ℤ◌, ◌≤ℤ◌, ltb_ℤ, leb_ℤ}
use wevibe_bench.Prelude.Json.{Json}
use wevibe_bench.Proxy.Errors.{ProxyError, bad_value}

pub record Double (W : Type 0) : Type 0 where
  -- the constant `digits / 10 ** places`
  pub literal : (digits places : ℕ) → W
  pub add : W → W → W
  pub sub : W → W → W
  pub mul : W → W → W
  pub div : W → W → W
  pub sum : List W → W
  pub abs : W → W
  pub lt : W → W → Bool
  pub le : W → W → Bool
  pub eq : W → W → Bool
  -- `float(value)`, with `none` where it raises, and the number as `json.dumps` writes it
  pub of_json : Json → Option W
  pub to_json : W → Json

module _ {W : Type 0} (fl : Double W) where
  abbrev pub nought : W
  nought = fl.literal 0 0

  -- `max(0.0, x)`: the second argument only where it is greater
  abbrev pub at_least_nought : W → W
  at_least_nought x = if fl.lt nought x then x else nought

  -- `max(x, y)` and `min(x, y)`
  abbrev pub max_of : W → W → W
  max_of x y = if fl.lt x y then y else x

  abbrev pub min_of : W → W → W
  min_of x y = if fl.lt y x then y else x

  -- `float(value)`
  unfoldable pub to_float : Json → Result ProxyError W
  to_float v = elim (fl.of_json v) [ none ↦ raise bad_value | some x ↦ ok x ]

  -- What is written to a file is read back as it was (`repr` of a float is exact), and a sum of
  -- numbers that are not negative is not negative.
  pub record Stores : Type 0 where
    pub of_json-to_json : (x : W) → fl.of_json (fl.to_json x) ≡ some x
    pub at_least_nought-add :
        (x y : W)
        → at_least_nought x ≡ x
        → at_least_nought y ≡ y
        → at_least_nought (fl.add x y) ≡ fl.add x y

  -- Comparisons are those of IEEE 754: only a NaN differs from itself, no constant is one, and of two
  -- other numbers the one that is not below is above or equal.
  pub record Compares : Type 0 where
    pub literal-eq : (n k : ℕ) → fl.eq (fl.literal n k) (fl.literal n k) ≡ true
    pub le_of_not_lt :
        (x y : W) → fl.eq x x ≡ true → fl.eq y y ≡ true → fl.lt x y ≡ false → fl.le y x ≡ true

  abbrev pub sum_ℤ : (W → ℤ) → List W → ℤ
  sum_ℤ f [] = pos 0
  sum_ℤ f (x ∷ xs) = f x +ℤ sum_ℤ f xs

  -- Which numbers are whole multiples of a unit, such as a power of two in binary floats, and how many
  -- units they are. A sum of such numbers that are not negative is exact as long as it stays within
  -- the limit, for binary floats 2 ^ 53 units; larger sums, and other numbers, may be rounded.
  pub record CountsUnits : Type 0 where
    pub units : W → ℤ
    pub is_whole : W → Bool
    pub limit : ℤ
    pub nought-whole : is_whole nought ≡ true
    pub units-nought : units nought ≡ pos 0
    pub units-lt :
        (x y : W) → is_whole x ≡ true → is_whole y ≡ true → fl.lt x y ≡ ltb_ℤ (units x) (units y)
    pub units-le :
        (x y : W) → is_whole x ≡ true → is_whole y ≡ true → fl.le x y ≡ leb_ℤ (units x) (units y)
    pub add-exact :
        (x y : W)
        → (is_whole x ≡ true) × (pos 0 ≤ℤ units x)
        → (is_whole y ≡ true) × (pos 0 ≤ℤ units y)
        → units x +ℤ units y ≤ℤ limit
        → (is_whole (fl.add x y) ≡ true) × (units (fl.add x y) ≡ units x +ℤ units y)
    pub sum-exact :
        (xs : List W)
        → All (λ x. (is_whole x ≡ true) × (pos 0 ≤ℤ units x)) xs
        → sum_ℤ units xs ≤ℤ limit
        → (is_whole (fl.sum xs) ≡ true) × (units (fl.sum xs) ≡ sum_ℤ units xs)
