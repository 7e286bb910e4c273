-- ===== src/Proxy/Tests/Data.antt =====
-- Amounts in millionths of a dollar, a provider and a request.
use wevibe_bench.Prelude.{
  ℕ, ◌+◌, ◌*◌, ◌/◌, ◌^◌, ◌≡◌, refl, true, false, Option, none, some, List, [], ◌∷◌, arith,
}
use wevibe_bench.Prelude.Int.{ℤ, pos, negsuc, ◌+ℤ◌, ◌-ℤ◌, ltb_ℤ, leb_ℤ, eqb_ℤ}
use wevibe_bench.Prelude.Json.{Json, int, float, str, arr, nil, obj, Fields, end, field, Builtins}
use wevibe_bench.Cumulative.Files.{flush, missing, Disk}
use wevibe_bench.Proxy.Double.{Double, Stores, Compares, CountsUnits, sum_ℤ, at_least_nought}
use wevibe_bench.Proxy.Profile.{ProviderProfile}
use wevibe_bench.Proxy.Ledger.{Weather}

abbrev nonneg : ℤ → ℕ
nonneg (pos n) = n
nonneg (negsuc n) = 0

abbrev pub read_micros : Json → Option ℤ
read_micros (int n) = some (pos (nonneg n * 1_000_000))
read_micros (float m k) = some (pos ((2 * nonneg m * 1_000_000 + 2 ^ k) / (2 * 2 ^ k)))
read_micros (obj (field _ (int n) end)) = some n
read_micros _ = none

abbrev pub sum_of : List ℤ → ℤ
sum_of [] = pos 0
sum_of (x ∷ xs) = x +ℤ sum_of xs

abbrev pub micros : Double ℤ
micros = record {
  literal = λ digits places. pos (digits * 1_000_000 / 10 ^ places);
  add = λ x y. x +ℤ y;
  sub = λ x y. x -ℤ y;
  mul = λ x y. pos (nonneg x * nonneg y / 1_000_000);
  div = λ x y. pos (nonneg x * 1_000_000 / nonneg y);
  sum = sum_of;
  abs = λ x. elim x [ pos n ↦ pos n | negsuc n ↦ pos (n + 1) ];
  lt = ltb_ℤ;
  le = leb_ℤ;
  eq = eqb_ℤ;
  of_json = read_micros;
  to_json = λ x. obj (field "micros" (int x) end);
}

pub micros_add :
    (x y : ℤ)
    → at_least_nought micros x ≡ x
    → at_least_nought micros y ≡ y
    → at_least_nought micros (x +ℤ y) ≡ x +ℤ y
unfolding ◌+ℤ◌
micros_add (pos a) (pos b) h k = ground arith
micros_add (negsuc a) y h k = absurd (ground arith)
micros_add (pos a) (negsuc b) h k = absurd (ground arith)

pub micros-Stores : Stores micros
micros-Stores = record { of_json-to_json = λ x. refl; at_least_nought-add = micros_add }

pub sum_of-eq : (xs : List ℤ) → sum_of xs ≡ sum_ℤ micros (λ x. x) xs
sum_of-eq [] = refl
sum_of-eq (x ∷ xs) = rw (sum_of-eq xs) refl

-- All sums are exact in this one: the limit is that of the binary floats.
abbrev pub micros-CountsUnits : CountsUnits micros
micros-CountsUnits = record {
  units = λ x. x;
  is_whole = λ x. true;
  limit = pos 9_007_199_254_740_992;
  nought-whole = refl;
  units-nought = refl;
  units-lt = λ x y i j. refl;
  units-le = λ x y i j. refl;
  add-exact = λ x y i j room. (refl, refl);
  sum-exact = λ xs i room. (refl, sum_of-eq xs);
}

pub micros-Compares : Compares micros
micros-Compares = record {
  literal-eq = λ n k. ground arith;
  le_of_not_lt = λ x y e f h. ground arith;
}

abbrev pub calm : Weather
calm = record { now = "t"; fails = λ stage. false }

-- a disk on which `flush` fails
abbrev pub stormy : Weather
stormy = record { now = "u"; fails = λ stage. elim stage [ flush ↦ true | _ ↦ false ] }

abbrev pub no_file : Disk
no_file = record { target = missing; temporary = none }

abbrev pub opus : ProviderProfile ℤ
opus = record {
  name = "opus";
  model_id = "anthropic/opus";
  provider_object = some (field "only" (arr nil) end);
  pricing = some (("input", pos 5) ∷ ("output", pos 25) ∷ []);
  max_output_tokens = pos 32768;
  max_reasoning_tokens = pos 8192;
  upstream = "openrouter";
  authorized = true;
  pin_constraints = none;
  expected_upstream_model = none;
  expected_upstream_key_fp = none;
}

abbrev pub client : Fields
client = field "model" (str "openrouter/anthropic/opus") (field "max_tokens" (int (pos 90_000)) end)

abbrev pub toy_py : Builtins
toy_py = record {
  str_of = λ v. "";
  int_of = λ s. none;
  float_of = λ v. some v;
  float_sum = λ vs. int (pos 0);
  divide = λ a b. int (pos 0);
  dumps = λ v. "{}";
  sha256 = λ s. s;
}
