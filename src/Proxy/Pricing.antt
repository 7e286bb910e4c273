-- ===== src/Proxy/Pricing.antt =====
-- The pricing gate of wevibe_bench/adapters/openrouter_proxy.py: `verify_orcarouter_pricing_gate`
-- and `_derive_orcarouter_row_prices`.
pub mod Laws
use wevibe_bench.Prelude.{
  ℕ, ◌^◌, Bool, true, false, not, ◌&&◌, ◌||◌, Option, none, some, List, [], ◌∷◌, String, str_eq,
  if◌then◌else◌, Result, ok, raise, raise_if, ◌>>=◌, ◌>>◌,
}
use wevibe_bench.Prelude.Int.{ℤ, pos, eqb_ℤ}
use wevibe_bench.Prelude.Text.{strip, is_truthy}
use wevibe_bench.Prelude.Json.{
  Json, null, bool, int, float, nonfinite, str, arr, obj, Items, nil, cons, Fields, end, field, get,
  get_default, get_or_none, Builtins, to_str,
}
use wevibe_bench.Proxy.Errors.{ProxyError, pricing_gate}
use wevibe_bench.Prelude.Dict.{lookup, string_eq}
use wevibe_bench.Proxy.Double.{Double, to_float}

abbrev pub pricing_version_pin : String
pricing_version_pin = "c58e194db3f6a20e7d41b8c9e2f05a17"

abbrev pub anchor_model : String
anchor_model = "openai/gpt-4o-mini"

-- `_is_number`
abbrev pub is_number : Json → Bool
is_number (int _) = true
is_number (float _ _) = true
is_number nonfinite = true
is_number _ = false

-- `value == 1` and `value in (None, 1, 1.0)`
unfoldable pub is_one : Json → Bool
is_one (int n) = eqb_ℤ n (pos 1)
is_one (bool b) = b
is_one (float m k) = eqb_ℤ m (pos (2 ^ k))
is_one _ = false

unfoldable pub is_neutral : Json → Bool
unfolding is_one
is_neutral null = true
is_neutral v = is_one v

-- a JSON value that is the text
abbrev pub is_text : String → Json → Bool
is_text s (str t) = str_eq t s
is_text s _ = false

-- `model_discounts`: missing, or an empty list or dict
unfoldable pub check_discounts : Json → Result ProxyError (Unit {0})
check_discounts null = ok tt
check_discounts (arr nil) = ok tt
check_discounts (obj end) = ok tt
check_discounts _ = raise (pricing_gate "model_discounts must be neutral")

-- a ratio of a group: a number that is 1
abbrev pub is_unit_ratio : Json → Bool
unfolding is_one
is_unit_ratio v = is_number v && is_one v

abbrev pub all_unit_ratios : Fields → Bool
unfolding is_one
all_unit_ratios end = true
all_unit_ratios (field k v fs) = is_unit_ratio v && all_unit_ratios fs

unfoldable pub check_group_ratio : Json → Result ProxyError (Unit {0})
unfolding is_one
check_group_ratio (obj ratios) =
    raise_if (not (all_unit_ratios ratios)) (pricing_gate "group_ratio must be neutral")
check_group_ratio v = raise_if (not (is_unit_ratio v)) (pricing_gate "group_ratio must be neutral")

-- the first object of the rows whose name passes the test
unfoldable pub find_row : (Fields → Bool) → Items → Option Fields
find_row p nil = none
find_row p (cons (obj row) rows) = if p row then some row else find_row p rows
find_row p (cons _ rows) = find_row p rows

-- a row that has to be there, and the rows
unfoldable pub found : String → Option Fields → Result ProxyError Fields
found message none = raise (pricing_gate message)
found message (some row) = ok row

abbrev pub rows_of : Json → Result ProxyError Items
rows_of (arr rows) = ok rows
rows_of _ = raise (pricing_gate "data must be a list")

module _ {W : Type 0} (fl : Double W) where
  pub record RowPrices : Type 0 where
    pub input : W
    pub output : W
    pub cache_read : Option W

  -- a field that has to be a number
  unfoldable pub number_field : (message : String) → Json → Result ProxyError W
  unfolding to_float
  number_field message v = if is_number v then to_float fl v else raise (pricing_gate message)

  -- `_derive_orcarouter_row_prices`
  unfoldable pub cache_price : W → Json → Result ProxyError (Option W)
  unfolding number_field
  cache_price input_usd null = ok none
  cache_price input_usd v = do
    ratio ← number_field "cache_ratio must be numeric" v
    ok (some (fl.mul input_usd ratio))

  unfoldable pub derive_row_prices : Fields → W → Result ProxyError RowPrices
  unfolding get_or_none number_field cache_price
  derive_row_prices row scalar = do
    model_ratio ← number_field "row ratios must be numeric" (get_or_none "model_ratio" row)
    completion_ratio ←
        number_field "row ratios must be numeric" (get_or_none "completion_ratio" row)
    let input_usd = fl.mul (fl.mul model_ratio (fl.literal 2 0)) scalar
    cache_read ← cache_price input_usd (get_or_none "cache_ratio" row)
    ok (record {
      input = input_usd;
      output = fl.mul input_usd completion_ratio;
      cache_read = cache_read;
    })

  -- `abs(observed - expected) > PRICING_ANCHOR_ABS_TOL_USD`
  abbrev pub is_off : (observed expected : W) → Bool
  is_off observed expected = fl.lt (fl.literal 1 6) (fl.abs (fl.sub observed expected))

  -- the scalar that the ratio of the workspace stands for
  unfoldable pub group_scalar : Json → Result ProxyError W
  unfolding to_float
  group_scalar null = ok (fl.literal 1 0)
  group_scalar v = to_float fl v

  unfoldable pub check_anchor : Items → W → Result ProxyError (Unit {0})
  unfolding get_or_none find_row found derive_row_prices
  check_anchor rows scalar = do
    row ←
        found "missing anchor model"
          (find_row (λ row. is_text anchor_model (get_or_none "model_name" row)) rows)
    prices ← derive_row_prices row scalar
    raise_if (is_off prices.input (fl.literal 15 2))
        (pricing_gate "anchor input derivation mismatch")
    raise_if (is_off prices.output (fl.literal 60 2))
        (pricing_gate "anchor output derivation mismatch")

  -- one key of the expected prices
  unfoldable pub expected_price : String → List (String × W) → Result ProxyError W
  unfolding lookup
  expected_price key expected = elim (lookup key expected) [
    | none ↦ raise (pricing_gate "expected pricing key missing/invalid")
    | some x ↦ ok x
  ]

  unfoldable pub derived_cache_price : RowPrices → Result ProxyError W
  derived_cache_price prices = elim prices.cache_read [
    | none ↦ raise (pricing_gate "missing cache_ratio row")
    | some x ↦ ok x
  ]

  unfoldable pub check_target :
      Builtins → Items → W → (model : String) → List (String × W) → Result ProxyError (Unit {0})
  unfolding expected_price find_row found derive_row_prices derived_cache_price get_default to_str
      strip
  check_target py rows scalar model expected = do
    input ← expected_price "input" expected
    output ← expected_price "output" expected
    cache_read ← expected_price "cache_read" expected
    row ← found "missing row for model" (
        find_row (λ row. str_eq (strip (to_str py (get_default "model_name" (str "") row))) model)
          rows)
    prices ← derive_row_prices row scalar
    observed ← derived_cache_price prices
    raise_if (is_off prices.input input) (pricing_gate "input mismatch")
    raise_if (is_off prices.output output) (pricing_gate "output mismatch")
    raise_if (is_off observed cache_read) (pricing_gate "cache_read mismatch")

  unfoldable pub check_expected :
      Builtins
      → Items
      → W
      → (profile_model : Option String) → Option (List (String × W))
      → Result ProxyError (Unit {0})
  unfolding check_target strip
  check_expected py rows scalar profile_model none = ok tt
  check_expected py rows scalar profile_model (some expected) =
      let model = strip (elim profile_model [ none ↦ "" | some m ↦ m ]) in
      if is_truthy model
      then check_target py rows scalar model expected
      else raise (pricing_gate "profile model required for row verification")

  unfoldable pub verify_orcarouter_pricing_gate :
      Builtins
      → Json
      → (profile_model : Option String) → Option (List (String × W))
      → Result ProxyError (Unit {0})
  unfolding get_or_none get_default check_discounts is_neutral check_group_ratio group_scalar
      check_anchor check_expected
  verify_orcarouter_pricing_gate py (obj payload) profile_model expected = do
    raise_if (not (is_text pricing_version_pin (get_or_none "pricing_version" payload)))
        (pricing_gate "pricing_version pin mismatch")
    check_discounts (get_or_none "model_discounts" payload)
    raise_if (not (is_neutral (get_or_none "workspace_discount" payload)))
        (pricing_gate "workspace_discount must be neutral")
    raise_if (not (is_neutral (get_or_none "effective_group_ratio" payload)))
        (pricing_gate "effective_group_ratio must be neutral")
    check_group_ratio (get_default "group_ratio" (float (pos 1) 0) payload)
    rows ← rows_of (get_or_none "data" payload)
    scalar ← group_scalar (get_or_none "effective_group_ratio" payload)
    check_anchor rows scalar
    check_expected py rows scalar profile_model expected
  verify_orcarouter_pricing_gate py _ profile_model expected =
      raise (pricing_gate "payload must be a JSON object")
