-- ===== src/Proxy/Pricing/Laws.antt =====
-- What the pricing gate has made sure of where it lets a payload pass.
use wevibe_bench.Prelude.{
  ◌≡◌, refl, ◌⊎◌, inl, inr, Bool, true, false, not, Option, none, some, List, String, str_eq, ok,
  raise_if, >>=-eq-ok, arith, Bool-cases,
}
use wevibe_bench.Prelude.Int.{pos}
use wevibe_bench.Prelude.Text.{strip, is_truthy}
use wevibe_bench.Prelude.Json.{
  Json, null, bool, int, float, nonfinite, str, arr, obj, Items, nil, cons, Fields, end, field,
  get_default, get_or_none, Builtins, to_str,
}
use wevibe_bench.Prelude.Dict.{lookup, string_eq}
use wevibe_bench.Proxy.Errors.{ProxyError, pricing_gate}
use wevibe_bench.Proxy.Double.{Compares, Double}
use wevibe_bench.Proxy.Pricing.{
  pricing_version_pin, anchor_model, is_one, is_neutral, is_text, check_discounts, is_unit_ratio,
  all_unit_ratios, check_group_ratio, find_row, RowPrices, derive_row_prices, is_off, group_scalar,
  found, check_anchor, expected_price, derived_cache_price, check_target, check_expected, rows_of,
  verify_orcarouter_pricing_gate,
}

passed : (b : Bool) (e : ProxyError) {u : Unit {0}} → raise_if (not b) e ≡ ok u → b ≡ true
passed true e h = refl
passed false e h = cc

not_raised : (b : Bool) (e : ProxyError) {u : Unit {0}} → raise_if b e ≡ ok u → b ≡ false
not_raised true e h = cc
not_raised false e h = refl

-- A missing or empty list or dict of discounts.
abbrev pub HasNoDiscounts : Json → Type 0
HasNoDiscounts v = (v ≡ null) ⊎ (v ≡ arr nil) ⊎ (v ≡ obj end)

check_discounts_sound : (v : Json) {u : Unit {0}} → check_discounts v ≡ ok u → HasNoDiscounts v
unfolding check_discounts
check_discounts_sound null h = inl refl
check_discounts_sound (arr nil) h = inr (inl refl)
check_discounts_sound (obj end) h = inr (inr refl)
check_discounts_sound (arr (cons _ _)) h = cc
check_discounts_sound (obj (field _ _ _)) h = cc
check_discounts_sound (bool b) h = cc
check_discounts_sound (int n) h = cc
check_discounts_sound (float m k) h = cc
check_discounts_sound nonfinite h = cc
check_discounts_sound (str s) h = cc

-- A number that is 1, or a dict of such.
abbrev pub HasUnitRatios : Json → Type 0
unfolding is_one
HasUnitRatios (obj ratios) = all_unit_ratios ratios ≡ true
HasUnitRatios v = is_unit_ratio v ≡ true

check_group_ratio_sound : (v : Json) {u : Unit {0}} → check_group_ratio v ≡ ok u → HasUnitRatios v
unfolding check_group_ratio is_one
check_group_ratio_sound (obj ratios) h = passed (all_unit_ratios ratios) _ h
check_group_ratio_sound null h = cc
check_group_ratio_sound (bool b) h = cc
check_group_ratio_sound (int n) h = passed (is_unit_ratio (int n)) _ h
check_group_ratio_sound (float m k) h = passed (is_unit_ratio (float m k)) _ h
check_group_ratio_sound nonfinite h = cc
check_group_ratio_sound (str s) h = cc
check_group_ratio_sound (arr xs) h = cc

found_sound :
    (message : String) (o : Option Fields) {row : Fields} → found message o ≡ ok row → o ≡ some row
unfolding found
found_sound message none h = cc
found_sound message (some row) h = cc

module _ {W : Type 0} (fl : Double W) where
  -- The first row of a name gives these prices.
  abbrev pub HasPrices : (Fields → Bool) → Items → W → RowPrices fl → Type 0
  HasPrices named rows scalar prices =
      (row : Fields) × (find_row named rows ≡ some row)
      × (derive_row_prices fl row scalar ≡ ok prices)

  -- The prices differ by at most the tolerance, or their difference is a NaN, which no comparison
  -- refuses.
  abbrev pub IsNear : (observed expected : W) → Type 0
  IsNear observed expected =
      let d = fl.abs (fl.sub observed expected) in
      (fl.le d (fl.literal 1 6) ≡ true) ⊎ (fl.eq d d ≡ false)

  IsNear-of_not_off : Compares fl → (x y : W) → is_off fl x y ≡ false → IsNear x y
  IsNear-of_not_off c x y h =
      let d = fl.abs (fl.sub x y) in
      elim (Bool-cases (fl.eq d d)) [
        | inl e ↦ inl (c.le_of_not_lt (fl.literal 1 6) d (c.literal-eq 1 6) e h)
        | inr e ↦ inr e
      ]

  -- The prices of the anchor model are the known ones, in the sense of `IsNear`.
  abbrev pub IsAnchored : Items → W → Type 0
  IsAnchored rows scalar =
      (prices : RowPrices fl) × HasPrices
        (λ row. is_text anchor_model (get_or_none "model_name" row)) rows scalar prices
      × IsNear prices.input (fl.literal 15 2)
      × IsNear prices.output (fl.literal 60 2)

  check_anchor_sound :
      (c : Compares fl) (rows : Items) (scalar : W) {u : Unit {0}}
      → check_anchor fl rows scalar ≡ ok u
      → IsAnchored rows scalar
  unfolding check_anchor
  check_anchor_sound c rows scalar h =
      let named = λ (row : Fields). is_text anchor_model (get_or_none "model_name" row) in
      let (row, there, h1) = >>=-eq-ok (found "missing anchor model" (find_row named rows)) _ h in
      let (prices, derived, h2) = >>=-eq-ok (derive_row_prices fl row scalar) _ h1 in
      let (u, near, h3) =
        >>=-eq-ok
          (raise_if (is_off fl prices.input (fl.literal 15 2))
            (pricing_gate "anchor input derivation mismatch"))
          _ h2 in
      (
        prices,
        (row, found_sound _ (find_row named rows) there, derived),
        IsNear-of_not_off c prices.input (fl.literal 15 2)
            (not_raised (is_off fl prices.input (fl.literal 15 2)) _ near),
        IsNear-of_not_off c prices.output (fl.literal 60 2)
            (not_raised (is_off fl prices.output (fl.literal 60 2)) _ h3),
      )

  -- The prices of a model's row are the expected ones, in the sense of `IsNear`, the cache price included.
  pub record IsQuoted (py : Builtins) (rows : Items) (scalar : W) (model : String)
      (expected : List (String × W)) : Type 0 where
    pub prices : RowPrices fl
    pub input : W
    pub output : W
    pub cache_read : W
    pub observed : W
    pub expects_input : lookup "input" expected ≡ some input
    pub expects_output : lookup "output" expected ≡ some output
    pub expects_cache_read : lookup "cache_read" expected ≡ some cache_read
    pub priced :
        HasPrices
          (λ row. str_eq (strip (to_str py (get_default "model_name" (str "") row))) model)
          rows
          scalar
          prices
    pub caches : prices.cache_read ≡ some observed
    pub input_near : IsNear prices.input input
    pub output_near : IsNear prices.output output
    pub cache_read_near : IsNear observed cache_read

  expected_price_sound :
      (key : String) (expected : List (String × W)) {x : W}
      → expected_price fl key expected ≡ ok x
      → lookup key expected ≡ some x
  unfolding expected_price
  expected_price_sound key expected h = ground arith

  derived_cache_price_sound :
      (prices : RowPrices fl) {x : W}
      → derived_cache_price fl prices ≡ ok x
      → prices.cache_read ≡ some x
  unfolding derived_cache_price
  derived_cache_price_sound prices h = ground arith

  check_target_sound :
      (c : Compares fl) (py : Builtins) (rows : Items) (scalar : W) (model : String)
      (expected : List (String × W)) {u : Unit {0}}
      → check_target fl py rows scalar model expected ≡ ok u
      → IsQuoted py rows scalar model expected
  unfolding check_target
  check_target_sound c py rows scalar model expected h =
      let named = λ (row : Fields).
        str_eq (strip (to_str py (get_default "model_name" (str "") row))) model in
      let (x, ex, h1) = >>=-eq-ok (expected_price fl "input" expected) _ h in
      let (y, ey, h2) = >>=-eq-ok (expected_price fl "output" expected) _ h1 in
      let (z, ez, h3) = >>=-eq-ok (expected_price fl "cache_read" expected) _ h2 in
      let (row, there, h4) = >>=-eq-ok (found "missing row for model" (find_row named rows)) _ h3 in
      let (prices, derived, h5) = >>=-eq-ok (derive_row_prices fl row scalar) _ h4 in
      let (observed, caches, h6) = >>=-eq-ok (derived_cache_price fl prices) _ h5 in
      let (u1, n1, h7) =
        >>=-eq-ok (raise_if (is_off fl prices.input x) (pricing_gate "input mismatch")) _ h6 in
      let (u2, n2, h8) =
        >>=-eq-ok (raise_if (is_off fl prices.output y) (pricing_gate "output mismatch")) _ h7 in
      record {
        prices = prices;
        input = x;
        output = y;
        cache_read = z;
        observed = observed;
        expects_input = expected_price_sound "input" expected ex;
        expects_output = expected_price_sound "output" expected ey;
        expects_cache_read = expected_price_sound "cache_read" expected ez;
        priced = (row, found_sound _ (find_row named rows) there, derived);
        caches = derived_cache_price_sound prices caches;
        input_near =
            IsNear-of_not_off c prices.input x (not_raised (is_off fl prices.input x) _ n1);
        output_near =
            IsNear-of_not_off c prices.output y (not_raised (is_off fl prices.output y) _ n2);
        cache_read_near = IsNear-of_not_off c observed z (not_raised (is_off fl observed z) _ h8);
      }

  -- the model that the profile names, where prices are expected
  abbrev pub IsExpected : Builtins → Items → W → Option String → Option (List (String × W)) → Type 0
  IsExpected py rows scalar profile_model none = Unit
  IsExpected py rows scalar profile_model (some expected) =
      IsQuoted py rows scalar (strip (elim profile_model [ none ↦ "" | some m ↦ m ])) expected

  check_expected_sound :
      (c : Compares fl) (py : Builtins) (rows : Items) (scalar : W) (model : Option String)
      (expected : Option (List (String × W))) {u : Unit {0}}
      → check_expected fl py rows scalar model expected ≡ ok u
      → IsExpected py rows scalar model expected
  unfolding check_expected
  check_expected_sound c py rows scalar model none h = tt
  check_expected_sound c py rows scalar model (some expected) h =
      let name = strip (elim model [ none ↦ "" | some m ↦ m ]) in
      elim (Bool-cases (is_truthy name)) [
        | inl e ↦ check_target_sound c py rows scalar name expected (rw e at h)
        | inr e ↦ absurd (cc (rw e at h))
      ]

  pub record IsTrusted (py : Builtins) (payload : Fields) (profile_model : Option String)
      (expected : Option (List (String × W))) : Type 0 where
    pub version : is_text pricing_version_pin (get_or_none "pricing_version" payload) ≡ true
    pub undiscounted : HasNoDiscounts (get_or_none "model_discounts" payload)
    pub workspace_neutral : is_neutral (get_or_none "workspace_discount" payload) ≡ true
    pub group_neutral : is_neutral (get_or_none "effective_group_ratio" payload) ≡ true
    pub ratios : HasUnitRatios (get_default "group_ratio" (float (pos 1) 0) payload)
    pub rows : Items
    pub lists : get_or_none "data" payload ≡ arr rows
    pub scalar : W
    pub scaled : group_scalar fl (get_or_none "effective_group_ratio" payload) ≡ ok scalar
    pub anchored : IsAnchored rows scalar
    pub expected_met : IsExpected py rows scalar profile_model expected

  rows_of_sound : (v : Json) {rows : Items} → rows_of v ≡ ok rows → v ≡ arr rows
  rows_of_sound (arr xs) h = cc
  rows_of_sound null h = cc
  rows_of_sound (bool b) h = cc
  rows_of_sound (int n) h = cc
  rows_of_sound (float m k) h = cc
  rows_of_sound nonfinite h = cc
  rows_of_sound (str s) h = cc
  rows_of_sound (obj fs) h = cc

  -- A payload that passes the gate is an object of the pinned version without discounts, its ratios
  -- are 1, its row for the anchor model gives the known prices, and, where prices are expected, its
  -- row for the profile's model gives those: each price is within the tolerance, or its difference
  -- from the expected one is a NaN. Floats compare as IEEE 754 says.
  pub verify_orcarouter_pricing_gate_sound :
      (c : Compares fl) (py : Builtins) (payload : Fields) (profile_model : Option String)
      (expected : Option (List (String × W)))
      → verify_orcarouter_pricing_gate fl py (obj payload) profile_model expected ≡ ok tt
      → IsTrusted py payload profile_model expected
  unfolding verify_orcarouter_pricing_gate
  verify_orcarouter_pricing_gate_sound c py payload model expected h =
      let v = is_text pricing_version_pin (get_or_none "pricing_version" payload) in
      let w = is_neutral (get_or_none "workspace_discount" payload) in
      let g = is_neutral (get_or_none "effective_group_ratio" payload) in
      let (u1, e1, h1) =
        >>=-eq-ok (raise_if (not v) (pricing_gate "pricing_version pin mismatch")) _ h in
      let (u2, e2, h2) = >>=-eq-ok (check_discounts (get_or_none "model_discounts" payload)) _ h1 in
      let (u3, e3, h3) =
        >>=-eq-ok (raise_if (not w) (pricing_gate "workspace_discount must be neutral")) _ h2 in
      let (u4, e4, h4) =
        >>=-eq-ok (raise_if (not g) (pricing_gate "effective_group_ratio must be neutral")) _ h3 in
      let (u5, e5, h5) =
        >>=-eq-ok (check_group_ratio (get_default "group_ratio" (float (pos 1) 0) payload)) _ h4 in
      let (rows, e6, h6) = >>=-eq-ok (rows_of (get_or_none "data" payload)) _ h5 in
      let (scalar, e7, h7) =
        >>=-eq-ok (group_scalar fl (get_or_none "effective_group_ratio" payload)) _ h6 in
      let (u8, e8, h8) = >>=-eq-ok (check_anchor fl rows scalar) _ h7 in
      record {
        version = passed v _ e1;
        undiscounted = check_discounts_sound (get_or_none "model_discounts" payload) e2;
        workspace_neutral = passed w _ e3;
        group_neutral = passed g _ e4;
        ratios = check_group_ratio_sound (get_default "group_ratio" (float (pos 1) 0) payload) e5;
        rows = rows;
        lists = rows_of_sound (get_or_none "data" payload) e6;
        scalar = scalar;
        scaled = e7;
        anchored = check_anchor_sound c rows scalar e8;
        expected_met = check_expected_sound c py rows scalar model expected h8;
      }
