-- ===== src/Cumulative/Progress/Laws.antt =====
-- Which telemetry a progress vector reports as missing.
use wevibe_bench.Prelude.{
  ◌≡◌, refl, ap, ◌∙◌, Bool, true, false, not, ◌&&◌, ◌||◌, none, some, List, [], ◌∷◌, String, str_eq,
  eq_iff, arith, if◌then◌else◌,
}
use wevibe_bench.Prelude.Json.{Fields, end, field}
use wevibe_bench.Prelude.Int.{ℤ}
use wevibe_bench.Prelude.Text.{strip, is_truthy}
use wevibe_bench.Cumulative.Progress.{
  ProgressVector, seam_values, is_off, excluded_seams, reported_seams,
}
use wevibe_bench.Cumulative.Progress.Seams.{
  on_only_seams, contains, snoc, add_seam, add_default, add_null, add_provided, is_null,
  normalize_missing_telemetry_seams,
}

-- Whether a dict has a key whose value is `None`.
abbrev pub null_at : String → Fields → Bool
null_at x end = false
null_at x (field name value rest) = (is_null value && str_eq x name) || null_at x rest

contains-snoc :
    (x y : String) (xs : List String) → contains x (snoc xs y) ≡ (contains x xs || str_eq x y)
unfolding contains
contains-snoc x y [] = ground arith
contains-snoc x y (z ∷ xs) = ground (arith, contains-snoc x y xs)

contains-add_seam :
    (x y : String) (excluded xs : List String)
    → contains x (add_seam excluded xs y)
      ≡ (contains x xs || (str_eq x y && not (contains y excluded)))
unfolding add_seam
contains-add_seam x y excluded xs = ground (arith, contains-snoc x y xs, eq_iff x y)

contains-add_null :
    (x : String) (excluded xs : List String) (values : Fields)
    → contains x (add_null excluded xs values)
      ≡ (contains x xs || (null_at x values && not (contains x excluded)))
unfolding add_null
contains-add_null x excluded xs end = ground arith
contains-add_null x excluded xs (field name value rest) = ground (
  arith,
  eq_iff x name,
  contains-add_seam x name excluded xs,
  contains-add_null x excluded (if is_null value then add_seam excluded xs name else xs) rest,
)

-- Whether a name stands in a list of texts, once these are stripped.
abbrev pub named : String → List String → Bool
named x [] = false
named x (seam ∷ rest) = (is_truthy (strip seam) && str_eq x (strip seam)) || named x rest

contains-add_provided :
    (x : String) (excluded xs seams : List String)
    → contains x (add_provided excluded xs seams)
      ≡ (contains x xs || (named x seams && not (contains x excluded)))
unfolding add_provided
contains-add_provided x excluded xs [] = ground arith
contains-add_provided x excluded xs (seam ∷ rest) = ground (
  arith,
  eq_iff x (strip seam),
  contains-add_seam x (strip seam) excluded xs,
  contains-add_provided x excluded
      (if is_truthy (strip seam) then add_seam excluded xs (strip seam) else xs) rest,
)

-- A seam is reported exactly if it is named by the vector or its value is missing, and it is not
-- excluded.
pub contains-normalize :
    (x : String) (provided : List String) (values : Fields) (excluded : List String)
    → contains x (normalize_missing_telemetry_seams provided values excluded)
      ≡ ((named x provided || null_at x values) && not (contains x excluded))
unfolding normalize_missing_telemetry_seams add_default
contains-normalize x provided values excluded = ground (
  arith,
  contains-add_null x excluded (add_provided excluded [] provided) values,
  contains-add_provided x excluded [] provided,
  empty x,
)
  where
    empty : (x : String) → contains x [] ≡ false
    empty x = unfold contains in refl

excluded_off :
    (x : String) (provided : List String) (values : Fields) (excluded : List String)
    → contains x excluded ≡ true
    → contains x (normalize_missing_telemetry_seams provided values excluded) ≡ false
excluded_off x provided values excluded known =
    ground (arith, contains-normalize x provided values excluded)

included_on :
    (x : String) (provided : List String) (values : Fields)
    → null_at x values ≡ true
    → contains x (normalize_missing_telemetry_seams provided values []) ≡ true
unfolding contains
included_on x provided values missing = ground (arith, contains-normalize x provided values [])

-- The dict of a vector whose `injected_count` is None never reports an on-only seam; that of a vector
-- with an `injected_count` reports each seam whose value is None. The memory mode of the cell is not
-- asked.
pub reported_seams_modes :
    (x : String) (p : ProgressVector)
    → (p.injected_count ≡ none
        → contains x on_only_seams ≡ true
        → contains x (reported_seams p) ≡ false)
      × ((n : ℤ)
          → p.injected_count ≡ some n
          → null_at x (seam_values p) ≡ true
          → contains x (reported_seams p) ≡ true)
unfolding reported_seams
reported_seams_modes x p = (
  (λ off known.
      let is : is_off p ≡ true = rw off refl in
      ap
        (λ b. contains x (
          normalize_missing_telemetry_seams p.missing_telemetry_seams (seam_values p)
            (excluded_seams b)))
        is
      ∙ excluded_off x p.missing_telemetry_seams (seam_values p) on_only_seams known),
  (λ n on missing.
      let is : is_off p ≡ false = rw on refl in
      ap
        (λ b. contains x (
          normalize_missing_telemetry_seams p.missing_telemetry_seams (seam_values p)
            (excluded_seams b)))
        is
      ∙ included_on x p.missing_telemetry_seams (seam_values p) missing),
)
