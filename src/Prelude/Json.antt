-- ===== src/Prelude/Json.antt =====
-- The values of a dynamic language, as `json.loads` makes them.
use Prim.Native.Nat.{ℕ, ◌+◌, ◌/◌, ◌^◌}
use Prim.Native.String.{String}
use mathlib.Core.Path.{◌≡◌, refl, ap}
use mathlib.Core.List.{List, [], ◌∷◌}
use mathlib.Core.Bool.{Bool, true, false, not}
use mathlib.Core.Option.{Option, none, some}
use native.Mathlib.Omega.{arith}
use text.Mathlib.Text.{◌==◌}
use text.Mathlib.TextEquality.{eq_iff}
use wevibe_bench.Prelude.Tests.{if◌then◌else◌}
use wevibe_bench.Prelude.Int.{ℤ, pos, negsuc, ◌-ℤ◌, eqb_ℤ}
use wevibe_bench.Prelude.Text.{is_truthy}

-- A finite float is `mantissa / 2 ^ scale`, exactly; `nonfinite` is an infinity or a NaN.
mutual
  pub data Json : Type 0 where
    null : Json
    bool : Bool → Json
    int : ℤ → Json
    float : (mantissa : ℤ) (scale : ℕ) → Json
    nonfinite : Json
    str : String → Json
    arr : Items → Json
    obj : Fields → Json

  pub data Items : Type 0 where
    nil : Items
    cons : Json → Items → Items

  pub data Fields : Type 0 where
    end : Fields
    field : String → Json → Fields → Fields

-- `isinstance(value, Mapping)`
abbrev pub as_mapping : Json → Option Fields
as_mapping (obj fs) = some fs
as_mapping _ = none

-- `bool(value)`
unfoldable pub truth : Json → Bool
truth null = false
truth (bool b) = b
truth (int n) = not (eqb_ℤ n (pos 0))
truth (float m k) = not (eqb_ℤ m (pos 0))
truth nonfinite = true
truth (str s) = is_truthy s
truth (arr nil) = false
truth (arr (cons _ _)) = true
truth (obj end) = false
truth (obj (field _ _ _)) = true

-- `d.get(key)`, with `none` for a missing key. A dict has each key once.
unfoldable pub get : String → Fields → Option Json
get k end = none
get k (field j v fs) = if j == k then some v else get k fs

-- `d.get(key)` as the program reads it: `None` for a missing key
unfoldable pub get_or_none : String → Fields → Json
unfolding get
get_or_none k fs = elim (get k fs) [ none ↦ null | some v ↦ v ]

-- `d.get(key, default)`
unfoldable pub get_default : String → Json → Fields → Json
unfolding get
get_default k v d = elim (get k d) [ none ↦ v | some w ↦ w ]

-- `key in d`
unfoldable pub has_field : String → Fields → Bool
unfolding get
has_field k d = elim (get k d) [ none ↦ false | some v ↦ true ]

-- `d[key] = v`: a new key goes to the end
unfoldable pub put : String → Json → Fields → Fields
put k v end = field k v end
put k v (field j w fs) = if j == k then field j v fs else field j w (put k v fs)

pub get-put :
    (k j : String) (v : Json) (fs : Fields)
    → get j (put k v fs) ≡ (if k == j then some v else get j fs)
unfolding get put
get-put k j v end = refl
get-put k j v (field i w fs) = ground (arith, eq_iff k j, eq_iff i k, eq_iff i j, get-put k j v fs)

-- `int(value)` of a finite float: it drops the fraction.
unfoldable pub truncate : ℤ → ℕ → ℤ
truncate (pos n) k = pos (n / 2 ^ k)
truncate (negsuc n) k = pos 0 -ℤ pos ((n + 1) / 2 ^ k)

-- What the program takes from Python and its standard library: `str` of a value that is no
-- string, `int` of a string, `float`, `sum` of floats, the quotient `/` of two integers, `json.dumps` with sorted
-- keys and compact separators, and the hexadecimal SHA-256 digest of a text.
pub record Builtins : Type 0 where
  pub str_of : Json → String
  pub int_of : String → Option ℤ
  pub float_of : Json → Option Json
  pub float_sum : List Json → Json
  pub divide : ℤ → ℤ → Json
  pub dumps : Json → String
  pub sha256 : String → String

-- `str(value)`
unfoldable pub to_str : Builtins → Json → String
to_str py (str s) = s
to_str py v = py.str_of v

-- `int(value)`; `none` where it raises
unfoldable pub to_int : Builtins → Json → Option ℤ
unfolding truncate
to_int py (int n) = some n
to_int py (bool true) = some (pos 1)
to_int py (bool false) = some (pos 0)
to_int py (float m k) = some (truncate m k)
to_int py (str s) = py.int_of s
to_int py _ = none

abbrev pub of_list : List Json → Items
of_list [] = nil
of_list (x ∷ xs) = cons x (of_list xs)

abbrev pub to_list : Items → List Json
to_list nil = []
to_list (cons x xs) = x ∷ to_list xs

pub to_list-of_list : (xs : List Json) → to_list (of_list xs) ≡ xs
to_list-of_list [] = refl
to_list-of_list (x ∷ xs) = ap (◌∷◌ x) (to_list-of_list xs)
