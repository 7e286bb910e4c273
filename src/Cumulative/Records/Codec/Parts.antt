-- ===== src/Cumulative/Records/Codec/Parts.antt =====
-- The coercions that `from_dict` applies to single values: `_enum_value`, `_optional_int`,
-- `_string_tuple`, `_dict_list` and `_dict_mapping` of wevibe_bench/cumulative/types.py.
use Prim.Native.String.{String}
use wevibe_bench.Prelude.{Option, none, some, List, [], ◌∷◌, map, Result, ok, raise, ◌>>=◌}
use wevibe_bench.Prelude.Int.{ℤ}
use wevibe_bench.Prelude.Json.{
  Json, null, int, str, arr, obj, Fields, end, field, Builtins, get, to_str, to_int, of_list,
  to_list,
}
use wevibe_bench.Cumulative.Errors.{Error, missing_key, bad_value}
unfoldable pub use wevibe_bench.Prelude.Json.{get_default}

-- `d[key]`
unfoldable pub require : String → Fields → Result Error Json
unfolding get
require k d = elim (get k d) [ none ↦ raise (missing_key k) | some v ↦ ok v ]

-- `list(d)` of a dict, and of a string: the keys, the characters
abbrev pub keys : Fields → List Json
keys end = []
keys (field k v fs) = str k ∷ keys fs

abbrev pub characters : String → List Json
characters String.[] = []
characters (String.◌∷◌ c s) = str (String.◌∷◌ c String.[]) ∷ characters s

-- What a `for` loop over a value visits.
unfoldable pub iterate : Json → Result Error (List Json)
iterate (arr items) = ok (to_list items)
iterate (obj fs) = ok (keys fs)
iterate (str s) = ok (characters s)
iterate _ = raise bad_value

-- an optional number, an optional dict and a list of texts as they are written
abbrev pub optional : Option ℤ → Json
optional none = null
optional (some n) = int n

abbrev pub optional_mapping : Option Fields → Json
optional_mapping none = null
optional_mapping (some fs) = obj fs

abbrev pub strings : List String → Json
strings xs = arr (of_list (map str xs))

-- `_dict_list`
abbrev pub mappings : List Json → List Fields
mappings [] = []
mappings (obj fs ∷ xs) = fs ∷ mappings xs
mappings (_ ∷ xs) = mappings xs

unfoldable pub dict_list : Json → List Fields
dict_list (arr items) = mappings (to_list items)
dict_list _ = []

-- `_dict_mapping`
unfoldable pub dict_mapping : Json → Fields
dict_mapping (obj fs) = fs
dict_mapping _ = end

module _ (py : Builtins) where
  -- `int(value)`
  unfoldable pub int_value : Json → Result Error ℤ
  unfolding to_int
  int_value v = elim (to_int py v) [ none ↦ raise bad_value | some n ↦ ok n ]

  -- `_optional_int`
  unfoldable pub optional_int : Json → Result Error (Option ℤ)
  unfolding int_value
  optional_int null = ok none
  optional_int v = do n ← int_value v; ok (some n)

  -- `_enum_value` of what a checkpoint holds
  unfoldable pub enum_value : Json → String
  unfolding to_str
  enum_value null = ""
  enum_value v = to_str py v

  -- `_string_tuple`
  unfoldable pub string_tuple : Json → List String
  unfolding to_str
  string_tuple (arr items) = map (to_str py) (to_list items)
  string_tuple _ = []
