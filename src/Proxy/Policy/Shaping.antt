-- ===== src/Proxy/Policy/Shaping.antt =====
-- The fields of a body as the steps of the request policy set them
-- (wevibe_bench/adapters/openrouter_proxy.py).
use wevibe_bench.Prelude.{
  ◌≡◌, refl, ◌∙◌, ◌⊎◌, inl, inr, true, false, ◌&&◌, Option, none, some, String, if◌then◌else◌,
  str_eq, arith, Bool-cases, Option-cases,
}
use wevibe_bench.Prelude.Int.{ℤ, pos, ◌≤ℤ◌, ltb_ℤ}
use wevibe_bench.Prelude.Json.{
  Json, null, bool, int, float, nonfinite, str, arr, obj, Fields, end, field, get, get_or_none,
  has_field, put, get-put,
}
use wevibe_bench.Proxy.Policy.{clamp, with_usage}

-- A number of tokens that the limit allows: the limit itself, a number from 1 up to it, or `True`,
-- which counts as 1.
abbrev pub IsAllowed : ℤ → Json → Type 0
IsAllowed limit v =
    (v ≡ int limit)
    ⊎ ((n : ℤ) × (v ≡ int n) × (pos 1 ≤ℤ n) × (n ≤ℤ limit))
    ⊎ ((v ≡ bool true) × (pos 1 ≤ℤ limit))

pub clamp-IsAllowed : (v : Json) (limit : ℤ) → IsAllowed limit (clamp v limit)
unfolding clamp
clamp-IsAllowed null limit = inl refl
clamp-IsAllowed (bool true) limit = elim (Bool-cases (ltb_ℤ limit (pos 1))) [
  | inl e ↦ inl (rw e refl)
  | inr e ↦ inr (inr (rw e (refl, ground arith)))
]
clamp-IsAllowed (bool false) limit = inl refl
clamp-IsAllowed (int n) limit = elim (Bool-cases (ltb_ℤ (pos 0) n && ltb_ℤ n limit)) [
  | inl e ↦ inr (inl (n, rw e refl, ground arith, ground arith))
  | inr e ↦ inl (rw e refl)
]
clamp-IsAllowed (float m k) limit = inl refl
clamp-IsAllowed nonfinite limit = inl refl
clamp-IsAllowed (str s) limit = inl refl
clamp-IsAllowed (arr xs) limit = inl refl
clamp-IsAllowed (obj fs) limit = inl refl

-- A field that is not put is as before.
pub get-put_ne :
    (k j : String) (v : Json) (fs : Fields) → str_eq k j ≡ false → get j (put k v fs) ≡ get j fs
get-put_ne k j v fs e = get-put k j v fs ∙ rw e refl

pub get-with_usage :
    (j : String) (v : Json) (body : Fields)
    → str_eq "stream_options" j ≡ false
    → get j (with_usage v body) ≡ get j body
unfolding with_usage
get-with_usage j null body e =
    get-put_ne "stream_options" j (obj (field "include_usage" (bool true) end)) body e
get-with_usage j (obj options) body e = elim (Bool-cases (has_field "include_usage" options)) [
  | inl h ↦ rw h refl
  | inr h ↦
      rw h (get-put_ne "stream_options" j (obj (put "include_usage" (bool true) options)) body e)
]
get-with_usage j (bool b) body e = refl
get-with_usage j (int n) body e = refl
get-with_usage j (float m k) body e = refl
get-with_usage j nonfinite body e = refl
get-with_usage j (str s) body e = refl
get-with_usage j (arr xs) body e = refl

abbrev pub with_include_usage : Option Json → Option Json
with_include_usage none = some (obj (field "include_usage" (bool true) end))
with_include_usage (some null) = some (obj (field "include_usage" (bool true) end))
with_include_usage (some (obj options)) =
    if has_field "include_usage" options
    then some (obj options)
    else some (obj (put "include_usage" (bool true) options))
with_include_usage (some v) = some v

abbrev or_none : Option Json → Json
or_none none = null
or_none (some v) = v

pub get_or_none-or_none : (k : String) (fs : Fields) → get_or_none k fs ≡ or_none (get k fs)
unfolding get_or_none
get_or_none-or_none k fs = elim (Option-cases (get k fs)) [
  | inl e ↦ rw (e, get_or_none) refl
  | inr (v, e) ↦ rw (e, get_or_none) refl
]

pub same_value :
    (k : String) (fs gs : Fields) → get k fs ≡ get k gs → get_or_none k fs ≡ get_or_none k gs
same_value k fs gs h = rw (get_or_none-or_none k fs, get_or_none-or_none k gs, h) refl

pub options-with_usage :
    (o : Option Json) (body : Fields)
    → get "stream_options" body ≡ o
    → get "stream_options" (with_usage (or_none o) body) ≡ with_include_usage o
unfolding with_usage
options-with_usage none body h =
    get-put "stream_options" "stream_options" (obj (field "include_usage" (bool true) end)) body
options-with_usage (some null) body h =
    get-put "stream_options" "stream_options" (obj (field "include_usage" (bool true) end)) body
options-with_usage (some (obj options)) body h =
    elim (Bool-cases (has_field "include_usage" options)) [
      | inl e ↦ rw e h
      | inr e ↦ rw e (
          get-put "stream_options" "stream_options" (obj (put "include_usage" (bool true) options))
            body)
    ]
options-with_usage (some (bool b)) body h = h
options-with_usage (some (int n)) body h = h
options-with_usage (some (float m k)) body h = h
options-with_usage (some nonfinite) body h = h
options-with_usage (some (str t)) body h = h
options-with_usage (some (arr xs)) body h = h
