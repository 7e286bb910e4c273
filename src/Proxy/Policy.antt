-- ===== src/Proxy/Policy.antt =====
-- `apply_policy` and `input_token_upper_bound` of wevibe_bench/adapters/openrouter_proxy.py.
pub mod Shaping
pub mod Laws
pub mod Total
use Prim.Native.Char.{code}
use Prim.Native.String.{◌++◌ as append}
use wevibe_bench.Prelude.{
  ℕ, ◌+◌, ◌*◌, ltb, Bool, true, false, not, ◌&&◌, none, some, String, str_eq, if◌then◌else◌, Result,
  ok, raise, raise_if, ◌>>=◌, ◌>>◌, length,
}
use wevibe_bench.Prelude.Int.{ℤ, pos, negsuc, ltb_ℤ}
use wevibe_bench.Prelude.Json.{
  Json, null, bool, int, str, arr, obj, nil, Fields, end, field, get, get_default, get_or_none,
  has_field, put, truth, to_list,
}
use wevibe_bench.Proxy.Errors.{
  ProxyError, protected_field, model_mismatch, profile_blocked, bad_value,
}
use wevibe_bench.Proxy.Profile.{ProviderProfile, normalize_model_selector, remove_prefix}

-- `str.startswith`, which only a text has
abbrev pub as_text : Json → Result ProxyError String
as_text (str s) = ok s
as_text _ = raise bad_value

-- `min(value, limit)` for an `int` or a `bool` above 0, and the limit for any other value
unfoldable pub clamp : Json → ℤ → Json
clamp (int n) limit = if ltb_ℤ (pos 0) n && ltb_ℤ n limit then int n else int limit
clamp (bool true) limit = if ltb_ℤ limit (pos 1) then int limit else bool true
clamp _ limit = int limit

unfoldable pub clamp_max_tokens : ℤ → Fields → Fields
unfolding put get_or_none clamp
clamp_max_tokens limit body = put "max_tokens" (clamp (get_or_none "max_tokens" body) limit) body

-- `stream_options` with `include_usage`, for its value in the body
unfoldable pub with_usage : Json → Fields → Fields
unfolding put has_field
with_usage null body = put "stream_options" (obj (field "include_usage" (bool true) end)) body
with_usage (obj options) body =
    if has_field "include_usage" options
    then body
    else put "stream_options" (obj (put "include_usage" (bool true) options)) body
with_usage _ body = body

module _ {W : Type 0} where
  -- the body behind the branches on the upstream
  unfoldable pub route : ProviderProfile W → Fields → Result ProxyError Fields
  unfolding put remove_prefix
  route p body =
      if str_eq p.upstream "openrouter"
      then elim p.provider_object [
        | none ↦ raise (profile_blocked "provider_pin_missing")
        | some provider ↦ ok (put "provider" (obj provider) body)
      ]
      else if str_eq p.upstream "opencode"
      then ok (put "model" (str (remove_prefix "opencode/" p.model_id)) body)
      else ok body

  unfoldable pub report_usage : ProviderProfile W → Fields → Fields
  unfolding with_usage truth get_or_none
  report_usage p body =
      if str_eq p.upstream "orcarouter" && truth (get_or_none "stream" body)
      then with_usage (get_or_none "stream_options" body) body
      else body

  -- A value of the model shares nothing with another, so that `copy.deepcopy` is the identity.
  unfoldable pub apply_policy : Fields → ProviderProfile W → ℤ → Result ProxyError Fields
  unfolding has_field get_default normalize_model_selector route clamp_max_tokens report_usage
  apply_policy client_body p max_tokens_cap = do
    raise_if (has_field "provider" client_body) (protected_field "provider")
    selector ← as_text (get_default "model" (str "") client_body)
    raise_if (not (str_eq (normalize_model_selector selector) p.model_id)) model_mismatch
    body ← route p client_body
    ok (report_usage p (clamp_max_tokens max_tokens_cap body))

-- The number of bytes of a text in UTF-8.
unfoldable pub utf8_length : String → ℕ
utf8_length String.[] = 0
utf8_length (String.◌∷◌ c s) =
    (if ltb (code c) 0x80
      then 1
      else if ltb (code c) 0x800
      then 2
      else if ltb (code c) 0x10000
      then 3
      else 4)
    + utf8_length s

abbrev pub count_fields : Fields → ℕ
count_fields end = 0
count_fields (field k v fs) = 1 + count_fields fs

abbrev pub count_characters : String → ℕ
count_characters String.[] = 0
count_characters (String.◌∷◌ c s) = 1 + count_characters s

-- `len(value)`
unfoldable pub size_of : Json → Result ProxyError ℕ
size_of (arr items) = ok (length (to_list items))
size_of (obj fs) = ok (count_fields fs)
size_of (str s) = ok (count_characters s)
size_of _ = raise bad_value

abbrev pub per_message_overhead_tokens : ℕ
per_message_overhead_tokens = 16

-- `compact` is `json.dumps` with the separators "," and ":" and without escapes.
unfoldable pub input_token_upper_bound : (compact : Json → String) → Fields → Result ProxyError ℕ
unfolding get_default utf8_length size_of
input_token_upper_bound compact body = do
  let messages = get_default "messages" (arr nil) body
  let raw = append (compact messages) (compact (get_default "tools" (arr nil) body))
  n ← size_of messages
  ok (utf8_length raw + per_message_overhead_tokens * n)
