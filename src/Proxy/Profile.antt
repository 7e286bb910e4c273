-- ===== src/Proxy/Profile.antt =====
-- `ProviderProfile`, `ProfileRegistry`, `DEFAULT_PROFILES` and `load_upstream_key` of
-- wevibe_bench/adapters/openrouter_proxy.py.
use Prim.Native.Char.{code}
use wevibe_bench.Prelude.{
  ◌==◌, Bool, true, false, not, ◌&&◌, Option, none, some, List, [], ◌∷◌, String, str_eq,
  if◌then◌else◌, Result, ok, raise,
}
use wevibe_bench.Prelude.Int.{ℤ, pos}
use wevibe_bench.Prelude.Text.{strip, is_truthy}
use wevibe_bench.Prelude.Json.{
  Json, bool, int, float, str, arr, obj, Fields, end, field, nil, cons, get, get_or_none,
}
use wevibe_bench.Prelude.Dict.{lookup, string_eq}
use wevibe_bench.Proxy.Errors.{ProxyError, credential_error, unknown_model, missing_key}

-- `upstream` names one of the three providers.
pub record ProviderProfile (W : Type 0) : Type 0 where
  pub name : String
  pub model_id : String
  pub provider_object : Option Fields
  pub pricing : Option (List (String × W))
  pub max_output_tokens : ℤ
  pub max_reasoning_tokens : ℤ
  pub upstream : String
  pub authorized : Bool
  pub pin_constraints : Option Fields
  pub expected_upstream_model : Option String
  pub expected_upstream_key_fp : Option String

abbrev pub is_none {ℓ} : {A : Type ℓ} → Option A → Bool
is_none none = true
is_none (some _) = false

unfoldable pub runnable_reason : {W : Type 0} → ProviderProfile W → Option String
runnable_reason p =
    if str_eq p.upstream "openrouter" && is_none p.provider_object
    then some "provider_pin_missing"
    else if is_none p.pricing
    then some "pricing_missing"
    else if not p.authorized
    then some "not_authorized"
    else none

-- what is left of a text behind a prefix that it has
unfoldable pub strip_prefix : String → String → Option String
strip_prefix String.[] s = some s
strip_prefix (String.◌∷◌ c p) String.[] = none
strip_prefix (String.◌∷◌ c p) (String.◌∷◌ d s) = if code c == code d then strip_prefix p s else none

-- `s.removeprefix(p)`
unfoldable pub remove_prefix : String → String → String
unfolding strip_prefix
remove_prefix p s = elim (strip_prefix p s) [ none ↦ s | some rest ↦ rest ]

unfoldable pub normalize_model_selector : String → String
unfolding remove_prefix
normalize_model_selector sel = remove_prefix "openrouter/" sel

-- `load_upstream_key`, of the value that the file decodes to, if it exists and can be read
unfoldable pub key_of_entry : Option Json → Result ProxyError String
unfolding get_or_none strip
key_of_entry (some (obj entry)) = elim (get_or_none "key" entry) [
  | str key ↦
      if is_truthy (strip key)
      then ok (strip key)
      else raise (credential_error "key must be non-empty")
  | _ ↦ raise (credential_error "key must be non-empty")
]
key_of_entry _ = raise (credential_error "missing object")

unfoldable pub load_upstream_key : String → (auth : Option Json) → Result ProxyError String
unfolding strip get key_of_entry
load_upstream_key provider_id auth =
    let provider = strip provider_id in
    if not (is_truthy provider)
    then raise (credential_error "upstream provider id must be non-empty")
    else elim auth [
      | some (obj entries) ↦ key_of_entry (get provider entries)
      | some _ ↦ raise (credential_error "invalid object")
      | none ↦ raise (credential_error "not found or not readable")
    ]

-- `ProfileRegistry`: the profiles by name
abbrev pub ProfileRegistry : Type 0 → Type 0
ProfileRegistry W = List (String × ProviderProfile W)

abbrev constraints : (quantizations prices : Json) (notes : String) → Option Fields
constraints quantizations prices notes = some (
    field "min_max_completion_tokens" (int (pos 32768)) (
      field "uptime_tier" (str "Normal") (
        field "quant_preference" quantizations
          (field "price_sanity_per_m" prices (field "notes" (str notes) end)))))

abbrev prices_per_m : (price_in price_out : Json) → Json
prices_per_m price_in price_out = obj (field "in" price_in (field "out" price_out end))

abbrev fp8 : Json
fp8 = arr (cons (str "fp8") nil)

abbrev resolve_live : String
resolve_live = "Resolve live; prefer xiaomi or atlascloud fp8 endpoints."

module _ {W : Type 0} where
  unfoldable pub first_with_model : String → ProfileRegistry W → Option (ProviderProfile W)
  first_with_model id [] = none
  first_with_model id ((name, p) ∷ rest) =
      if str_eq p.model_id id then some p else first_with_model id rest

  unfoldable pub resolve_by_model :
      ProfileRegistry W → String → Result ProxyError (ProviderProfile W)
  unfolding normalize_model_selector first_with_model
  resolve_by_model profiles selector =
      elim (first_with_model (normalize_model_selector selector) profiles) [
        | none ↦ raise unknown_model
        | some p ↦ ok p
      ]

  unfoldable pub get_profile : ProfileRegistry W → String → Result ProxyError (ProviderProfile W)
  unfolding lookup
  get_profile profiles name = elim (lookup name profiles) [
    | none ↦ raise (missing_key name)
    | some p ↦ ok p
  ]

  -- `DEFAULT_PROFILES`
  abbrev profile : (name model_id : String) → ProviderProfile W
  profile name model_id = record {
    name = name;
    model_id = model_id;
    provider_object = none;
    pricing = none;
    max_output_tokens = pos 32768;
    max_reasoning_tokens = pos 8192;
    upstream = "openrouter";
    authorized = false;
    pin_constraints = none;
    expected_upstream_model = none;
    expected_upstream_key_fp = none;
  }

  -- a profile behind orcarouter, which names the model that has to answer
  abbrev routed : (name model_id answers : String) → ProviderProfile W
  routed name model_id answers = record (profile name model_id) {
    upstream = "orcarouter";
    expected_upstream_model = some answers;
  }

  -- A price is the double nearest to the decimal number that the source writes.
  unfoldable pub default_profiles : ProfileRegistry W
  default_profiles =
      ("glm", routed "glm" "z-ai/glm-5.2" "glm-5.2")
      ∷ (
        "mimo",
        record (profile "mimo" "xiaomi/mimo-v2.5-pro") {
          pin_constraints =
              constraints fp8
                (prices_per_m (float (pos 7836263351624663) 54) (float (pos 7836263351624663) 53))
                resolve_live;
        },
      )
      ∷ (
        "mimo25",
        record (profile "mimo25" "xiaomi/mimo-v2.5") {
          pin_constraints =
              constraints fp8
                (prices_per_m (float (pos 7566047373982433) 56) (float (pos 1261007895663739) 52))
                resolve_live;
        },
      )
      ∷ ("hy3", routed "hy3" "tencent/hy3" "hy3-preview")
      ∷ ("kimicode", routed "kimicode" "kimi/kimi-k2.7-code" "kimi-k2.7-code")
      ∷ ("kimik3", routed "kimik3" "kimi/kimi-k3" "kimi-k3")
      ∷ ("minimax", routed "minimax" "minimax/minimax-m3" "minimax-m3")
      ∷ (
        "ring",
        record (profile "ring" "inclusionai/ring-2.6-1t") {
          pin_constraints =
              constraints (arr (cons (str "any") nil))
                (prices_per_m (float (pos 5404319552844595) 56) (float (pos 5) 3))
                "Floor-anchor probe candidate; quantization unconfirmed, any Normal-tier endpoint.";
        },
      )
      ∷ (
        "opus",
        record (profile "opus" "anthropic/claude-opus-4.8") {
          provider_object = some (
              field "order" (arr (cons (str "anthropic") nil)) (
                field "only" (arr (cons (str "anthropic") nil)) (
                  field "allow_fallbacks" (bool false)
                    (field "require_parameters" (bool true) end))));
        },
      )
      ∷ (
        "bigpickle",
        record (profile "bigpickle" "opencode/big-pickle") {
          upstream = "opencode";
          expected_upstream_model = some "big-pickle";
          expected_upstream_key_fp = some "b5ce6e5e";
        },
      )
      ∷ []
