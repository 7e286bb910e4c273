-- ===== src/Proxy/Tests/Requests.antt =====
-- A request to a provider that may run, and a payload of prices.
use wevibe_bench.Prelude.{◌≡◌, refl, false, Option, some, List, [], ◌∷◌, String, ok, arith, any}
use wevibe_bench.Prelude.Int.{ℤ, pos, ◌+ℤ◌, ◌-ℤ◌, ◌≤ℤ◌, ltb_ℤ}
use wevibe_bench.Prelude.Json.{
  int, float, str, arr, obj, nil, cons, Fields, end, field, get_default, has_field,
}
use wevibe_bench.Proxy.Profile.{
  ProfileRegistry, resolve_by_model, default_profiles, runnable_reason, is_none,
}
use wevibe_bench.Proxy.Policy.{apply_policy}
use wevibe_bench.Proxy.Policy.Laws.{IsShaped, apply_policy-IsShaped}
use wevibe_bench.Proxy.Policy.Total.{resolved_request_passes}
use wevibe_bench.Proxy.Cost.{split_prompt}
use wevibe_bench.Proxy.Cost.Laws.{split_prompt_lem}
use wevibe_bench.Proxy.Pricing.{verify_orcarouter_pricing_gate}
use wevibe_bench.Proxy.Pricing.Laws.{IsTrusted, verify_orcarouter_pricing_gate_sound}
use wevibe_bench.Proxy.Tests.Data.{micros, micros-Compares, opus, client, toy_py}

abbrev body : Fields
body =
    field "model" (str "openrouter/anthropic/opus") (
      field "max_tokens" (int (pos 32768))
        (field "provider" (obj (field "only" (arr nil) end)) end))

sends : apply_policy client opus (pos 32768) ≡ ok body
unfolding apply_policy
sends = refl

apply_policy-IsShaped_example : IsShaped opus (pos 32768) client body
apply_policy-IsShaped_example = apply_policy-IsShaped opus client (pos 32768) body sends

abbrev registry : ProfileRegistry ℤ
registry = ("opus", opus) ∷ []

resolved_request_passes_example : (b : Fields) × (apply_policy client opus (pos 32768) ≡ ok b)
unfolding resolve_by_model runnable_reason get_default has_field
resolved_request_passes_example =
    resolved_request_passes registry "openrouter/anthropic/opus" opus client (pos 32768) refl refl
      refl refl

split_prompt_lem_example :
    let t = split_prompt (pos 100) (pos 70) (pos 50) in
    ((t.cached +ℤ t.cache_write) +ℤ t.uncached_input ≡ pos 100)
    × (pos 0 ≤ℤ t.cached)
    × (pos 0 ≤ℤ t.cache_write)
    × (pos 0 ≤ℤ t.uncached_input)
    × (t.cached ≤ℤ pos 70)
    × (t.cache_write ≤ℤ pos 50)
split_prompt_lem_example =
    split_prompt_lem (pos 100) (pos 70) (pos 50) (omega arith) (omega arith) (omega arith)

-- The anchor model costs 0.15 in and four times as much out; the other one 2, 8 and 1.
abbrev payload : Fields
payload = field "pricing_version" (str "c58e194db3f6a20e7d41b8c9e2f05a17") (
    field "data"
      (arr (
        cons
          (obj (
            field "model_name" (str "openai/gpt-4o-mini") (
              field "model_ratio" (float (pos 5404319552844595) 56)
                (field "completion_ratio" (int (pos 4)) end))))
          (cons
            (obj (
              field "model_name" (str "z-ai/glm-5.2") (
                field "model_ratio" (int (pos 1)) (
                  field "completion_ratio" (int (pos 4))
                    (field "cache_ratio" (float (pos 1) 1) end)))))
            nil)))
      end)

abbrev expected : Option (List (String × ℤ))
expected =
    some (("input", pos 2_000_000) ∷ ("output", pos 8_000_000) ∷ ("cache_read", pos 1_000_000) ∷ [])

passes :
    verify_orcarouter_pricing_gate micros toy_py (obj payload) (some "z-ai/glm-5.2") expected
    ≡ ok tt
unfolding verify_orcarouter_pricing_gate ◌-ℤ◌
passes = refl

verify_orcarouter_pricing_gate_sound_example :
    IsTrusted micros toy_py payload (some "z-ai/glm-5.2") expected
verify_orcarouter_pricing_gate_sound_example =
    verify_orcarouter_pricing_gate_sound micros micros-Compares toy_py payload (some "z-ai/glm-5.2")
      expected passes

-- No default profile may run before it is priced and authorized, and each leaves 24576 tokens
-- beside its reasoning.
none_may_run : any (λ q. is_none (runnable_reason q.1)) (default_profiles {W = ℤ}) ≡ false
unfolding default_profiles runnable_reason
none_may_run = refl

room_to_answer :
    any
      (λ q. ltb_ℤ q.1.max_output_tokens (q.1.max_reasoning_tokens +ℤ pos 24576))
      (default_profiles {W = ℤ})
    ≡ false
unfolding default_profiles ◌+ℤ◌
room_to_answer = refl
