-- ===== src/Proxy/Cost.antt =====
-- The estimates of costs of wevibe_bench/adapters/openrouter_proxy.py: `worst_case_usd`,
-- `derived_cost_breakdown_usd` and `derived_cost_usd`.
pub mod Laws
use wevibe_bench.Prelude.{
  ℕ, Bool, Option, none, some, List, [], ◌∷◌, String, if◌then◌else◌, Result, ok, raise, ◌>>=◌,
}
use wevibe_bench.Prelude.Int.{ℤ, pos, ◌+ℤ◌, ◌-ℤ◌, ltb_ℤ}
use wevibe_bench.Prelude.Json.{Json, int, float, nonfinite, truncate}
use wevibe_bench.Prelude.Dict.{lookup, string_eq}
use wevibe_bench.Proxy.Errors.{ProxyError, profile_blocked, missing_key, bad_value, missing_pricing}
use wevibe_bench.Proxy.Double.{Double, max_of, min_of, to_float}
use wevibe_bench.Proxy.Profile.{ProviderProfile}

-- `max(0, n)` and `min(m, n)`
abbrev pub at_least_zero : ℤ → ℤ
at_least_zero n = if ltb_ℤ (pos 0) n then n else pos 0

abbrev pub min_ℤ : ℤ → ℤ → ℤ
min_ℤ m n = if ltb_ℤ n m then n else m

-- `_as_int`
unfoldable pub as_int : Json → Result ProxyError ℤ
unfolding truncate
as_int (int n) = ok n
as_int (float m k) = ok (truncate m k)
as_int nonfinite = raise bad_value
as_int _ = ok (pos 0)

-- the prompt tokens that are read from the cache, written to it, and neither
pub record PromptTokens : Type 0 where
  pub cached : ℤ
  pub cache_write : ℤ
  pub uncached_input : ℤ

unfoldable pub split_prompt : (prompt cached cache_write : ℤ) → PromptTokens
split_prompt prompt cached cache_write =
    let read = min_ℤ prompt cached in
    let uncached = at_least_zero (prompt -ℤ read) in
    let written = min_ℤ uncached cache_write in
    record {
      cached = read;
      cache_write = written;
      uncached_input = at_least_zero (uncached -ℤ written);
    }

module _ {W : Type 0} (fl : Double W) where
  -- `pricing[key]` and `pricing.get(key, default)`
  unfoldable pub price : String → List (String × W) → Result ProxyError W
  unfolding lookup
  price key pricing = elim (lookup key pricing) [ none ↦ raise (missing_key key) | some x ↦ ok x ]

  unfoldable pub price_or : W → String → List (String × W) → W
  unfolding lookup
  price_or x key pricing = elim (lookup key pricing) [ none ↦ x | some y ↦ y ]

  abbrev million : W
  million = fl.literal 1_000_000 0

  -- `FEE_RATE`, `RESERVATION_SAFETY_FACTOR` and `FLAT_FEE_USD`
  abbrev with_fees : W → W
  with_fees subtotal =
      fl.add
        (fl.mul (fl.mul subtotal (fl.add (fl.literal 1 0) (fl.literal 6 2))) (fl.literal 110 2))
        (fl.literal 1 3)

  unfoldable pub worst_case_usd :
      (input_tokens_ub : ℤ)
      → ProviderProfile W
      → (max_tokens_cap cached_input_tokens_ub : ℤ) → Result ProxyError W
  unfolding price price_or to_float
  worst_case_usd input_tokens_ub p max_tokens_cap cached_input_tokens_ub = elim p.pricing [
    | none ↦ raise (profile_blocked "pricing_missing")
    | some pricing ↦ do
      input_price ← price "input" pricing
      let fresh_price = max_of fl input_price (price_or input_price "cache_write" pricing)
      let cached_price = min_of fl (price_or fresh_price "cache_read" pricing) fresh_price
      let cached_tokens = at_least_zero (min_ℤ cached_input_tokens_ub input_tokens_ub)
      cached ← to_float fl (int cached_tokens)
      fresh ← to_float fl (int (input_tokens_ub -ℤ cached_tokens))
      window ← to_float fl (int (max_tokens_cap +ℤ p.max_reasoning_tokens))
      output_price ← price "output" pricing
      let cost_in = fl.div (fl.add (fl.mul cached cached_price) (fl.mul fresh fresh_price)) million
      let cost_out = fl.div (fl.mul window output_price) million
      ok (with_fees (fl.add cost_in cost_out))
  ]

  pub record CostBreakdown : Type 0 where
    pub total_usd : W
    pub uncached_input_usd : W
    pub cache_read_usd : W
    pub cache_write_usd : W
    pub output_usd : W
    pub uncached_input_tokens : W
    pub cached_prompt_tokens : W
    pub cache_write_prompt_tokens : W
    pub completion_tokens : W
    pub input_rate_per_1m : W
    pub cache_read_rate_per_1m : W
    pub cache_write_rate_per_1m : W
    pub output_rate_per_1m : W

  abbrev cost : (tokens rate : W) → W
  cost tokens rate = fl.div (fl.mul tokens rate) million

  -- the result, of the token counts and the rates
  unfoldable pub breakdown :
      (uncached cached written completion : W) → (a b c d : W) → CostBreakdown
  breakdown uncached cached written completion input_rate read_rate write_rate output_rate =
      record {
        total_usd =
            fl.add
              (fl.add (fl.add (cost uncached input_rate) (cost cached read_rate))
                (cost written write_rate))
              (cost completion output_rate);
        uncached_input_usd = cost uncached input_rate;
        cache_read_usd = cost cached read_rate;
        cache_write_usd = cost written write_rate;
        output_usd = cost completion output_rate;
        uncached_input_tokens = uncached;
        cached_prompt_tokens = cached;
        cache_write_prompt_tokens = written;
        completion_tokens = completion;
        input_rate_per_1m = input_rate;
        cache_read_rate_per_1m = read_rate;
        cache_write_rate_per_1m = write_rate;
        output_rate_per_1m = output_rate;
      }

  unfoldable pub derived_cost_breakdown_usd :
      (prompt_tokens cached_tokens completion_tokens cache_write_tokens : Json)
      → List (String × W)
      → Result ProxyError CostBreakdown
  unfolding as_int split_prompt price price_or to_float breakdown
  derived_cost_breakdown_usd _ _ _ _ [] = raise missing_pricing
  derived_cost_breakdown_usd prompt_tokens cached_tokens completion_tokens cache_write_tokens
        (entry ∷ entries) =
      do
        let pricing = entry ∷ entries
        prompt_n ← as_int prompt_tokens
        cached_n ← as_int cached_tokens
        completion_n ← as_int completion_tokens
        cache_write_n ← as_int cache_write_tokens
        input_rate ← price "input" pricing
        let read_rate = price_or input_rate "cache_read" pricing
        let write_rate = price_or input_rate "cache_write" pricing
        output_rate ← price "output" pricing
        let tokens =
            split_prompt (at_least_zero prompt_n) (at_least_zero cached_n)
              (at_least_zero cache_write_n)
        uncached ← to_float fl (int tokens.uncached_input)
        cached ← to_float fl (int tokens.cached)
        written ← to_float fl (int tokens.cache_write)
        completion ← to_float fl (int (at_least_zero completion_n))
        ok (
            breakdown uncached cached written completion input_rate read_rate write_rate
              output_rate)

  unfoldable pub derived_cost_usd :
      (prompt_tokens cached_tokens completion_tokens cache_write_tokens : Json)
      → List (String × W)
      → Result ProxyError W
  unfolding derived_cost_breakdown_usd
  derived_cost_usd prompt_tokens cached_tokens completion_tokens cache_write_tokens pricing = do
    b ←
        derived_cost_breakdown_usd prompt_tokens cached_tokens completion_tokens cache_write_tokens
          pricing
    ok b.total_usd
