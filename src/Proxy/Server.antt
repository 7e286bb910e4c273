-- ===== src/Proxy/Server.antt =====
-- The settlement of a forwarded request: `_usage_evidence`, `_check_upstream_identity` and
-- `_finalize_reservation` of wevibe_bench/adapters/openrouter_proxy_server.py.
pub mod Handler
pub mod Settling
pub mod Entry
pub mod Holds
pub mod Identity
use wevibe_bench.Prelude.{
  Bool, true, false, not, ◌&&◌, ◌||◌, Option, none, some, List, [], ◌∷◌, String, str_eq,
  if◌then◌else◌, Result, ok, raise, ◌>>=◌,
}
use wevibe_bench.Prelude.Int.{ℤ, pos, ltb_ℤ, eqb_ℤ}
use wevibe_bench.Prelude.Text.{strip, is_truthy}
use wevibe_bench.Prelude.Json.{
  Json, null, bool, int, float, nonfinite, str, arr, obj, Fields, end, get_or_none,
}
use wevibe_bench.Prelude.Dict.{lookup, string_eq}
use wevibe_bench.Proxy.Errors.{ProxyError}
use wevibe_bench.Proxy.Double.{Double, to_float}
use wevibe_bench.Proxy.Profile.{ProviderProfile, is_none}
use wevibe_bench.Proxy.Cost.{as_int, derived_cost_breakdown_usd, min_ℤ}
use wevibe_bench.Proxy.Pricing.{is_number}
use wevibe_bench.Proxy.Ledger.{Books, Weather}
use wevibe_bench.Proxy.Ledger.Calls.{settle_actual, settle_derived, retain_unproven}

-- What a proxy keeps between requests: the ledger, the number of requests so far, the longest input
-- that is known to be billed, and the first wrong model that the upstream has named.
pub record Server (W : Type 0) : Type 0 where
  pub books : Books W
  pub ordinal : ℤ
  pub proven_billed_input_ub : ℤ
  pub identity_mismatch : Option String

pub record UsageEvidence (W : Type 0) : Type 0 where
  pub completion_tokens : ℤ
  pub reasoning_tokens : ℤ
  pub cost : Option W
  pub prompt_tokens : ℤ
  pub cached_tokens : ℤ
  pub cache_write_tokens : ℤ

abbrev pub no_usage : {W : Type 0} → UsageEvidence W
no_usage = record {
  completion_tokens = pos 0;
  reasoning_tokens = pos 0;
  cost = none;
  prompt_tokens = pos 0;
  cached_tokens = pos 0;
  cache_write_tokens = pos 0;
}

-- a count in an optional dict of details
unfoldable pub detail : String → Json → Result ProxyError ℤ
unfolding as_int get_or_none
detail key (obj details) = as_int (get_or_none key details)
detail key _ = ok (pos 0)

-- `_record_proven_billed_input_ub`
unfoldable pub record_billed : {W : Type 0} → ℤ → Server W → Server W
record_billed n s =
    if ltb_ℤ s.proven_billed_input_ub n then record s { proven_billed_input_ub = n } else s

-- `_cached_input_ub`
unfoldable pub cached_input_ub : {W : Type 0} → ℤ → Server W → ℤ
cached_input_ub n s = min_ℤ n s.proven_billed_input_ub

-- `_check_upstream_identity`, for a model that an answer names: the first mismatch stays.
unfoldable pub check_upstream_identity :
    {W : Type 0} → ProviderProfile W → String → Server W → Server W
unfolding strip
check_upstream_identity p model s = elim p.expected_upstream_model [
  | none ↦ s
  | some expected ↦
      let observed = strip model in
      if not (is_truthy expected) || not (is_truthy observed) || str_eq observed expected
      then s
      else elim s.identity_mismatch [
        | none ↦ record s { identity_mismatch = some observed }
        | some first ↦ s
      ]
]

-- the model that an answer names, if it is a text
unfoldable pub check_answer : {W : Type 0} → ProviderProfile W → Fields → Server W → Server W
unfolding check_upstream_identity get_or_none
check_answer p answer s = elim (get_or_none "model" answer) [
  | str model ↦ check_upstream_identity p model s
  | _ ↦ s
]

pub data Settlement : Type 0 where
  unreserved actual_cost derived_cost retained : Settlement

module _ {W : Type 0} (fl : Double W) where
  -- `_as_float_or_none`
  unfoldable pub float_or_none : Json → Result ProxyError (Option W)
  unfolding to_float
  float_or_none v = if is_number v then (do x ← to_float fl v; ok (some x)) else ok none

  unfoldable pub usage_evidence : Json → Result ProxyError (UsageEvidence W)
  unfolding as_int get_or_none detail float_or_none
  usage_evidence (obj usage) = do
    completion ← as_int (get_or_none "completion_tokens" usage)
    reasoning ← detail "reasoning_tokens" (get_or_none "completion_tokens_details" usage)
    prompt ← as_int (get_or_none "prompt_tokens" usage)
    cached ← detail "cached_tokens" (get_or_none "prompt_tokens_details" usage)
    written ← detail "cache_write_tokens" (get_or_none "prompt_tokens_details" usage)
    cost ← float_or_none (get_or_none "cost" usage)
    ok (record {
      completion_tokens = completion;
      reasoning_tokens = reasoning;
      cost = cost;
      prompt_tokens = prompt;
      cached_tokens = cached;
      cache_write_tokens = written;
    })
  usage_evidence _ = ok no_usage

  -- the prices that a derived settlement asks for
  unfoldable pub authorized_pricing : ProviderProfile W → Option (List (String × W))
  unfolding lookup
  authorized_pricing p = elim p.pricing [
    | none ↦ none
    | some pricing ↦
        if p.authorized
          && not (is_none (lookup "input" pricing))
          && not (is_none (lookup "output" pricing))
          && not (is_none (lookup "cache_read" pricing))
        then some pricing
        else none
  ]

  -- what the usage of a request costs at these prices; `none` where it cannot be derived
  unfoldable pub derived_total : ProviderProfile W → UsageEvidence W → Option W
  unfolding authorized_pricing derived_cost_breakdown_usd
  derived_total p usage =
      if ltb_ℤ (pos 0) usage.prompt_tokens || ltb_ℤ (pos 0) usage.completion_tokens
      then elim (authorized_pricing p) [
        | none ↦ none
        | some pricing ↦
            elim (derived_cost_breakdown_usd fl (int usage.prompt_tokens) (int usage.cached_tokens)
              (int usage.completion_tokens) (int usage.cache_write_tokens) pricing) [
                | ok b ↦ some b.total_usd
                | raise e ↦ none
              ]
      ]
      else none

  -- `retain_unproven`, on the server
  unfoldable pub retain : Weather → String → Server W → Result ProxyError (Unit {0}) × Server W
  unfolding retain_unproven
  retain weather id s =
      let (result, b) = retain_unproven fl weather id s.books in (result, record s { books = b })

  -- the last two lines of `_finalize_reservation`
  unfoldable pub finalize_retained :
      Weather → String → Server W → Result ProxyError Settlement × Server W
  unfolding retain
  finalize_retained weather id s =
      let (result, s') = retain weather id s in
      (elim result [ ok _ ↦ ok retained | raise e ↦ raise e ], s')

  -- the `try` of `_finalize_reservation`; the line of the log may fail
  unfoldable pub finalize_derived :
      (settling retaining : Weather)
      → (log_fails : Bool) → String
      → W
      → (billed_input_ub : ℤ) → Server W
      → Result ProxyError Settlement × Server W
  unfolding settle_derived finalize_retained record_billed
  finalize_derived settling retaining log_fails id cost billed s =
      let (result, b) = settle_derived fl settling id cost s.books in
      let s' = record s { books = b } in
      elim result [
        | raise e ↦ finalize_retained retaining id s'
        | ok _ ↦
            if log_fails
            then finalize_retained retaining id s'
            else (ok derived_cost, record_billed billed s')
      ]

  -- `_finalize_reservation` of a reserved request
  unfoldable pub finalize_reservation :
      (settling retaining : Weather)
      → (log_fails : Bool) → String
      → Option W
      → ProviderProfile W
      → UsageEvidence W
      → (billed_input_ub : ℤ) → Server W
      → Result ProxyError Settlement × Server W
  unfolding settle_actual record_billed derived_total finalize_derived finalize_retained
  finalize_reservation settling retaining log_fails id (some cost) p usage billed s =
      let (result, b) = settle_actual fl settling id cost s.books in
      let s' = record s { books = b } in
      elim result [ ok _ ↦ (ok actual_cost, record_billed billed s') | raise e ↦ (raise e, s') ]
  finalize_reservation settling retaining log_fails id none p usage billed s =
      elim (derived_total p usage) [
        | some cost ↦ finalize_derived settling retaining log_fails id cost billed s
        | none ↦ finalize_retained retaining id s
      ]
