-- ===== src/Proxy/Server/Handler.antt =====
-- `ProxyServer._handle_post` of wevibe_bench/adapters/openrouter_proxy_server.py: what a request
-- makes of the server, and the status and code that it is answered with.
use Prim.Native.Char.{code}
use wevibe_bench.Prelude.{
  ℕ, ltb, ◌==◌, Bool, true, false, not, ◌&&◌, Option, none, some, List, [], ◌∷◌, String, str_eq,
  if◌then◌else◌, Result, ok, raise, ◌>>=◌,
}
use wevibe_bench.Prelude.Int.{ℤ, pos, ◌+ℤ◌, eqb_ℤ}
use wevibe_bench.Prelude.Text.{strip, is_truthy}
use wevibe_bench.Prelude.Json.{Json, obj, Fields, get_or_none, truth}
use wevibe_bench.Proxy.Errors.{
  ProxyError, protected_field, model_mismatch, profile_blocked, budget_exceeded, unknown_model,
}
use wevibe_bench.Proxy.Double.{Double}
use wevibe_bench.Proxy.Profile.{ProviderProfile, ProfileRegistry, get_profile, runnable_reason}
use wevibe_bench.Proxy.Policy.{apply_policy, input_token_upper_bound}
use wevibe_bench.Proxy.Cost.{worst_case_usd}
use wevibe_bench.Proxy.Ledger.{Weather}
use wevibe_bench.Proxy.Ledger.Calls.{reserve}
use wevibe_bench.Proxy.Server.{
  Server, UsageEvidence, no_usage, usage_evidence, check_answer, cached_input_ub, retain,
  Settlement, unreserved, retained, finalize_reservation,
}

-- the two parts of a text around its first space
unfoldable pub split_space : String → Option (String × String)
split_space String.[] = none
split_space (String.◌∷◌ c s) =
    let rest = split_space s in
    if code c == 32
    then some (String.[], s)
    else elim rest [ none ↦ none | some (a, b) ↦ some (String.◌∷◌ c a, b) ]

-- `_parse_bearer_token`; `lower` is `str.lower`
unfoldable pub parse_bearer_token : (lower : String → String) → String → String
unfolding strip split_space
parse_bearer_token lower header = elim (split_space (strip header)) [
  | none ↦ ""
  | some (scheme, token) ↦ if str_eq (lower (strip scheme)) "bearer" then strip token else ""
]

abbrev pub is_ascii : String → Bool
is_ascii String.[] = true
is_ascii (String.◌∷◌ c s) = ltb (code c) 128 && is_ascii s

-- What the body of a request is: without a usable length, no JSON document, or a value.
pub data RequestBody : Type 0 where
  bad_length not_json_body : RequestBody
  decoded : Json → RequestBody

pub record HttpRequest : Type 0 where
  pub path : String
  pub authorization : String
  pub body : RequestBody
  pub trace_id : String

-- An answer of the upstream: the JSON objects that its lines bear, as far as it sends lines, and the
-- object that a body without lines decodes to.
pub record UpstreamResponse : Type 0 where
  pub status : ℕ
  pub lines : List (Option Fields)
  pub body : Fields

-- What a request meets: the answer of the upstream (`none` if the call raises), the file system at
-- each call of the ledger, and whether the answer to the client and the lines of the log that stand
-- before or in the settlement fail. The line on a wrong model is taken not to fail.
pub record Course : Type 0 where
  pub upstream : Option UpstreamResponse
  pub reserving_at : Weather
  pub settling_at : Weather
  pub retaining_at : Weather
  pub failing_at : Weather
  pub relay_log_fails : Bool
  pub settle_log_fails : Bool
  pub answer_fails : Bool

pub record Config (W : Type 0) : Type 0 where
  pub registry : ProfileRegistry W
  pub profile_name : String
  pub run_token : String
  pub max_tokens_cap : ℤ
  pub lower : String → String
  pub compact : Json → String

pub record Reply : Type 0 where
  pub status : ℕ
  pub code : String
  pub settled : Settlement

abbrev pub refuse : (status : ℕ) (reason : String) → Reply
refuse status reason = record { status = status; code = reason; settled = unreserved }

abbrev pub upstream_failure : Settlement → Reply
upstream_failure settled = record { status = 502; code = "upstream_failure"; settled = settled }

module _ {W : Type 0} (fl : Double W) where
  -- the `except Exception` of a reserved request
  unfoldable pub fail_reserved : Course → String → Server W → Reply × Server W
  unfolding retain
  fail_reserved course id s =
      let (result, s') = retain fl course.failing_at id s in
      (upstream_failure (elim result [ ok _ ↦ retained | raise e ↦ unreserved ]), s')

  -- what the answers of a stream have told so far
  abbrev pub newer : ℤ → ℤ → ℤ
  newer old n = if eqb_ℤ n (pos 0) then old else n

  abbrev pub merge : UsageEvidence W → UsageEvidence W → UsageEvidence W
  merge seen ev = record {
    completion_tokens = newer seen.completion_tokens ev.completion_tokens;
    reasoning_tokens = newer seen.reasoning_tokens ev.reasoning_tokens;
    cost = elim ev.cost [ none ↦ seen.cost | some x ↦ some x ];
    prompt_tokens = newer seen.prompt_tokens ev.prompt_tokens;
    cached_tokens = newer seen.cached_tokens ev.cached_tokens;
    cache_write_tokens = pos 0;
  }

  -- The lines of a stream, up to the first whose usage cannot be read.
  unfoldable pub relay :
      ProviderProfile W
      → List (Option Fields)
      → UsageEvidence W
      → Server W
      → UsageEvidence W × Server W
  unfolding check_answer usage_evidence get_or_none
  relay p [] seen s = (seen, s)
  relay p (none ∷ lines) seen s = relay p lines seen s
  relay p (some answer ∷ lines) seen s =
      let s' = check_answer p answer s in
      elim (usage_evidence fl (get_or_none "usage" answer)) [
        | raise e ↦ (seen, s')
        | ok ev ↦ relay p lines (merge seen ev) s'
      ]

  -- the settlement of a forwarded request, and the answer
  unfoldable pub settle :
      Course
      → String
      → ProviderProfile W
      → UsageEvidence W
      → (billed_input_ub : ℤ) → (status : ℕ) → (answer_fails : Bool) → Server W
      → Reply × Server W
  unfolding finalize_reservation fail_reserved
  settle course id p usage billed status answer_fails s =
      let (result, s') =
        finalize_reservation fl course.settling_at course.retaining_at course.settle_log_fails id
          usage.cost p usage billed s in
      elim result [
        | raise e ↦ fail_reserved course id s'
        | ok settled ↦
            if answer_fails
            then (upstream_failure settled, s')
            else (record { status = status; code = ""; settled = settled }, s')
      ]

  -- a reserved request, from the call of the upstream on
  unfoldable pub forward :
      Course
      → String
      → ProviderProfile W
      → (stream : Bool) → (billed_input_ub : ℤ) → Server W
      → Reply × Server W
  unfolding relay settle fail_reserved check_answer usage_evidence get_or_none
  forward course id p stream billed s = elim course.upstream [
    | none ↦ fail_reserved course id s
    | some response ↦
        if stream
        then (let (seen, s') = relay p response.lines no_usage s in
            if course.relay_log_fails
            then fail_reserved course id s'
            else settle course id p seen billed response.status false s')
        else (let s' = check_answer p response.body s in
            elim (usage_evidence fl (get_or_none "usage" response.body)) [
              | raise e ↦ fail_reserved course id s'
              | ok ev ↦ settle course id p ev billed response.status course.answer_fails s'
            ])
  ]

  -- the reply to an exception of `apply_policy`
  abbrev pub policy_reply : ProxyError → Reply
  policy_reply (protected_field reason) = refuse 400 reason
  policy_reply model_mismatch = refuse 400 "model_mismatch"
  policy_reply unknown_model = refuse 400 "unknown_model"
  policy_reply (profile_blocked reason) = refuse 403 reason
  policy_reply _ = upstream_failure unreserved

  -- the bounds of a request, from its input on
  unfoldable pub bound :
      Config W → ProviderProfile W → Fields → Server W → Result ProxyError (ℤ × W)
  unfolding input_token_upper_bound cached_input_ub worst_case_usd
  bound config p transformed s = do
    n ← input_token_upper_bound config.compact transformed
    amount ← worst_case_usd fl (pos n) p config.max_tokens_cap (cached_input_ub (pos n) s)
    ok (pos n, amount)

  -- a request that policy has shaped
  unfoldable pub admit :
      Config W → Course → String → ProviderProfile W → Fields → Server W → Reply × Server W
  unfolding bound reserve forward get_or_none truth
  admit config course id p transformed s = elim (bound config p transformed s) [
    | raise e ↦ (upstream_failure unreserved, s)
    | ok (n, amount) ↦
        let (result, b) = reserve fl course.reserving_at id amount s.books in
        let s' = record s { books = b } in
        elim result [
          | raise budget_exceeded ↦ (refuse 402 "budget_exceeded", s')
          | raise _ ↦ (upstream_failure unreserved, s')
          | ok _ ↦ forward course id p (truth (get_or_none "stream" transformed)) n s'
        ]
  ]

  -- a request with a JSON object, which has its number by now
  unfoldable pub shape : Config W → Course → String → Fields → Server W → Reply × Server W
  unfolding get_profile runnable_reason apply_policy admit
  shape config course id client_body s = elim (get_profile config.registry config.profile_name) [
    | raise e ↦ (upstream_failure unreserved, s)
    | ok p ↦ elim s.identity_mismatch [
      | some first ↦ (refuse 503 "identity_mismatch", s)
      | none ↦ elim (runnable_reason p) [
        | some reason ↦ (refuse 403 reason, s)
        | none ↦ elim (apply_policy client_body p config.max_tokens_cap) [
          | raise e ↦ (policy_reply e, s)
          | ok transformed ↦ admit config course id p transformed s
        ]
      ]
    ]
  ]

  abbrev pub number : Server W → Server W
  number s = record s { ordinal = s.ordinal +ℤ pos 1 }

  unfoldable pub parse_body : Config W → Course → String → RequestBody → Server W → Reply × Server W
  unfolding shape ◌+ℤ◌
  parse_body config course id (decoded (obj client_body)) s =
      shape config course id client_body (number s)
  parse_body config course id _ s = (refuse 400 "bad_json", s)

  -- `_handle_post`. `secrets.compare_digest` raises for a text that is not ASCII.
  unfoldable pub handle_post : Config W → Course → HttpRequest → Server W → Reply × Server W
  unfolding parse_bearer_token parse_body
  handle_post config course request s =
      let token = parse_bearer_token config.lower request.authorization in
      if not (str_eq request.path "/api/v1/chat/completions")
      then (refuse 404 "not_found", s)
      else if not (is_truthy token)
      then (refuse 401 "invalid_api_key", s)
      else if not (is_ascii token && is_ascii config.run_token)
      then (upstream_failure unreserved, s)
      else if not (str_eq token config.run_token)
      then (refuse 401 "invalid_api_key", s)
      else parse_body config course request.trace_id request.body s
