-- ===== src/Proxy/Policy/Total.antt =====
-- Requests for a profile that may run.
use wevibe_bench.Prelude.{
  ◌≡◌, refl, ap, ◌∙◌, inl, inr, false, none, some, [], ◌∷◌, String, str_eq, eq_iff, eq_refl,
  Result-cases, ok, ok-inj, arith, Bool-cases, Option-cases,
}
use wevibe_bench.Prelude.Int.{ℤ}
use wevibe_bench.Prelude.Json.{str, Fields, get_default, has_field}
use wevibe_bench.Proxy.Profile.{
  ProviderProfile, ProfileRegistry, runnable_reason, normalize_model_selector, first_with_model,
  resolve_by_model,
}
use wevibe_bench.Proxy.Policy.{route, clamp_max_tokens, report_usage, apply_policy}

module _ {W : Type 0} where
  first_with_model_sound :
      (id : String) (profiles : ProfileRegistry W) (p : ProviderProfile W)
      → first_with_model id profiles ≡ some p
      → p.model_id ≡ id
  unfolding first_with_model
  first_with_model_sound id [] p h = absurd (cc)
  first_with_model_sound id ((name, q) ∷ rest) p h = elim (Bool-cases (str_eq q.model_id id)) [
    | inl e ↦ ground (arith, eq_iff q.model_id id)
    | inr e ↦ first_with_model_sound id rest p (rw e at h)
  ]

  resolve_by_model_sound :
      (profiles : ProfileRegistry W) (selector : String) (p : ProviderProfile W)
      → resolve_by_model profiles selector ≡ ok p
      → p.model_id ≡ normalize_model_selector selector
  unfolding resolve_by_model
  resolve_by_model_sound profiles selector p h =
      let id = normalize_model_selector selector in
      elim (Option-cases (first_with_model id profiles)) [
        | inl e ↦ absurd (cc (rw (e, resolve_by_model) at h))
        | inr (q, e) ↦
            first_with_model_sound id profiles p
              (e ∙ ap some (ok-inj q p (rw (e, resolve_by_model) at h)))
      ]

  route_runnable :
      (p : ProviderProfile W) (client : Fields)
      → runnable_reason p ≡ none
      → (body : Fields) × (route p client ≡ ok body)
  unfolding route runnable_reason
  route_runnable p client h = elim (Result-cases (route p client)) [
    | inl passes ↦ passes
    | inr (e, raised) ↦ absurd (ground arith)
  ]

  -- A profile that the registry resolves a selector to, and that may run, lets each request pass that
  -- bears the selector as its model and names no provider: a body is sent.
  pub resolved_request_passes :
      (profiles : ProfileRegistry W) (selector : String) (p : ProviderProfile W) (client : Fields)
      (limit : ℤ)
      → resolve_by_model profiles selector ≡ ok p
      → runnable_reason p ≡ none
      → get_default "model" (str "") client ≡ str selector
      → has_field "provider" client ≡ false
      → (body : Fields) × (apply_policy client p limit ≡ ok body)
  unfolding apply_policy
  resolved_request_passes profiles selector p client limit resolved runs named free =
      let same = resolve_by_model_sound profiles selector p resolved in
      let (routed, sent) = route_runnable p client runs in
      (
        report_usage p (clamp_max_tokens limit routed),
        rw (free, named, ← same, eq_refl p.model_id, sent) refl,
      )
