-- ===== src/Proxy/Policy/Laws.antt =====
-- What a body looks like that `apply_policy` lets pass.
use wevibe_bench.Prelude.{
  ◌≡◌, refl, ◌∙◌, inl, inr, Bool, true, false, not, ◌&&◌, Option, none, some, String, if◌then◌else◌,
  str_eq, eq_iff, ok, raise_if, >>=-eq-ok, ok-inj, arith, Bool-cases, Option-cases, ◌||◌,
}
use wevibe_bench.Prelude.Int.{ℤ}
use wevibe_bench.Prelude.Json.{
  Json, null, bool, int, float, nonfinite, str, arr, obj, Fields, get, get_default, get_or_none,
  has_field, get-put, truth,
}
use wevibe_bench.Proxy.Errors.{ProxyError, protected_field, model_mismatch}
use wevibe_bench.Proxy.Profile.{ProviderProfile, normalize_model_selector, remove_prefix}
use wevibe_bench.Proxy.Policy.{as_text, clamp, route, clamp_max_tokens, report_usage, apply_policy}
use wevibe_bench.Proxy.Policy.Shaping.{
  IsAllowed, clamp-IsAllowed, get-put_ne, get-with_usage, with_include_usage, get_or_none-or_none,
  same_value, options-with_usage,
}

module _ {W : Type 0} (p : ProviderProfile W) where
  get-report_usage :
      (j : String) (body : Fields)
      → str_eq "stream_options" j ≡ false
      → get j (report_usage p body) ≡ get j body
  unfolding report_usage
  get-report_usage j body e =
      elim (Bool-cases (str_eq p.upstream "orcarouter" && truth (get_or_none "stream" body))) [
        | inl h ↦ rw h (get-with_usage j (get_or_none "stream_options" body) body e)
        | inr h ↦ rw h refl
      ]

  -- The fields that the proxy sets.
  abbrev pub is_shaped : String → Bool
  is_shaped j =
      str_eq "provider" j
      || (str_eq "model" j || (str_eq "max_tokens" j || str_eq "stream_options" j))

  get-route :
      (j : String) (client body : Fields)
      → str_eq "provider" j ≡ false
      → str_eq "model" j ≡ false
      → route p client ≡ ok body
      → get j body ≡ get j client
  unfolding route
  get-route j client body e1 e2 h = elim (Bool-cases (str_eq p.upstream "openrouter")) [
    | inl o ↦ elim (Option-cases p.provider_object) [
      | inl unpinned ↦ absurd (cc (rw (o, unpinned) at h))
      | inr (provider, pinned) ↦
          rw (← ok-inj _ _ (rw (o, pinned) at h)) (get-put_ne "provider" j (obj provider) client e1)
    ]
    | inr o ↦ elim (Bool-cases (str_eq p.upstream "opencode")) [
      | inl z ↦
          rw (← ok-inj _ _ (rw (o, z) at h))
            (get-put_ne "model" j (str (remove_prefix "opencode/" p.model_id)) client e2)
      | inr z ↦ rw (← ok-inj _ _ (rw (o, z) at h)) refl
    ]
  ]

  -- The model that is sent: for opencode the bare model id of the profile, else the client's selector.
  abbrev pub sent_model : Fields → Option Json
  unfolding remove_prefix
  sent_model client =
      if str_eq p.upstream "opencode"
      then some (str (remove_prefix "opencode/" p.model_id))
      else get "model" client

  -- The stream options that are sent: those of the client, with `include_usage` added where an
  -- orcarouter request streams and they are missing or a dict without it.
  abbrev pub sent_options : Fields → Option Json
  sent_options client =
      if str_eq p.upstream "orcarouter" && truth (get_or_none "stream" client)
      then with_include_usage (get "stream_options" client)
      else get "stream_options" client

  -- A body that passes: for openrouter it bears the profile's provider; its model and its stream
  -- options are as above; its tokens are within the limit; and each other field is the client's.
  pub record IsShaped (limit : ℤ) (client body : Fields) : Type 0 where
    pub unprotected : get "provider" client ≡ none
    pub selected :
        (s : String) × (get_default "model" (str "") client ≡ str s)
        × (normalize_model_selector s ≡ p.model_id)
    pub tokens : (v : Json) × (get "max_tokens" body ≡ some v) × IsAllowed limit v
    pub pinned :
        p.upstream ≡ "openrouter"
        → (provider : Fields) × (p.provider_object ≡ some provider)
          × (get "provider" body ≡ some (obj provider))
    pub model_sent : get "model" body ≡ sent_model client
    pub options_sent : get "stream_options" body ≡ sent_options client
    pub others : (j : String) → is_shaped j ≡ false → get j body ≡ get j client

  route-pinned :
      (client body : Fields)
      → route p client ≡ ok body
      → p.upstream ≡ "openrouter"
      → (provider : Fields) × (p.provider_object ≡ some provider)
        × (get "provider" body ≡ some (obj provider))
  unfolding route
  route-pinned client body h u =
      let o : str_eq p.upstream "openrouter" ≡ true = (eq_iff p.upstream "openrouter").1 u in
      elim (Option-cases p.provider_object) [
        | inl unpinned ↦ absurd (cc (rw (o, unpinned) at h))
        | inr (provider, pinned) ↦ (
          provider,
          pinned,
          rw (← ok-inj _ _ (rw (o, pinned) at h))
              (get-put "provider" "provider" (obj provider) client),
        )
      ]

  route-model :
      (client body : Fields) → route p client ≡ ok body → get "model" body ≡ sent_model client
  unfolding route
  route-model client body h = elim (Bool-cases (str_eq p.upstream "openrouter")) [
    | inl o ↦
        let z : str_eq p.upstream "opencode" ≡ false =
          rw ((eq_iff p.upstream "openrouter").0 o) refl in
        elim (Option-cases p.provider_object) [
          | inl unpinned ↦ absurd (cc (rw (o, unpinned) at h))
          | inr (provider, pinned) ↦
              rw (← ok-inj _ _ (rw (o, pinned) at h), z)
                (get-put_ne "provider" "model" (obj provider) client refl)
        ]
    | inr o ↦ elim (Bool-cases (str_eq p.upstream "opencode")) [
      | inl z ↦
          rw (← ok-inj _ _ (rw (o, z) at h), z)
            (get-put "model" "model" (str (remove_prefix "opencode/" p.model_id)) client)
      | inr z ↦ rw (← ok-inj _ _ (rw (o, z) at h), z) refl
    ]
  ]

  -- The stream options of the body, where it has the client's `stream` and `stream_options`.
  report_usage-options :
      (client body : Fields)
      → get "stream" body ≡ get "stream" client
      → get "stream_options" body ≡ get "stream_options" client
      → get "stream_options" (report_usage p body) ≡ sent_options client
  unfolding report_usage get_or_none
  report_usage-options client body same_stream same_options =
      let streams = same_value "stream" body client same_stream in
      elim (Bool-cases (str_eq p.upstream "orcarouter" && truth (get_or_none "stream" client))) [
        | inl e ↦
            rw (streams, e, get_or_none-or_none "stream_options" body, ← same_options)
              (options-with_usage (get "stream_options" body) body refl)
        | inr e ↦ rw (streams, e) same_options
      ]

  get-clamped :
      (limit : ℤ) (j : String) (body : Fields)
      → str_eq "max_tokens" j ≡ false
      → get j (clamp_max_tokens limit body) ≡ get j body
  unfolding clamp_max_tokens
  get-clamped limit j body e =
      get-put_ne "max_tokens" j (clamp (get_or_none "max_tokens" body) limit) body e

  get-shaped :
      (limit : ℤ) (j : String) (body : Fields)
      → str_eq "max_tokens" j ≡ false
      → str_eq "stream_options" j ≡ false
      → get j (report_usage p (clamp_max_tokens limit body)) ≡ get j body
  get-shaped limit j body e1 e2 =
      get-report_usage j (clamp_max_tokens limit body) e2 ∙ get-clamped limit j body e1

  -- Of two tests that fail together, each fails.
  or_false : (a b : Bool) → (a || b) ≡ false → (a ≡ false) × (b ≡ false)
  or_false true b h = absurd (cc)
  or_false false b h = (refl, h)

  raise_if-false : (b : Bool) (e : ProxyError) {u : Unit {0}} → raise_if b e ≡ ok u → b ≡ false
  raise_if-false true e h = cc
  raise_if-false false e h = refl

  as_text-str : (v : Json) {s : String} → as_text v ≡ ok s → v ≡ str s
  as_text-str (str s) h = cc
  as_text-str null h = cc
  as_text-str (bool b) h = cc
  as_text-str (int n) h = cc
  as_text-str (float m k) h = cc
  as_text-str nonfinite h = cc
  as_text-str (arr xs) h = cc
  as_text-str (obj fs) h = cc

  absent : (j : String) (fs : Fields) → has_field j fs ≡ false → get j fs ≡ none
  unfolding has_field
  absent j fs h = elim (Option-cases (get j fs)) [
    | inl e ↦ e
    | inr (v, e) ↦ absurd (cc (rw (e, has_field) at h))
  ]

  -- what the steps behind the checks make of the body
  IsShaped-fields :
      (limit : ℤ) (client routed : Fields)
      → has_field "provider" client ≡ false
      → (s : String) → get_default "model" (str "") client ≡ str s
      → normalize_model_selector s ≡ p.model_id
      → route p client ≡ ok routed
      → IsShaped limit client (report_usage p (clamp_max_tokens limit routed))
  IsShaped-fields limit client routed free s selected same sent = record {
    unprotected = absent "provider" client free;
    selected = (s, selected, same);
    tokens = (
      clamp (get_or_none "max_tokens" routed) limit,
      get-report_usage "max_tokens" (clamp_max_tokens limit routed) refl
          ∙ unfold clamp_max_tokens in
            get-put "max_tokens" "max_tokens" (clamp (get_or_none "max_tokens" routed) limit)
              routed,
      clamp-IsAllowed (get_or_none "max_tokens" routed) limit,
    );
    pinned = λ u.
        let (provider, has, there) = route-pinned client routed sent u in
        (provider, has, get-shaped limit "provider" routed refl refl ∙ there);
    model_sent = get-shaped limit "model" routed refl refl ∙ route-model client routed sent;
    options_sent =
        report_usage-options client (clamp_max_tokens limit routed)
          (get-clamped limit "stream" routed refl ∙ get-route "stream" client routed refl refl sent)
          (get-clamped limit "stream_options" routed refl
            ∙ get-route "stream_options" client routed refl refl sent);
    others = λ j e.
        let (e1, r1) = or_false (str_eq "provider" j) _ e in
        let (e2, r2) = or_false (str_eq "model" j) _ r1 in
        let (e3, e4) = or_false (str_eq "max_tokens" j) (str_eq "stream_options" j) r2 in
        get-shaped limit j routed e3 e4 ∙ get-route j client routed e1 e2 sent;
  }

  -- If a body passes, the client named no provider and the model of the profile. Then the body of an
  -- openrouter profile bears the pinned provider, and that of an opencode profile the bare model
  -- id; the model of another profile is the client's. `max_tokens` is within the limit;
  -- `stream_options` are the client's, with `include_usage` added where an orcarouter request
  -- streams and they are missing or a dict without it; and each other field is the client's.
  pub apply_policy-IsShaped :
      (client : Fields) (limit : ℤ) (body : Fields)
      → apply_policy client p limit ≡ ok body
      → IsShaped limit client body
  unfolding apply_policy
  apply_policy-IsShaped client limit body h =
      let guarded = raise_if (has_field "provider" client) (protected_field "provider") in
      let (u, free, h1) = >>=-eq-ok guarded _ h in
      let (s, selected, h2) = >>=-eq-ok (as_text (get_default "model" (str "") client)) _ h1 in
      let differs = not (str_eq (normalize_model_selector s) p.model_id) in
      let (v, same, h3) = >>=-eq-ok (raise_if differs model_mismatch) _ h2 in
      let (routed, sent, h4) = >>=-eq-ok (route p client) _ h3 in
      let same' = raise_if-false differs model_mismatch same in
      rw (← ok-inj _ _ h4) (
        IsShaped-fields limit client routed
          (raise_if-false (has_field "provider" client) (protected_field "provider") free) s
          (as_text-str (get_default "model" (str "") client) selected)
          ((eq_iff (normalize_model_selector s) p.model_id).0 (ground arith)) sent)
