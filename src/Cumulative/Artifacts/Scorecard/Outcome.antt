-- ===== src/Cumulative/Artifacts/Scorecard/Outcome.antt =====
-- What `build_scorecard` says of a cell: scored, not scored, or void.
use wevibe_bench.Prelude.{
  ◌+◌, ◌-◌, ◌≡◌, ◌≢◌, refl, ap, subst, sym, ◌∙◌, Bool, true, false, not, ◌&&◌, Option, none, some,
  List, [], ◌∷◌, ok, ◌>>=◌, >>=-eq-ok, if◌then◌else◌, All, arith, Bool-cases, Option-cases, inl,
  inr, length, count_if, String,
}
use wevibe_bench.Prelude.Int.{ℤ, eqb_ℤ}
use wevibe_bench.Prelude.Json.{Fields, Builtins, get_or_none}
use wevibe_bench.Prelude.Dict.{int_eq, lookup}
use wevibe_bench.Cumulative.Convergence.{
  ScoredSession, build_convergence_trend, from_session_record, point,
}
use wevibe_bench.Cumulative.Convergence.Laws.{count_if-le, scored, build_convergence_trend_counts}
use wevibe_bench.Cumulative.Artifacts.{RunManifest}
use wevibe_bench.Cumulative.Artifacts.Scorecard.{
  Scorecard, Exclusion, is_unverified_delivery, is_terminal_candidate, terminal_full_green,
  truncation_signal, has_key, file_records, void_cells, scored_sessions, scored_session, exclusions,
  index_of, is_scored, session_full_green, assemble, scorecard_of, text_or_empty,
}
use wevibe_bench.Cumulative.Artifacts.Scorecard.Laws.{
  last_at, find, void_of, scored_of, Indexed, file_records-lookup, file_records-Indexed,
  file_records-IsDict, void_cells-lookup, scored_sessions-find,
}

abbrev pub is_there : {A : Type 0} → Option A → Bool
is_there none = false
is_there (some a) = true

module _ (py : Builtins) where
  -- the record of a cell's last attempt, and whether its delivery was unverified
  abbrev pub terminal_record : ℤ → List Fields → Option Fields
  terminal_record = last_at py (is_terminal_candidate py)

  abbrev pub is_undelivered : ℤ → List Fields → Bool
  is_undelivered k stream = is_there (last_at py (is_unverified_delivery py) k stream)

  -- the session that a stream lets be scored for an index
  abbrev pub expected_session : ℤ → List Fields → Option ScoredSession
  expected_session k stream =
      scored_of py
        (not (is_undelivered k stream) && not (is_there (void_of py (terminal_record k stream)))) k
        (terminal_record k stream)

  -- What the builder computes on the way.
  record Parts (m : RunManifest) (stream : List Fields) (c : Scorecard py) : Type 0 where
    pub delivery : List (ℤ × Fields)
    pub best : List (ℤ × Fields)
    pub void : List (ℤ × Fields)
    pub filed_delivery : file_records py (is_unverified_delivery py) [] stream ≡ ok delivery
    pub filed_best : file_records py (is_terminal_candidate py) [] stream ≡ ok best
    pub voided : void_cells py best ≡ ok void
    pub kept : scored_sessions py delivery void best ≡ ok c.scored
    pub listed :
        exclusions py (λ d. text_or_empty py (get_or_none "not_scored_reason" d)) delivery
        ≡ ok c.not_scored
    pub listed_void : exclusions py (λ d. "provider_truncation") void ≡ ok c.void_instrument
    pub passed : c.scored_pass ≡ count_if (session_full_green py) c.scored
    pub failed : c.scored_fail ≡ length c.scored - count_if (session_full_green py) c.scored
    pub trended : c.convergence ≡ build_convergence_trend py c.scored

  scorecard_of-Parts :
      (m : RunManifest) (stream : List Fields) {c : Scorecard py}
      → scorecard_of py m stream ≡ ok c
      → Parts m stream c
  unfolding scorecard_of assemble
  scorecard_of-Parts m stream {c} h =
      let (delivery, e1, h1) =
        >>=-eq-ok (file_records py (is_unverified_delivery py) [] stream) _ h in
      let (best, e2, h2) = >>=-eq-ok (file_records py (is_terminal_candidate py) [] stream) _ h1 in
      let (void, e3, h3) = >>=-eq-ok (void_cells py best) _ h2 in
      let (kept, e4, h4) = >>=-eq-ok (scored_sessions py delivery void best) _ h3 in
      let (n, e5, h5) =
        >>=-eq-ok
          (exclusions py (λ d. text_or_empty py (get_or_none "not_scored_reason" d)) delivery) _
          h4 in
      let (v, e6, h6) = >>=-eq-ok (exclusions py (λ d. "provider_truncation") void) _ h5 in
      subst (Parts m stream) {x = assemble py m stream kept n v} {y = c} (cc h6) (record {
        delivery = delivery;
        best = best;
        void = void;
        filed_delivery = e1;
        filed_best = e2;
        voided = e3;
        kept = e4;
        listed = e5;
        listed_void = e6;
        passed = refl;
        failed = refl;
        trended = refl;
      })

  undelivered_key :
      (k : ℤ) (stream : List Fields) {cells : List (ℤ × Fields)}
      → file_records py (is_unverified_delivery py) [] stream ≡ ok cells
      → lookup k cells ≡ last_at py (is_unverified_delivery py) k stream
  unfolding lookup
  undelivered_key k stream h =
      ground (arith, file_records-lookup py (is_unverified_delivery py) k [] stream h)

  void_lookup :
      (k : ℤ) (stream : List Fields) {best void : List (ℤ × Fields)}
      → file_records py (is_terminal_candidate py) [] stream ≡ ok best
      → void_cells py best ≡ ok void
      → lookup k void ≡ void_of py (terminal_record k stream)
  unfolding lookup
  void_lookup k stream {best} {void} h v = ground (
    arith,
    void_cells-lookup py k best (file_records-IsDict py (is_terminal_candidate py) stream h) v,
    file_records-lookup py (is_terminal_candidate py) k [] stream h,
  )

  has_key-lookup :
      (k : ℤ) (cells : List (ℤ × Fields)) → has_key py k cells ≡ is_there (lookup k cells)
  has_key-lookup k cells = elim (Option-cases (lookup k cells)) [
    | inl e ↦ rw (e, has_key)
    | inr (d, e) ↦ rw (e, has_key)
  ]

  -- The scored session of every index is the one that the stream lets be scored: the session of
  -- the last attempt with progress, unless a delivery for the index was unverified or that
  -- attempt is void.
  pub scorecard_of-find :
      (m : RunManifest) (stream : List Fields) {c : Scorecard py}
      → scorecard_of py m stream ≡ ok c
      → (k : ℤ) → find py k c.scored ≡ expected_session k stream
  scorecard_of-find m stream {c} h k =
      let p = scorecard_of-Parts m stream h in
      let best : lookup k p.best ≡ terminal_record k stream =
        unfold lookup in
        ground
          (arith, file_records-lookup py (is_terminal_candidate py) k [] stream p.filed_best) in
      let found =
        scored_sessions-find py (is_terminal_candidate py) p.delivery p.void k p.best
          (file_records-Indexed py (is_terminal_candidate py) stream p.filed_best) p.kept in
      let admitted : is_scored py p.delivery p.void k ≡ (
          not (is_undelivered k stream) && not (is_there (void_of py (terminal_record k stream)))) =
        unfold is_scored in
        rw (
          has_key-lookup k p.delivery,
          has_key-lookup k p.void,
          undelivered_key k stream p.filed_delivery,
          void_lookup k stream p.filed_best p.voided,
        ) in
      rw (← admitted, ← best) found

  -- Whether a list of exclusions names an index.
  abbrev pub names : ℤ → List (Exclusion py) → Bool
  names k [] = false
  names k (x ∷ rest) = if eqb_ℤ x.sequence_index k then true else names k rest

  exclusions-names :
      (reason : Fields → String) (k : ℤ) (cells : List (ℤ × Fields)) {out : List (Exclusion py)}
      → All (λ p. index_of py p.1 ≡ ok p.0) cells
      → exclusions py reason cells ≡ ok out
      → names k out ≡ is_there (lookup k cells)
  unfolding exclusions lookup
  exclusions-names reason k [] i h = cc
  exclusions-names reason k ((j, d) ∷ cells) {out} i h =
      let (seq, e, h1) = >>=-eq-ok (index_of py d) _ h in
      let (others, f, h2) = >>=-eq-ok (exclusions py reason cells) _ h1 in
      ground (arith, i.0, e, h2, exclusions-names reason k cells i.1 f)

  Indexed-indices :
      (wanted : Fields → Bool) (cells : List (ℤ × Fields))
      → Indexed py wanted cells
      → All (λ p. index_of py p.1 ≡ ok p.0) cells
  Indexed-indices wanted [] i = tt
  Indexed-indices wanted (p ∷ cells) i = (i.0.0, Indexed-indices wanted cells i.1)

  void_cells-indices :
      (cells : List (ℤ × Fields)) {void : List (ℤ × Fields)}
      → All (λ p. index_of py p.1 ≡ ok p.0) cells
      → void_cells py cells ≡ ok void
      → All (λ p. index_of py p.1 ≡ ok p.0) void
  unfolding void_cells
  void_cells-indices [] i h = subst (All (λ p. index_of py p.1 ≡ ok p.0)) {x = []} (cc h) tt
  void_cells-indices ((j, d) ∷ cells) {void} i h = elim (Bool-cases (terminal_full_green d)) [
    | inl green ↦ void_cells-indices cells i.1 (rw (green, void_cells) at h)
    | inr red ↦
        let (signal, e, h1) =
          >>=-eq-ok (truncation_signal py d)
            (λ signal.
              void_cells py cells >>= λ others. ok (if signal then (j, d) ∷ others else others))
            (rw (red, void_cells) at h) in
        let (others, f, h2) =
          >>=-eq-ok (void_cells py cells)
            (λ others. ok (if signal then (j, d) ∷ others else others)) h1 in
        void_kept signal j d others (cc h2) i.0 (void_cells-indices cells i.1 f)
  ]
    where
      void_kept :
          (signal : Bool) (j : ℤ) (d : Fields) (others : List (ℤ × Fields))
          {void : List (ℤ × Fields)}
          → (if signal then (j, d) ∷ others else others) ≡ void
          → index_of py d ≡ ok j
          → All (λ p. index_of py p.1 ≡ ok p.0) others
          → All (λ p. index_of py p.1 ≡ ok p.0) void
      void_kept true j d others e x h = subst (All (λ p. index_of py p.1 ≡ ok p.0)) e (x, h)
      void_kept false j d others e x h = subst (All (λ p. index_of py p.1 ≡ ok p.0)) e h

  -- An index is reported as not scored exactly if a delivery for it was unverified, and as void
  -- exactly if its last attempt with progress is not green and bears a sign of truncation.
  pub scorecard_of-names :
      (m : RunManifest) (stream : List Fields) {c : Scorecard py}
      → scorecard_of py m stream ≡ ok c
      → (k : ℤ)
      → (names k c.not_scored ≡ is_undelivered k stream)
        × (names k c.void_instrument ≡ is_there (void_of py (terminal_record k stream)))
  scorecard_of-names m stream {c} h k =
      let p = scorecard_of-Parts m stream h in
      let delivered =
        Indexed-indices (is_unverified_delivery py) p.delivery
          (file_records-Indexed py (is_unverified_delivery py) stream p.filed_delivery) in
      let attempted =
        Indexed-indices (is_terminal_candidate py) p.best
          (file_records-Indexed py (is_terminal_candidate py) stream p.filed_best) in
      (
        exclusions-names (λ d. text_or_empty py (get_or_none "not_scored_reason" d)) k p.delivery
              delivered p.listed
            ∙ ap is_there (undelivered_key k stream p.filed_delivery),
        exclusions-names (λ d. "provider_truncation") k p.void
              (void_cells-indices p.best attempted p.voided) p.listed_void
            ∙ ap is_there (void_lookup k stream p.filed_best p.voided),
      )

  scored_sessions-progress :
      (delivery void cells : List (ℤ × Fields)) {sessions : List ScoredSession}
      → Indexed py (is_terminal_candidate py) cells
      → scored_sessions py delivery void cells ≡ ok sessions
      → All (λ s. s.progress ≢ none) sessions
  unfolding scored_sessions
  scored_sessions-progress delivery void [] i h =
      subst (All (λ s. s.progress ≢ none)) {x = []} (cc h) tt
  scored_sessions-progress delivery void ((j, d) ∷ cells) i h =
      let (seq, e, h1) = >>=-eq-ok (index_of py d) _ h in
      let (others, f, h2) = >>=-eq-ok (scored_sessions py delivery void cells) _ h1 in
      kept (is_scored py delivery void seq) seq d others (cc h2) i.0.1
        (scored_sessions-progress delivery void cells i.1 f)
    where
      kept :
          (admitted : Bool) (seq : ℤ) (d : Fields) (others : List ScoredSession)
          {sessions : List ScoredSession}
          → (if admitted then scored_session py seq d ∷ others else others) ≡ sessions
          → is_terminal_candidate py d ≡ true
          → All (λ s. s.progress ≢ none) others
          → All (λ s. s.progress ≢ none) sessions
      kept true seq d others e w h =
          subst (All (λ s. s.progress ≢ none)) e
            (unfold is_terminal_candidate in unfold scored_session in ground arith, h)
      kept false seq d others e w h = subst (All (λ s. s.progress ≢ none)) e h

  -- A scored session has a point of its own in the trend, green if the session is.
  scored_counts :
      (sessions : List ScoredSession)
      → All (λ s. s.progress ≢ none) sessions
      → (length (scored py sessions) ≡ length sessions)
        × (count_if (λ p. p.full_green) (scored py sessions)
            ≡ count_if (session_full_green py) sessions)
  unfolding from_session_record point session_full_green
  scored_counts [] h = (refl, refl)
  scored_counts (s ∷ rest) h = elim (Option-cases s.progress) [
    | inl e ↦ absurd (h.0 e)
    | inr (p, e) ↦
        let (l, g) = scored_counts rest h.1 in (ground (arith, e, l), ground (arith, e, g))
  ]

  -- The counts of a scorecard and of its trend agree: passes and fails make up the scored
  -- sessions, each has its point in the trend, and the green points are the passes.
  pub scorecard_of_counts :
      (m : RunManifest) (stream : List Fields) {c : Scorecard py}
      → scorecard_of py m stream ≡ ok c
      → (c.scored_pass + c.scored_fail ≡ length c.scored)
        × (c.convergence.sessions_completed ≡ length c.scored)
        × (c.convergence.sessions_green ≡ c.scored_pass)
  scorecard_of_counts m stream {c} h =
      let p = scorecard_of-Parts m stream h in
      let (lengths, greens) = scored_counts c.scored (
        scored_sessions-progress p.delivery p.void p.best
          (file_records-Indexed py (is_terminal_candidate py) stream p.filed_best) p.kept) in
      let (_, _, completed, green, _) = build_convergence_trend_counts py c.scored in
      (
        omega (arith, p.passed, p.failed, count_if-le (session_full_green py) c.scored),
        rw p.trended (completed ∙ lengths),
        rw p.trended (green ∙ greens ∙ sym p.passed),
      )
