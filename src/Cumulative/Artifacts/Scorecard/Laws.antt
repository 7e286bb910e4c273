-- ===== src/Cumulative/Artifacts/Scorecard/Laws.antt =====
-- The loops of `build_scorecard` (wevibe_bench/cumulative/run_artifacts.py).
use wevibe_bench.Prelude.{
  ◌≡◌, refl, subst, sym, Bool, true, false, ◌&&◌, Option, none, some, List, [], ◌∷◌, ok, raise,
  ◌>>=◌, >>=-eq-ok, if◌then◌else◌, All, arith, Bool-cases, Option-cases, inl, inr,
}
use wevibe_bench.Prelude.Int.{ℤ, eqb_ℤ, eqb_ℤ_iff}
use wevibe_bench.Prelude.Json.{Json, null, Fields, Builtins, get, get_or_none}
use wevibe_bench.Prelude.Dict.{int_eq, lookup, insert, lookup-insert, IsDict, insert-IsDict}
use wevibe_bench.Cumulative.Records.Codec.Parts.{require, int_value}
use wevibe_bench.Cumulative.Convergence.{ScoredSession}
use wevibe_bench.Cumulative.Artifacts.Scorecard.{
  given_index, file_under, file_records, void_cells, terminal_full_green, truncation_signal,
  is_scored, scored_session, index_of, scored_sessions,
}

module _ (py : Builtins) where
  -- the index of a record, where the program can read one
  abbrev pub index_at : Fields → Option ℤ
  index_at d = elim (given_index py (get_or_none "sequence_index" d)) [
    | ok seq ↦ seq
    | raise e ↦ none
  ]

  abbrev pub is_at : ℤ → Option ℤ → Bool
  is_at k none = false
  is_at k (some seq) = eqb_ℤ seq k

  -- the last of the wanted records with an index
  abbrev pub last_at : (Fields → Bool) → ℤ → List Fields → Option Fields
  last_at wanted k [] = none
  last_at wanted k (d ∷ rest) = elim (last_at wanted k rest) [
    | some e ↦ some e
    | none ↦ if wanted d && is_at k (index_at d) then some d else none
  ]

  abbrev pub or_filed : Option Fields → Option Fields → Option Fields
  or_filed none e = e
  or_filed (some d) e = some d

  file_under-lookup :
      (k : ℤ) (seq : Option ℤ) (d : Fields) (filed : List (ℤ × Fields))
      → lookup k (file_under py seq d filed) ≡ (if is_at k seq then some d else lookup k filed)
  file_under-lookup k none d filed = refl
  file_under-lookup k (some seq) d filed = lookup-insert seq k d filed

  -- One round of the loop.
  data Round (wanted : Fields → Bool) (filed : List (ℤ × Fields)) (d : Fields) (rest : List Fields)
      (cells : List (ℤ × Fields)) : Type 0 where
    passed :
        wanted d ≡ false
        → file_records py wanted filed rest ≡ ok cells
        → Round wanted filed d rest cells
    taken :
        (seq : Option ℤ)
        → wanted d ≡ true
        → given_index py (get_or_none "sequence_index" d) ≡ ok seq
        → file_records py wanted (file_under py seq d filed) rest ≡ ok cells
        → Round wanted filed d rest cells

  file_records-cons :
      (wanted : Fields → Bool) (filed : List (ℤ × Fields)) (d : Fields) (rest : List Fields)
      {cells : List (ℤ × Fields)}
      → file_records py wanted filed (d ∷ rest) ≡ ok cells
      → Round wanted filed d rest cells
  unfolding file_records
  file_records-cons wanted filed d rest {cells} h = elim (Bool-cases (wanted d)) [
    | inl is_wanted ↦
        let h' : (given_index py (get_or_none "sequence_index" d) >>= λ seq.
        file_records py wanted (file_under py seq d filed) rest)
            ≡ ok cells =
          ground (arith, is_wanted) in
        let (seq, e, r) =
          >>=-eq-ok (given_index py (get_or_none "sequence_index" d))
            (λ seq. file_records py wanted (file_under py seq d filed) rest) h' in
        taken seq is_wanted e r
    | inr unwanted ↦ passed unwanted (ground (arith, unwanted))
  ]

  -- What is filed under an index is the last wanted record with that index.
  pub file_records-lookup :
      (wanted : Fields → Bool) (k : ℤ) (filed : List (ℤ × Fields)) (stream : List Fields)
      {cells : List (ℤ × Fields)}
      → file_records py wanted filed stream ≡ ok cells
      → lookup k cells ≡ or_filed (last_at wanted k stream) (lookup k filed)
  unfolding file_records
  file_records-lookup wanted k filed [] h = cc
  file_records-lookup wanted k filed (d ∷ rest) h = elim (file_records-cons wanted filed d rest h) [
    | passed unwanted r ↦ ground (arith, unwanted, file_records-lookup wanted k filed rest r)
    | taken seq is_wanted e r ↦ ground (
      arith,
      is_wanted,
      e,
      file_records-lookup wanted k (file_under py seq d filed) rest r,
      file_under-lookup k seq d filed,
    )
  ]

  -- What each filing keeps holds of the result.
  pub file_records_inv :
      (P : List (ℤ × Fields) → Type 0) (wanted : Fields → Bool)
      → ((d : Fields) (seq : Option ℤ) (filed : List (ℤ × Fields))
          → wanted d ≡ true
          → given_index py (get_or_none "sequence_index" d) ≡ ok seq
          → P filed
          → P (file_under py seq d filed))
      → (filed : List (ℤ × Fields)) (stream : List Fields) {cells : List (ℤ × Fields)}
      → file_records py wanted filed stream ≡ ok cells
      → P filed
      → P cells
  unfolding file_records
  file_records_inv P wanted keep filed [] h p = subst P (cc) p
  file_records_inv P wanted keep filed (d ∷ rest) h p =
      elim (file_records-cons wanted filed d rest h) [
        | passed unwanted r ↦ file_records_inv P wanted keep filed rest r p
        | taken seq is_wanted e r ↦
            file_records_inv P wanted keep (file_under py seq d filed) rest r
              (keep d seq filed is_wanted e p)
      ]

  file_under-IsDict :
      (seq : Option ℤ) (d : Fields) (filed : List (ℤ × Fields))
      → IsDict filed
      → IsDict (file_under py seq d filed)
  file_under-IsDict none d filed h = h
  file_under-IsDict (some seq) d filed h = insert-IsDict seq d filed h

  pub file_records-IsDict :
      (wanted : Fields → Bool) (stream : List Fields) {cells : List (ℤ × Fields)}
      → file_records py wanted [] stream ≡ ok cells
      → IsDict cells
  file_records-IsDict wanted stream h =
      file_records_inv (λ c. IsDict c) wanted (λ d seq filed w e p. file_under-IsDict seq d filed p)
        [] stream h tt

  given_index_value :
      (v : Json) (seq : ℤ) → given_index py v ≡ ok (some seq) → int_value py v ≡ ok seq
  unfolding given_index
  given_index_value null seq g = absurd (cc)
  given_index_value v seq g = ground arith

  given_index-index_of :
      (d : Fields) (seq : ℤ)
      → given_index py (get_or_none "sequence_index" d) ≡ ok (some seq)
      → index_of py d ≡ ok seq
  unfolding get_or_none index_of require
  given_index-index_of d seq h = elim (Option-cases (get "sequence_index" d)) [
    | inl e ↦ absurd (unfold given_index in ground (arith, e))
    | inr (v, e) ↦ ground (arith, e, given_index_value v seq)
  ]

  -- each cell stands under its own index, and has been filtered
  abbrev pub Indexed : (Fields → Bool) → List (ℤ × Fields) → Type 0
  Indexed wanted = All (λ p. (index_of py p.1 ≡ ok p.0) × (wanted p.1 ≡ true))

  insert-Indexed :
      (wanted : Fields → Bool) (k : ℤ) (d : Fields) (filed : List (ℤ × Fields))
      → wanted d ≡ true
      → index_of py d ≡ ok k
      → Indexed wanted filed
      → Indexed wanted (insert k d filed)
  unfolding insert
  insert-Indexed wanted k d [] x e h = ((e, x), tt)
  insert-Indexed wanted k d ((j, w) ∷ filed) x e h = elim (Bool-cases (eqb_ℤ j k)) [
    | inl same ↦ rw same ((cc ((eqb_ℤ_iff j k).0 same), x), h.1)
    | inr other ↦ rw other (h.0, insert-Indexed wanted k d filed x e h.1)
  ]

  file_under-Indexed :
      (wanted : Fields → Bool) (d : Fields) (seq : Option ℤ) (filed : List (ℤ × Fields))
      → wanted d ≡ true
      → given_index py (get_or_none "sequence_index" d) ≡ ok seq
      → Indexed wanted filed
      → Indexed wanted (file_under py seq d filed)
  file_under-Indexed wanted d none filed w e h = h
  file_under-Indexed wanted d (some k) filed w e h =
      insert-Indexed wanted k d filed w (given_index-index_of d k e) h

  pub file_records-Indexed :
      (wanted : Fields → Bool) (stream : List Fields) {cells : List (ℤ × Fields)}
      → file_records py wanted [] stream ≡ ok cells
      → Indexed wanted cells
  file_records-Indexed wanted stream h =
      file_records_inv (Indexed wanted) wanted (file_under-Indexed wanted) [] stream h tt

  -- What the second loop over the cells makes of one cell.
  abbrev pub void_of : Option Fields → Option Fields
  void_of none = none
  void_of (some d) = elim (terminal_full_green d) [
    | true ↦ none
    | false ↦ elim (truncation_signal py d) [ ok true ↦ some d | _ ↦ none ]
  ]

  absent_at :
      (k j : ℤ) (cells : List (ℤ × Fields))
      → lookup j cells ≡ none
      → eqb_ℤ j k ≡ true
      → lookup k cells ≡ none
  absent_at k j cells h e = subst (λ i. lookup i cells ≡ none) ((eqb_ℤ_iff j k).0 e) h

  void_of_red :
      (d : Fields) (signal : Bool)
      → terminal_full_green d ≡ false
      → truncation_signal py d ≡ ok signal
      → void_of (some d) ≡ (if signal then some d else none)
  void_of_red d true red e = rw (red, e, void_of) refl
  void_of_red d false red e = rw (red, e, void_of) refl

  void_red :
      (k j : ℤ) (d : Fields) (cells others : List (ℤ × Fields)) (signal : Bool)
      → terminal_full_green d ≡ false
      → truncation_signal py d ≡ ok signal
      → lookup j cells ≡ none
      → lookup k others ≡ void_of (lookup k cells)
      → lookup k (if signal then (j, d) ∷ others else others) ≡ void_of (lookup k ((j, d) ∷ cells))
  unfolding lookup
  void_red k j d cells others true red e absent ih = ground (arith, void_of_red d true red e, ih)
  void_red k j d cells others false red e absent ih =
      ground (arith, void_of_red d false red e, ih, absent_at k j cells absent)

  pub void_cells-lookup :
      (k : ℤ) (cells : List (ℤ × Fields)) {void : List (ℤ × Fields)}
      → IsDict cells
      → void_cells py cells ≡ ok void
      → lookup k void ≡ void_of (lookup k cells)
  unfolding void_cells lookup
  void_cells-lookup k [] u h = cc
  void_cells-lookup k ((j, d) ∷ cells) {void} u h = elim (Bool-cases (terminal_full_green d)) [
    | inl green ↦ ground (
      arith,
      green,
      void_cells-lookup k cells u.1 (rw (green, void_cells) at h),
      absent_at k j cells u.0,
    )
    | inr red ↦
        let (signal, e, h1) =
          >>=-eq-ok (truncation_signal py d)
            (λ signal.
              void_cells py cells >>= λ others. ok (if signal then (j, d) ∷ others else others))
            (rw (red, void_cells) at h) in
        let (others, f, h2) =
          >>=-eq-ok (void_cells py cells)
            (λ others. ok (if signal then (j, d) ∷ others else others)) h1 in
        subst (λ (v : List (ℤ × Fields)). lookup k v ≡ void_of (lookup k ((j, d) ∷ cells))) (cc h2)
          (void_red k j d cells others signal red e u.0 (void_cells-lookup k cells u.1 f))
  ]

  -- the session of an index
  abbrev pub find : ℤ → List ScoredSession → Option ScoredSession
  find k [] = none
  find k (s ∷ rest) = if eqb_ℤ s.sequence_index k then some s else find k rest

  abbrev pub scored_of : Bool → ℤ → Option Fields → Option ScoredSession
  scored_of admitted k none = none
  scored_of admitted k (some d) = if admitted then some (scored_session py k d) else none

  scored_of-false : (k : ℤ) (o : Option Fields) → scored_of false k o ≡ none
  scored_of-false k none = refl
  scored_of-false k (some d) = refl

  scored_here :
      (ns void : List (ℤ × Fields)) (k : ℤ) (d : Fields) (cells : List (ℤ × Fields))
      (others : List ScoredSession)
      → find k others ≡ scored_of (is_scored py ns void k) k (lookup k cells)
      → find k (if is_scored py ns void k then scored_session py k d ∷ others else others)
        ≡ scored_of (is_scored py ns void k) k (lookup k ((k, d) ∷ cells))
  unfolding lookup scored_session
  scored_here ns void k d cells others ih = elim (Bool-cases (is_scored py ns void k)) [
    | inl admitted ↦ rw (admitted, (eqb_ℤ_iff k k).1 refl) refl
    | inr dropped ↦ ground (
      arith,
      dropped,
      ih,
      scored_of-false k (lookup k cells),
      scored_of-false k (lookup k ((k, d) ∷ cells)),
    )
  ]

  scored_found :
      (ns void : List (ℤ × Fields)) (k j : ℤ) (d : Fields) (cells : List (ℤ × Fields))
      (others : List ScoredSession)
      → find k others ≡ scored_of (is_scored py ns void k) k (lookup k cells)
      → find k (if is_scored py ns void j then scored_session py j d ∷ others else others)
        ≡ scored_of (is_scored py ns void k) k (lookup k ((j, d) ∷ cells))
  unfolding lookup scored_session
  scored_found ns void k j d cells others ih = elim (Bool-cases (eqb_ℤ j k)) [
    | inl here ↦
        subst
          (λ i.
            find k (if is_scored py ns void i then scored_session py i d ∷ others else others)
            ≡ scored_of (is_scored py ns void k) k (lookup k ((i, d) ∷ cells)))
          (sym ((eqb_ℤ_iff j k).0 here)) (scored_here ns void k d cells others ih)
    | inr other ↦ ground (arith, other, ih)
  ]

  pub scored_sessions-find :
      (wanted : Fields → Bool) (not_scored void : List (ℤ × Fields)) (k : ℤ)
      (cells : List (ℤ × Fields)) {scored : List ScoredSession}
      → Indexed wanted cells
      → scored_sessions py not_scored void cells ≡ ok scored
      → find k scored ≡ scored_of (is_scored py not_scored void k) k (lookup k cells)
  unfolding scored_sessions lookup
  scored_sessions-find wanted ns v k [] i h = cc
  scored_sessions-find wanted ns v k ((j, d) ∷ cells) {scored} i h =
      let (seq, e, h1) =
        >>=-eq-ok (index_of py d)
          (λ seq. scored_sessions py ns v cells >>= λ others.
            ok (if is_scored py ns v seq then scored_session py seq d ∷ others else others))
          h in
      let (others, f, h2) =
        >>=-eq-ok (scored_sessions py ns v cells)
          (λ others.
            ok (if is_scored py ns v seq then scored_session py seq d ∷ others else others))
          h1 in
      let to : (if is_scored py ns v j then scored_session py j d ∷ others else others) ≡ scored =
        subst
          (λ q. (if is_scored py ns v q then scored_session py q d ∷ others else others) ≡ scored)
          {x = seq} (cc (i.0.0, e)) (cc h2) in
      subst
        (λ (l : List ScoredSession).
          find k l ≡ scored_of (is_scored py ns v k) k (lookup k ((j, d) ∷ cells)))
        to (scored_found ns v k j d cells others (scored_sessions-find wanted ns v k cells i.1 f))
