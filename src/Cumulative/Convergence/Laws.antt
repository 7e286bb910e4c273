-- ===== src/Cumulative/Convergence/Laws.antt =====
-- What the trend of a run says of its sessions.
use mathlib.Core.List.{Permᴰ}
use mathlib.Core.List.Permᴰ
use wevibe_bench.Prelude.{
  suc, ◌≤◌, ◌≡◌, ◌≢◌, refl, ap, ◌↔◌, Bool, true, false, Option, none, some, List, [], ◌∷◌, ◌++◌,
  map, All, arith, length, count_if, Option-cases, inl, inr,
}
use wevibe_bench.Prelude.Int.{ℤ, eq_of_parts}
use wevibe_bench.Prelude.Json.{Builtins}
use wevibe_bench.Prelude.Sort.{
  sort, IsSorted, sort-IsSorted, count_if-sort, Untied, sort-eq_of_perm, All-sort, All-unsort,
}
use wevibe_bench.Cumulative.Convergence.{
  point, ScoredSession, ConvergencePoint, by_index, present, sum_or_none, from_session_record,
  trend_of, build_convergence_trend,
}

by_index_total : (p q : ConvergencePoint) → by_index p q ≡ false → by_index q p ≡ true
by_index_total p q h = ground arith

by_index_trans :
    (p q r : ConvergencePoint) → by_index p q ≡ true → by_index q r ≡ true → by_index p r ≡ true
by_index_trans p q r h k = ground arith

abbrev head_of : {A : Type 0} → Option A → List A → List A
head_of none l = l
head_of (some a) l = a ∷ l

present-cons :
    {A : Type 0} (x : Option A) (xs : List (Option A)) → present (x ∷ xs) ≡ head_of x (present xs)
present-cons none xs = refl
present-cons (some a) xs = refl

All-map :
    {A B : Type 0} (P : B → Type 0) (f : A → B) (xs : List A)
    → All P (map f xs) ↔ All (λ x. P (f x)) xs
All-map P f [] = (λ _. tt, λ _. tt)
All-map P f (x ∷ xs) = let (to, back) = All-map P f xs in (λ h. (h.0, to h.1), λ h. (h.0, back h.1))

-- `sum` of what is there is missing exactly when nothing is there.
sum_or_none-none :
    (xs : List (Option ℤ)) → (sum_or_none (present xs) ≡ none) ↔ All (λ x. x ≡ none) xs
sum_or_none-none [] = (λ _. tt, λ _. refl)
sum_or_none-none (none ∷ xs) =
    let (to, back) = sum_or_none-none xs in (λ e. (refl, to e), λ h. back h.1)
sum_or_none-none (some a ∷ xs) = (λ e. absurd (cc), λ h. absurd (cc h.0))

length-count_if : {A : Type 0} (xs : List A) → length xs ≡ count_if (λ x. true) xs
length-count_if [] = refl
length-count_if (x ∷ xs) = ap suc (length-count_if xs)

pub count_if-le : {A : Type 0} (p : A → Bool) (xs : List A) → count_if p xs ≤ length xs
count_if-le p [] = omega arith
count_if-le p (x ∷ xs) = ground (arith, count_if-le p xs)

module _ (py : Builtins) where
  -- the points of the sessions that have progress, in the order of the records
  abbrev pub scored : List ScoredSession → List ConvergencePoint
  scored rs = present (map (from_session_record py) rs)

  -- The points of a trend are sorted by index, and they are those of the sessions with progress: any
  -- test holds of as many of the one as of the other. The two counters count them and the green
  -- ones, of which there are no more.
  pub build_convergence_trend_counts :
      (rs : List ScoredSession)
      → let t = build_convergence_trend py rs in
        IsSorted by_index t.points
        × ((test : ConvergencePoint → Bool) → count_if test t.points ≡ count_if test (scored rs))
        × (t.sessions_completed ≡ length (scored rs))
        × (t.sessions_green ≡ count_if (λ p. p.full_green) (scored rs))
        × (t.sessions_green ≤ t.sessions_completed)
  unfolding build_convergence_trend trend_of
  build_convergence_trend_counts rs =
      let l = scored rs in
      (
        sort-IsSorted by_index by_index_total by_index_trans l,
        (λ test. count_if-sort by_index test l),
        cc (
          length-count_if (sort by_index l),
          length-count_if l,
          count_if-sort by_index (λ p. true) l,
        ),
        count_if-sort by_index (λ p. p.full_green) l,
        count_if-le (λ p. p.full_green) (sort by_index l),
      )

  -- A session without progress leaves the trend as it is, wherever it stands.
  pub build_convergence_trend_unscored :
      (before : List ScoredSession) (r : ScoredSession) (behind : List ScoredSession)
      → r.progress ≡ none
      → build_convergence_trend py (before ++ r ∷ behind)
        ≡ build_convergence_trend py (before ++ behind)
  unfolding build_convergence_trend
  build_convergence_trend_unscored before r behind e =
      ap (λ l. trend_of py (sort by_index l)) (same before)
    where
      skip : from_session_record py r ≡ none
      skip = unfold from_session_record in rw e

      same : (xs : List ScoredSession) → scored (xs ++ r ∷ behind) ≡ scored (xs ++ behind)
      same [] = ground (arith, skip)
      same (x ∷ xs) = cc (
        present-cons (from_session_record py x) (map (from_session_record py) (xs ++ r ∷ behind)),
        present-cons (from_session_record py x) (map (from_session_record py) (xs ++ behind)),
        same xs,
      )

  -- The resolved total is `None` exactly if no scored session has a count of resolved problems.
  pub resolved_total-none :
      (rs : List ScoredSession)
      → ((build_convergence_trend py rs).resolved_total ≡ none)
        ↔ All (λ p. p.resolved_count ≡ none) (scored rs)
  unfolding build_convergence_trend trend_of
  resolved_total-none rs =
      let l = scored rs in
      let (to, back) =
        sum_or_none-none (map (λ (p : ConvergencePoint). p.resolved_count) (sort by_index l)) in
      let (down, up) =
        All-map (λ x. x ≡ none) (λ (p : ConvergencePoint). p.resolved_count) (sort by_index l) in
      (
        (λ e. All-unsort by_index (λ p. p.resolved_count ≡ none) l (down (to e))),
        (λ h. back (up (All-sort by_index (λ p. p.resolved_count ≡ none) l h))),
      )

  -- No two scored sessions share an index.
  abbrev pub Distinct : List ScoredSession → Type 0
  Distinct [] = Unit
  Distinct (r ∷ rs) = All (λ q. r.sequence_index ≢ q.sequence_index) rs × Distinct rs

  point_index :
      (r : ScoredSession) {p : ConvergencePoint}
      → from_session_record py r ≡ some p
      → p.sequence_index ≡ r.sequence_index
  unfolding from_session_record point
  point_index r h = ground arith

  tied_index :
      (p q : ConvergencePoint)
      → p.sequence_index ≢ q.sequence_index
      → by_index p q ≡ true
      → by_index q p ≡ false
  tied_index p q ne h = ground (arith, eq_of_parts p.sequence_index q.sequence_index)

  Distinct-head :
      (r : ScoredSession) (p : ConvergencePoint) (rs : List ScoredSession)
      → p.sequence_index ≡ r.sequence_index
      → All (λ q. r.sequence_index ≢ q.sequence_index) rs
      → All (λ q. by_index p q ≡ true → by_index q p ≡ false) (scored rs)
  Distinct-head r p [] e d = tt
  Distinct-head r p (q ∷ rs) e d = elim (Option-cases (from_session_record py q)) [
    | inl skip ↦ rw (skip, present) (Distinct-head r p rs e d.1)
    | inr (x, found) ↦
        rw (found, present)
          (tied_index p x (λ same. d.0 (cc (point_index q found))), Distinct-head r p rs e d.1)
  ]

  Distinct-Untied :
      (rs : List ScoredSession)
      → Distinct rs
      → Untied by_index by_index_total by_index_trans (scored rs)
  Distinct-Untied [] d = tt
  Distinct-Untied (r ∷ rs) d = elim (Option-cases (from_session_record py r)) [
    | inl skip ↦ rw (skip, present) (Distinct-Untied rs d.1)
    | inr (x, found) ↦
        rw (found, present) (Distinct-head r x rs (point_index r found) d.0, Distinct-Untied rs d.1)
  ]

  head_of-perm :
      {A : Type 0} (x : Option A) (l m : List A) → Permᴰ l m → Permᴰ (head_of x l) (head_of x m)
  head_of-perm none l m p = p
  head_of-perm (some a) l m p = Permᴰ.cons refl p

  head_of-swap :
      {A : Type 0} (x y : Option A) (l : List A)
      → Permᴰ (head_of x (head_of y l)) (head_of y (head_of x l))
  head_of-swap none y l = Permᴰ.refl _
  head_of-swap (some a) none l = Permᴰ.refl _
  head_of-swap (some a) (some b) l = Permᴰ.swap refl refl

  scored-cons :
      (r : ScoredSession) (rs : List ScoredSession)
      → scored (r ∷ rs) ≡ head_of (from_session_record py r) (scored rs)
  scored-cons r rs = present-cons (from_session_record py r) (map (from_session_record py) rs)

  scored-perm_cons :
      (r : ScoredSession) (rs qs : List ScoredSession)
      → Permᴰ (scored rs) (scored qs)
      → Permᴰ (scored (r ∷ rs)) (scored (r ∷ qs))
  scored-perm_cons r rs qs p =
      rw (scored-cons r rs, scored-cons r qs)
        (head_of-perm (from_session_record py r) (scored rs) (scored qs) p)

  scored-perm_swap :
      (a b : ScoredSession) (l : List ScoredSession)
      → Permᴰ (scored (a ∷ b ∷ l)) (scored (b ∷ a ∷ l))
  scored-perm_swap a b l =
      rw (scored-cons a (b ∷ l), scored-cons b l, scored-cons b (a ∷ l), scored-cons a l)
        (head_of-swap (from_session_record py a) (from_session_record py b) (scored l))

  scored-perm : {rs qs : List ScoredSession} → Permᴰ rs qs → Permᴰ (scored rs) (scored qs)
  scored-perm Permᴰ.nil = Permᴰ.nil
  scored-perm (Permᴰ.cons {a = a} {b = b} {l₁ = rs} {l₂ = qs} e p) =
      rw (← e) (scored-perm_cons a rs qs (scored-perm p))
  scored-perm (Permᴰ.swap {a = a} {b = b} {l = l} d e) = rw (← d, ← e) (scored-perm_swap a b l)
  scored-perm (Permᴰ.trans p q) = Permᴰ.trans (scored-perm p) (scored-perm q)

  -- Sessions with indices of their own: the trend does not depend on the order of the records.
  pub build_convergence_trend_order :
      {rs qs : List ScoredSession}
      → Permᴰ rs qs
      → Distinct rs
      → build_convergence_trend py rs ≡ build_convergence_trend py qs
  unfolding build_convergence_trend
  build_convergence_trend_order {rs} {qs} p d = ap (trend_of py) (
      sort-eq_of_perm by_index by_index_total by_index_trans (scored-perm p) (Distinct-Untied rs d))
