-- ===== src/Seeding/Groups.antt =====
-- The groups that `assert_no_straddle` returns.
use mathlib.Core.List.Perm
use mathlib.Core.List.{Perm, perm_middle}
use wevibe_bench.Prelude.{
  ◌≡◌, ◌≢◌, ◌↔◌, ◌⊎◌, refl, sym, ap, ◌∙◌, Bool, true, false, not, List, [], ◌∷◌, ◌++◌, map, String,
  str_eq, eq_iff, keep, any, All, Bool-cases, inl, inr,
}
use wevibe_bench.Seeding.{Task, distinct, is_seed, is_heldout, assert_no_straddle}

-- Lists that a test splits.
module _ {A : Type 0} where
  pub keep-All : (p : A → Bool) (xs : List A) → All (λ x. p x ≡ true) (keep p xs)
  keep-All p [] = tt
  keep-All p (x ∷ xs) = elim (Bool-cases (p x)) [
    | inl e ↦ rw e (e, keep-All p xs)
    | inr e ↦ rw e (keep-All p xs)
  ]

  pub keep_perm : (p : A → Bool) (xs : List A) → Perm (keep p xs ++ keep (λ x. not (p x)) xs) xs
  keep_perm p [] = Perm.rfl
  keep_perm p (x ∷ xs) = elim (Bool-cases (p x)) [
    | inl e ↦ rw e (Perm.cons x (keep_perm p xs))
    | inr e ↦ rw e (
        Perm.trans (perm_middle (keep p xs) (keep (λ x. not (p x)) xs))
          (Perm.cons x (keep_perm p xs)))
  ]

  pub All-mono : {P Q : A → Type 0} → ((x : A) → P x → Q x) → (xs : List A) → All P xs → All Q xs
  All-mono f [] h = tt
  All-mono f (x ∷ xs) h = (f x h.0, All-mono f xs h.1)

  pub List-cases : (xs : List A) → (xs ≡ []) ⊎ ((x : A) × (rest : List A) × (xs ≡ x ∷ rest))
  List-cases [] = inl refl
  List-cases (x ∷ rest) = inr (x, rest, refl)

  -- No element passes exactly if none is kept.
  none_kept : (p : A → Bool) (xs : List A) → (keep p xs ≡ []) ↔ All (λ x. p x ≡ false) xs
  none_kept p [] = ((λ _. tt), (λ _. refl))
  none_kept p (x ∷ xs) = elim (Bool-cases (p x)) [
    | inl e ↦ rw e ((λ h. absurd (cc)), (λ h. absurd (cc (h.0))))
    | inr e ↦ rw e ((λ h. (refl, (none_kept p xs).0 h)), (λ h. (none_kept p xs).1 h.1))
  ]

-- The groups of two lists.
pub any-distinct :
    (g : String) (xs : List String) → any (str_eq g) (distinct xs) ≡ any (str_eq g) xs
any-distinct g [] = refl
any-distinct g (x ∷ xs) = elim (Bool-cases (any (str_eq x) xs)) [
  | inl e ↦ elim (Bool-cases (str_eq g x)) [
    | inl same ↦
        rw (e, same) (any-distinct g xs ∙ ap (λ y. any (str_eq y) xs) ((eq_iff g x).0 same) ∙ e)
    | inr ne ↦ rw (e, ne) (any-distinct g xs)
  ]
  | inr e ↦ rw e (rw (any-distinct g xs) refl)
]

-- A group is none of these texts exactly if the test for one fails.
any_iff :
    {A : Type 0} (f : A → String) (g : String) (hs : List A)
    → (any (str_eq g) (map f hs) ≡ false) ↔ All (λ h. g ≢ f h) hs
any_iff f g [] = ((λ _. tt), (λ _. refl))
any_iff f g (h ∷ hs) = elim (Bool-cases (str_eq g (f h))) [
  | inl e ↦ rw e ((λ x. absurd (cc)), (λ x. absurd (x.0 ((eq_iff g (f h)).0 e))))
  | inr e ↦ rw e (
    (λ x. ((λ same. absurd (cc ((eq_iff g (f h)).1 same, e))), (any_iff f g hs).0 x)),
    (λ x. (any_iff f g hs).1 x.1),
  )
]

module _ (q : String → Bool) where
  All-of_any :
      (x : String) (xs : List String)
      → any (str_eq x) xs ≡ true
      → All (λ y. q y ≡ false) xs
      → q x ≡ false
  All-of_any x [] h a = absurd (cc)
  All-of_any x (y ∷ ys) h a = elim (Bool-cases (str_eq x y)) [
    | inl e ↦ ap q ((eq_iff x y).0 e) ∙ a.0
    | inr e ↦ All-of_any x ys (rw e at h) a.1
  ]

  All-distinct :
      (xs : List String) → All (λ y. q y ≡ false) (distinct xs) ↔ All (λ y. q y ≡ false) xs
  All-distinct [] = ((λ h. h), (λ h. h))
  All-distinct (x ∷ xs) = elim (Bool-cases (any (str_eq x) xs)) [
    | inl e ↦ rw e (
      (λ h. (All-of_any x xs e ((All-distinct xs).0 h), (All-distinct xs).0 h)),
      (λ h. (All-distinct xs).1 h.1),
    )
    | inr e ↦ rw e ((λ h. (h.0, (All-distinct xs).0 h.1)), (λ h. (h.0, (All-distinct xs).1 h.1)))
  ]

All-map :
    {A : Type 0} (P : String → Type 0) (f : A → String) (xs : List A)
    → All P (map f xs) ↔ All (λ x. P (f x)) xs
All-map P f [] = ((λ h. h), (λ h. h))
All-map P f (x ∷ xs) = ((λ h. (h.0, (All-map P f xs).0 h.1)), (λ h. (h.0, (All-map P f xs).1 h.1)))

module _ {T : Type 0} (lt : T → T → Bool) (le_text : String → String → Bool) where
  -- No group has tasks before the cutoff and others behind it.
  abbrev pub IsSeparated : (Task T → String) → List (Task T) → List (Task T) → Type 0
  IsSeparated key_fn seeds heldouts = All (λ s. All (λ h. key_fn s ≢ key_fn h) heldouts) seeds

  pub assert_no_straddle-nil :
      (tasks : List (Task T)) (cutoff : T) (key_fn : Task T → String)
      → (assert_no_straddle lt le_text tasks cutoff key_fn ≡ [])
        ↔ IsSeparated key_fn
            (keep (is_seed lt le_text cutoff) tasks)
            (keep (is_heldout lt le_text cutoff) tasks)
  unfolding assert_no_straddle
  assert_no_straddle-nil tasks cutoff key_fn =
      let seeds = keep (is_seed lt le_text cutoff) tasks in
      let heldouts = keep (is_heldout lt le_text cutoff) tasks in
      let shared = λ (g : String). any (str_eq g) (distinct (map key_fn heldouts)) in
      let kept = none_kept shared (distinct (map key_fn seeds)) in
      let distinct_seeds = All-distinct shared (map key_fn seeds) in
      let mapped = All-map (λ g. shared g ≡ false) key_fn seeds in
      (
        (λ e.
            All-mono
              (λ s h.
                (any_iff key_fn (key_fn s) heldouts).0
                  (sym (any-distinct (key_fn s) (map key_fn heldouts)) ∙ h))
              seeds (mapped.0 (distinct_seeds.0 (kept.0 e)))),
        (λ e. kept.1 (
            distinct_seeds.1 (
              mapped.1 (
                All-mono
                  (λ s h.
                    any-distinct (key_fn s) (map key_fn heldouts)
                    ∙ (any_iff key_fn (key_fn s) heldouts).1 h)
                  seeds e)))),
      )
