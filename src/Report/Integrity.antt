-- ===== src/Report/Integrity.antt =====
-- The cells with memory on that are not scored.
use wevibe_bench.Prelude.{
  suc, ◌≡◌, refl, ap, ◌∙◌, ◌⊎◌, inl, inr, Bool, true, false, not, List, [], ◌∷◌, map, String,
  str_eq, eq_iff, length, keep, Bool-cases, subst,
}
use wevibe_bench.Prelude.Int.{ℤ}
use wevibe_bench.Prelude.Sort.{sort}
use wevibe_bench.Proxy.Double.{Double}
use wevibe_bench.Proxy.Profile.{strip_prefix}
use wevibe_bench.Seeding.{distinct}
use wevibe_bench.Report.{
  Cell, starts_on, condition_diff, on_conditions, cells_of, diffs_of_model, diffs_of_models,
  model_diffs,
}

not_off : (s : String) → starts_on s ≡ true → str_eq s "OFF" ≡ false
unfolding strip_prefix
not_off s on = elim (Bool-cases (str_eq s "OFF")) [
  | inr e ↦ e
  | inl e ↦ absurd (cc (subst (λ t. starts_on t ≡ true) ((eq_iff s "OFF").0 e) on))
]

module _ {W : Type 0} where
  -- Two cells with memory on that are not scored, of the same model and condition.
  abbrev pub AreUnscored : Cell W → Cell W → Type 0
  AreUnscored x y =
      (x.scored ≡ false)
      × (y.scored ≡ false)
      × (x.model ≡ y.model)
      × (x.condition ≡ y.condition)
      × (starts_on x.condition ≡ true)

  abbrev pub AreAlike : Cell W → Cell W → Type 0
  AreAlike x y = (x ≡ y) ⊎ AreUnscored x y

  -- The same cells in the same order, but for what unscored ones with memory on tell.
  abbrev pub AllAlike : List (Cell W) → List (Cell W) → Type 0
  AllAlike [] [] = Unit
  AllAlike (x ∷ xs) (y ∷ ys) = AreAlike x y × AllAlike xs ys
  AllAlike _ _ = ⊥

  map-AllAlike :
      (f : Cell W → String)
      → ((x y : Cell W) → AreUnscored x y → f x ≡ f y)
      → (xs ys : List (Cell W)) → AllAlike xs ys
      → map f xs ≡ map f ys
  map-AllAlike f same [] [] h = refl
  map-AllAlike f same [] (y ∷ ys) h = elim h [ ]
  map-AllAlike f same (x ∷ xs) [] h = elim h [ ]
  map-AllAlike f same (x ∷ xs) (y ∷ ys) (inl e, h) = cc (map-AllAlike f same xs ys h, e)
  map-AllAlike f same (x ∷ xs) (y ∷ ys) (inr u, h) = cc (map-AllAlike f same xs ys h, same x y u)

  keep-AllAlike :
      (p : Cell W → Bool)
      → ((x y : Cell W) → AreUnscored x y → p x ≡ p y)
      → (xs ys : List (Cell W)) → AllAlike xs ys
      → AllAlike (keep p xs) (keep p ys)
  keep-AllAlike p same [] [] h = h
  keep-AllAlike p same [] (y ∷ ys) h = elim h [ ]
  keep-AllAlike p same (x ∷ xs) [] h = elim h [ ]
  keep-AllAlike p same (x ∷ xs) (y ∷ ys) (a, h) =
      let e : p x ≡ p y = elim a [ inl e ↦ ap p e | inr u ↦ same x y u ] in
      let rest = keep-AllAlike p same xs ys h in
      elim (Bool-cases (p y)) [ inl t ↦ rw (e, t) (a, rest) | inr t ↦ rw (e, t) rest ]

  -- A test that unscored cells with memory on fail keeps the same cells.
  keep-eq_of_AllAlike :
      (p : Cell W → Bool)
      → ((x y : Cell W) → AreUnscored x y → (p x ≡ false) × (p y ≡ false))
      → (xs ys : List (Cell W)) → AllAlike xs ys
      → keep p xs ≡ keep p ys
  keep-eq_of_AllAlike p fails [] [] h = refl
  keep-eq_of_AllAlike p fails [] (y ∷ ys) h = elim h [ ]
  keep-eq_of_AllAlike p fails (x ∷ xs) [] h = elim h [ ]
  keep-eq_of_AllAlike p fails (x ∷ xs) (y ∷ ys) (inl e, h) =
      let rest = keep-eq_of_AllAlike p fails xs ys h in
      elim (Bool-cases (p y)) [ inl t ↦ rw (e, t) (ap (◌∷◌ y) rest) | inr t ↦ rw (e, t) rest ]
  keep-eq_of_AllAlike p fails (x ∷ xs) (y ∷ ys) (inr u, h) =
      let (f, g) = fails x y u in rw (f, g) (keep-eq_of_AllAlike p fails xs ys h)

  length-AllAlike : (xs ys : List (Cell W)) → AllAlike xs ys → length xs ≡ length ys
  length-AllAlike [] [] h = refl
  length-AllAlike [] (y ∷ ys) h = elim h [ ]
  length-AllAlike (x ∷ xs) [] h = elim h [ ]
  length-AllAlike (x ∷ xs) (y ∷ ys) h = ap suc (length-AllAlike xs ys h.1)

  unscored_not_off :
      (x y : Cell W)
      → AreUnscored x y
      → (str_eq x.condition "OFF" ≡ false) × (str_eq y.condition "OFF" ≡ false)
  unscored_not_off x y u =
      let x_off = not_off x.condition u.4 in (x_off, subst (λ s. str_eq s "OFF" ≡ false) u.3 x_off)

map_ext : {A B : Type 0} {f g : A → B} → ((a : A) → f a ≡ g a) → (xs : List A) → map f xs ≡ map g xs
map_ext h [] = refl
map_ext h (x ∷ xs) = cc (h x, map_ext h xs)

module _ {W : Type 0} (fl : Double W) (ratio : ℤ → ℤ → W) (le_text : String → String → Bool) where
  condition_diff-AllAlike :
      (model : String) (xs ys : List (Cell W)) (condition : String)
      → AllAlike xs ys
      → condition_diff fl ratio le_text model xs condition
        ≡ condition_diff fl ratio le_text model ys condition
  unfolding condition_diff
  condition_diff-AllAlike model xs ys condition h =
      let off = keep-eq_of_AllAlike (λ c. str_eq c.condition "OFF") unscored_not_off xs ys h in
      let on : Cell W → Bool = λ c. str_eq c.condition condition in
      let ons = keep-AllAlike on (λ x y u. ap (λ s. str_eq s condition) u.3) xs ys h in
      let scored =
        keep-eq_of_AllAlike (λ c. c.scored) (λ x y u. (u.0, u.1)) (keep on xs) (keep on ys) ons in
      let unscored =
        length-AllAlike (keep (λ c. not c.scored) (keep on xs))
          (keep (λ c. not c.scored) (keep on ys))
          (keep-AllAlike (λ c. not c.scored) (λ x y u. rw (u.0, u.1) refl) (keep on xs) (keep on ys)
            ons) in
      rw (off, scored, unscored) refl

  diffs_of_model-AllAlike :
      (xs ys : List (Cell W)) (model : String)
      → AllAlike xs ys
      → diffs_of_model fl ratio le_text xs model ≡ diffs_of_model fl ratio le_text ys model
  unfolding diffs_of_model on_conditions sort
  diffs_of_model-AllAlike xs ys model h =
      let xs' = cells_of fl ratio le_text model xs in
      let ys' = cells_of fl ratio le_text model ys in
      let own =
        keep-AllAlike (λ c. str_eq c.model model) (λ x y u. ap (λ s. str_eq s model) u.2) xs ys h in
      let conditions = map-AllAlike (λ c. c.condition) (λ x y u. u.3) xs' ys' own in
      map_ext (λ c. condition_diff-AllAlike model xs' ys' c own)
        (on_conditions fl ratio le_text xs')
      ∙ ap
          (λ cs.
            map (condition_diff fl ratio le_text model ys')
              (sort le_text (distinct (keep starts_on cs))))
          conditions

  diffs_of_models-AllAlike :
      (xs ys : List (Cell W)) (models : List String)
      → AllAlike xs ys
      → diffs_of_models fl ratio le_text xs models ≡ diffs_of_models fl ratio le_text ys models
  unfolding diffs_of_models
  diffs_of_models-AllAlike xs ys [] h = refl
  diffs_of_models-AllAlike xs ys (m ∷ ms) h =
      cc (diffs_of_model-AllAlike xs ys m h, diffs_of_models-AllAlike xs ys ms h)

  -- Whatever a cell with memory on that is not scored says of its outcome, tokens, cost or errors,
  -- the differences of the models are the same: only its model and its condition count.
  pub model_diffs-AllAlike :
      (xs ys : List (Cell W))
      → AllAlike xs ys
      → model_diffs fl ratio le_text xs ≡ model_diffs fl ratio le_text ys
  unfolding model_diffs
  model_diffs-AllAlike xs ys h =
      let models = map-AllAlike (λ c. c.model) (λ x y u. u.2) xs ys h in
      diffs_of_models-AllAlike xs ys (sort le_text (distinct (map (λ c. c.model) xs))) h
      ∙ ap (λ ms. diffs_of_models fl ratio le_text ys (sort le_text (distinct ms))) models
