-- ===== src/Report/Counts.antt =====
-- The cells that a difference counts.
use wevibe_bench.Prelude.{
  ℕ, ◌+◌, ◌≡◌, refl, ◌∙◌, Bool, not, ◌&&◌, List, [], ◌∷◌, ◌++◌, map, String, str_eq, arith, length,
  keep, count_if, All, Bool-cases, inl, inr,
}
use wevibe_bench.Prelude.Int.{ℤ}
use wevibe_bench.Proxy.Double.{Double}
use wevibe_bench.Report.{
  Cell, ModelDiff, diff_of, condition_diff, cells_of, diffs_of_model, diffs_of_models, model_diffs,
}

module _ {A : Type 0} where
  length-keep-keep :
      (p q : A → Bool) (xs : List A) → length (keep q (keep p xs)) ≡ count_if (λ x. p x && q x) xs
  length-keep-keep p q [] = refl
  length-keep-keep p q (x ∷ xs) = elim (Bool-cases (p x)) [
    | inl e ↦ elim (Bool-cases (q x)) [
      | inl f ↦ rw (e, f) (omega (arith, length-keep-keep p q xs))
      | inr f ↦ rw (e, f) (length-keep-keep p q xs)
    ]
    | inr e ↦ rw e (length-keep-keep p q xs)
  ]

  length-keep-not :
      (q : A → Bool) (xs : List A)
      → length (keep q xs) + length (keep (λ x. not (q x)) xs) ≡ length xs
  length-keep-not q [] = refl
  length-keep-not q (x ∷ xs) = ground (arith, length-keep-not q xs)

  All-append : (P : A → Type 0) (xs ys : List A) → All P xs → All P ys → All P (xs ++ ys)
  All-append P [] ys h k = k
  All-append P (x ∷ xs) ys h k = (h.0, All-append P xs ys h.1 k)

  All-map_of :
      {B : Type 0} (P : A → Type 0) (f : B → A)
      → ((b : B) → P (f b))
      → (xs : List B) → All P (map f xs)
  All-map_of P f h [] = tt
  All-map_of P f h (x ∷ xs) = (h x, All-map_of P f h xs)

module _ {W : Type 0} (fl : Double W) (ratio : ℤ → ℤ → W) (le_text : String → String → Bool) where
  -- how many of the cells have this model and this condition
  abbrev pub cells_with : String → String → List (Cell W) → ℕ
  cells_with model condition = count_if (λ c. str_eq c.model model && str_eq c.condition condition)

  abbrev pub IsCounted : List (Cell W) → ModelDiff W → Type 0
  IsCounted cells d =
      (d.on_scored_n + d.on_not_scored_n ≡ cells_with d.model d.on_condition cells)
      × (d.off_n ≡ cells_with d.model "OFF" cells)

  condition_diff-IsCounted :
      (cells : List (Cell W)) (model condition : String)
      → IsCounted cells
          (condition_diff fl ratio le_text model (cells_of fl ratio le_text model cells) condition)
  unfolding condition_diff diff_of
  condition_diff-IsCounted cells model condition =
      let own = cells_of fl ratio le_text model cells in
      let of_condition : String → Cell W → Bool = λ s c. str_eq c.condition s in
      let is_own : Cell W → Bool = λ c. str_eq c.model model in
      (
        length-keep-not (λ c. c.scored) (keep (of_condition condition) own)
            ∙ length-keep-keep is_own (of_condition condition) cells,
        length-keep-keep is_own (of_condition "OFF") cells,
      )

  diffs_of_models-IsCounted :
      (cells : List (Cell W)) (models : List String)
      → All (IsCounted cells) (diffs_of_models fl ratio le_text cells models)
  unfolding diffs_of_models diffs_of_model
  diffs_of_models-IsCounted cells [] = tt
  diffs_of_models-IsCounted cells (m ∷ ms) =
      All-append (IsCounted cells) _ _
        (All-map_of (IsCounted cells)
          (condition_diff fl ratio le_text m (cells_of fl ratio le_text m cells))
          (condition_diff-IsCounted cells m) _)
        (diffs_of_models-IsCounted cells ms)

  -- In each difference the scored cells with memory on and those that are not scored are together
  -- the cells of its model and condition, and the cells with memory off those of its model.
  pub model_diffs-IsCounted :
      (cells : List (Cell W)) → All (IsCounted cells) (model_diffs fl ratio le_text cells)
  unfolding model_diffs
  model_diffs-IsCounted cells = diffs_of_models-IsCounted cells _
