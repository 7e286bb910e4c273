-- ===== src/Report/Complete.antt =====
-- The cells with memory on, and the differences of their conditions.
use wevibe_bench.Prelude.{
  ◌≡◌, refl, sym, ◌∙◌, Bool, true, ◌&&◌, List, [], ◌∷◌, ◌++◌, map, String, str_eq, eq_iff, eq_refl,
  arith, keep, any, Bool-cases, inl, inr, subst,
}
use wevibe_bench.Prelude.Int.{ℤ}
use wevibe_bench.Prelude.Sort.{sort, insert}
use wevibe_bench.Proxy.Double.{Double}
use wevibe_bench.Seeding.{distinct}
use wevibe_bench.Seeding.Groups.{any-distinct}
use wevibe_bench.Report.{
  Cell, ModelDiff, starts_on, diff_of, condition_diff, on_conditions, cells_of, diffs_of_model,
  diffs_of_models, model_diffs,
}

module _ {A : Type 0} (p : A → Bool) where
  any-append_left : (xs ys : List A) → any p xs ≡ true → any p (xs ++ ys) ≡ true
  any-append_left [] ys h = absurd (cc)
  any-append_left (x ∷ xs) ys h = elim (Bool-cases (p x)) [
    | inl e ↦ rw e refl
    | inr e ↦ rw e (any-append_left xs ys (rw e at h))
  ]

  any-append_right : (xs ys : List A) → any p ys ≡ true → any p (xs ++ ys) ≡ true
  any-append_right [] ys h = h
  any-append_right (x ∷ xs) ys h = elim (Bool-cases (p x)) [
    | inl e ↦ rw e refl
    | inr e ↦ rw e (any-append_right xs ys h)
  ]

  any-insert : (le : A → A → Bool) (x : A) (l : List A) → any p (insert le x l) ≡ any p (x ∷ l)
  unfolding insert
  any-insert le x [] = refl
  any-insert le x (y ∷ ys) = ground (arith, any-insert le x ys)

  any-sort : (le : A → A → Bool) (l : List A) → any p (sort le l) ≡ any p l
  unfolding sort
  any-sort le [] = refl
  any-sort le (x ∷ xs) = ground (arith, any-insert le x (sort le xs), any-sort le xs)

  -- One of the values of `f` passes if it does so at a given argument.
  any-map_of :
      {B : Type 0} (q : B → Bool) (f : B → A)
      → ((b : B) → q b ≡ true → p (f b) ≡ true)
      → (bs : List B) → any q bs ≡ true
      → any p (map f bs) ≡ true
  any-map_of q f passes [] h = absurd (cc)
  any-map_of q f passes (b ∷ bs) h = elim (Bool-cases (q b)) [
    | inl e ↦ rw (passes b e) refl
    | inr e ↦ elim (Bool-cases (p (f b))) [
      | inl k ↦ rw k refl
      | inr k ↦ rw k (any-map_of q f passes bs (rw e at h))
    ]
  ]

any-sorted_set :
    (le : String → String → Bool) (x : String) (l : List String)
    → any (str_eq x) l ≡ true
    → any (str_eq x) (sort le (distinct l)) ≡ true
any-sorted_set le x l h = any-sort (str_eq x) le (distinct l) ∙ any-distinct x l ∙ h

module _ {W : Type 0} (c : Cell W) (behind : List (Cell W)) where
  own_model :
      (before : List (Cell W))
      → any (str_eq c.model) (map (λ x. x.model) (before ++ (c ∷ behind))) ≡ true
  own_model [] = rw (eq_refl c.model) refl
  own_model (x ∷ before) = elim (Bool-cases (str_eq c.model x.model)) [
    | inl e ↦ rw e refl
    | inr e ↦ rw e (own_model before)
  ]

  own_condition :
      (before : List (Cell W))
      → starts_on c.condition ≡ true
      → any (str_eq c.condition) (
          keep starts_on
            (map (λ x. x.condition) (keep (λ x. str_eq x.model c.model) (before ++ (c ∷ behind)))))
        ≡ true
  own_condition [] on = rw (eq_refl c.model) (rw on (rw (eq_refl c.condition) refl))
  own_condition (x ∷ before) on =
      let rest = own_condition before on in
      elim (Bool-cases (str_eq x.model c.model)) [
        | inr e ↦ rw e rest
        | inl e ↦ elim (Bool-cases (starts_on x.condition)) [
          | inr k ↦ rw (e, k) rest
          | inl k ↦ elim (Bool-cases (str_eq c.condition x.condition)) [
            | inl l ↦ rw (e, k) (rw l refl)
            | inr l ↦ rw (e, k) (rw l rest)
          ]
        ]
      ]

-- the difference is that of the model and the condition of the cell
abbrev pub shows : {W : Type 0} → Cell W → ModelDiff W → Bool
shows c d = str_eq d.model c.model && str_eq d.on_condition c.condition

module _ {W : Type 0} (fl : Double W) (ratio : ℤ → ℤ → W) (le_text : String → String → Bool)
    (c : Cell W) (cells : List (Cell W)) where
  condition_diff-shows :
      (own : List (Cell W)) (condition : String)
      → str_eq c.condition condition ≡ true
      → shows c (condition_diff fl ratio le_text c.model own condition) ≡ true
  unfolding condition_diff diff_of
  condition_diff-shows own condition e =
      let back = (eq_iff condition c.condition).1 (sym ((eq_iff c.condition condition).0 e)) in
      rw (eq_refl c.model, back) refl

  module _
      (in_conditions : any
          (str_eq c.condition)
          (keep starts_on (map (λ x. x.condition) (keep (λ x. str_eq x.model c.model) cells)))
        ≡ true) where
    diffs_of_model-shows :
        (m : String)
        → str_eq c.model m ≡ true
        → any (shows c) (diffs_of_model fl ratio le_text cells m) ≡ true
    unfolding diffs_of_model on_conditions sort
    diffs_of_model-shows m e =
        let own = cells_of fl ratio le_text c.model cells in
        let found =
          any-sorted_set le_text c.condition (keep starts_on (map (λ x. x.condition) own))
            in_conditions in
        subst (λ n. any (shows c) (diffs_of_model fl ratio le_text cells n) ≡ true)
          ((eq_iff c.model m).0 e)
          (any-map_of (shows c) (str_eq c.condition) (condition_diff fl ratio le_text c.model own)
            (condition_diff-shows own) (on_conditions fl ratio le_text own) found)

    diffs_of_models-shows :
        (ms : List String)
        → any (str_eq c.model) ms ≡ true
        → any (shows c) (diffs_of_models fl ratio le_text cells ms) ≡ true
    unfolding diffs_of_models
    diffs_of_models-shows [] h = absurd (cc)
    diffs_of_models-shows (m ∷ ms) h =
        let here = diffs_of_model fl ratio le_text cells m in
        let rest = diffs_of_models fl ratio le_text cells ms in
        elim (Bool-cases (str_eq c.model m)) [
          | inl e ↦ any-append_left (shows c) here rest (diffs_of_model-shows m e)
          | inr e ↦ any-append_right (shows c) here rest (diffs_of_models-shows ms (rw e at h))
        ]

module _ {W : Type 0} (fl : Double W) (ratio : ℤ → ℤ → W) (le_text : String → String → Bool) where
  -- A cell with memory on, wherever it stands and scored or not, has a difference of its model and
  -- condition.
  pub model_diffs-shows :
      (before behind : List (Cell W)) (c : Cell W)
      → starts_on c.condition ≡ true
      → any (shows c) (model_diffs fl ratio le_text (before ++ (c ∷ behind))) ≡ true
  unfolding model_diffs
  model_diffs-shows before behind c on =
      let cells = before ++ (c ∷ behind) in
      diffs_of_models-shows fl ratio le_text c cells (own_condition c behind before on)
        (sort le_text (distinct (map (λ x. x.model) cells)))
        (any-sorted_set le_text c.model (map (λ x. x.model) cells) (own_model c behind before))
