-- ===== src/Prelude/Sort.antt =====
-- `sorted` with a key: a stable sort by a Boolean order.
use mathlib.Core.List.Perm
use mathlib.Core.List.{Perm, Permᴰ}
use mathlib.Core.Path.{◌≡◌, refl, ◌∙◌, subst}
use mathlib.Core.Bool.{Bool, true, false}
use mathlib.Core.Logic.{inl, inr}
use mathlib.Core.List.{List, [], ◌∷◌}
use native.Mathlib.Omega.{arith}
use wevibe_bench.Prelude.Tests.{if◌then◌else◌, Bool-cases}
use wevibe_bench.Prelude.Lists.{All, count_if}

module _ {ℓ} {A : Type ℓ} (le : A → A → Bool) where
  -- In front of the first element that is not smaller: equal keys keep their order.
  unfoldable pub insert : A → List A → List A
  insert x [] = x ∷ []
  insert x (y ∷ ys) = if le x y then x ∷ y ∷ ys else y ∷ insert x ys

  unfoldable pub sort : List A → List A
  unfolding insert
  sort [] = []
  sort (x ∷ xs) = insert x (sort xs)

  -- Every element is in order with all behind it.
  abbrev pub IsSorted : List A → Type 0
  IsSorted [] = Unit
  IsSorted (x ∷ xs) = All (λ y. le x y ≡ true) xs × IsSorted xs

  pub insert-perm : (x : A) (l : List A) → Perm (insert x l) (x ∷ l)
  unfolding insert
  insert-perm x [] = Perm.rfl
  insert-perm x (y ∷ ys) = elim (Bool-cases (le x y)) [
    | inl e ↦ rw e Perm.rfl
    | inr e ↦ rw e (Perm.trans (Perm.cons y (insert-perm x ys)) (Perm.swap x y ys))
  ]

  pub sort-perm : (l : List A) → Perm (sort l) l
  unfolding sort
  sort-perm [] = Perm.rfl
  sort-perm (x ∷ xs) = Perm.trans (insert-perm x (sort xs)) (Perm.cons x (sort-perm xs))

  pub All-insert {κ} : (P : A → Type κ) (x : A) (l : List A) → P x → All P l → All P (insert x l)
  unfolding insert
  All-insert P x [] p h = (p, tt)
  All-insert P x (y ∷ ys) p h = elim (Bool-cases (le x y)) [
    | inl e ↦ rw e (p, h)
    | inr e ↦ rw e (h.0, All-insert P x ys p h.1)
  ]

  pub All-sort {κ} : (P : A → Type κ) (l : List A) → All P l → All P (sort l)
  unfolding sort
  All-sort P [] h = tt
  All-sort P (x ∷ xs) h = All-insert P x (sort xs) h.0 (All-sort P xs h.1)

  All-uninsert {κ} : (P : A → Type κ) (x : A) (l : List A) → All P (insert x l) → All P (x ∷ l)
  unfolding insert
  All-uninsert P x [] h = h
  All-uninsert P x (y ∷ ys) h = elim (Bool-cases (le x y)) [
    | inl e ↦ rw (e, insert) at h
    | inr e ↦
        let h' : P y × All P (insert x ys) = rw (e, insert) at h in
        let rest = All-uninsert P x ys h'.1 in (rest.0, (h'.0, rest.1))
  ]

  pub All-unsort {κ} : (P : A → Type κ) (l : List A) → All P (sort l) → All P l
  unfolding sort
  All-unsort P [] h = tt
  All-unsort P (x ∷ xs) h = let h' = All-uninsert P x (sort xs) h in (h'.0, All-unsort P xs h'.1)

  -- Every test counts the same elements before and behind a sort.
  pub count_if-insert :
      (p : A → Bool) (x : A) (l : List A) → count_if p (insert x l) ≡ count_if p (x ∷ l)
  unfolding insert
  count_if-insert p x [] = refl
  count_if-insert p x (y ∷ ys) = ground (arith, count_if-insert p x ys)

  pub count_if-sort : (p : A → Bool) (l : List A) → count_if p (sort l) ≡ count_if p l
  unfolding sort
  count_if-sort p [] = refl
  count_if-sort p (x ∷ xs) = ground (arith, count_if-insert p x (sort xs), count_if-sort p xs)

  module _ (total : (x y : A) → le x y ≡ false → le y x ≡ true)
      (trans : (x y z : A) → le x y ≡ true → le y z ≡ true → le x z ≡ true) where
    All-le_trans :
        (x y : A) (l : List A)
        → le x y ≡ true
        → All (λ z. le y z ≡ true) l
        → All (λ z. le x z ≡ true) l
    All-le_trans x y [] e h = tt
    All-le_trans x y (z ∷ l) e h = (trans x y z e h.0, All-le_trans x y l e h.1)

    insert-IsSorted : (x : A) (l : List A) → IsSorted l → IsSorted (insert x l)
    unfolding insert
    insert-IsSorted x [] s = (tt, tt)
    insert-IsSorted x (y ∷ ys) s = elim (Bool-cases (le x y)) [
      | inl e ↦ rw e ((e, All-le_trans x y ys e s.0), s)
      | inr e ↦
          rw e (All-insert (λ z. le y z ≡ true) x ys (total x y e) s.0, insert-IsSorted x ys s.1)
    ]

    pub sort-IsSorted : (l : List A) → IsSorted (sort l)
    unfolding sort
    sort-IsSorted [] = tt
    sort-IsSorted (x ∷ xs) = insert-IsSorted x (sort xs) (sort-IsSorted xs)

    -- Elements that are not tied can be inserted in any order.
    module _ (x y : A) (untied : le x y ≡ true → le y x ≡ false) where
      insert_comm : (l : List A) → insert x (insert y l) ≡ insert y (insert x l)
      unfolding insert
      insert_comm [] = ground (arith, untied, total x y, total y x)
      insert_comm (z ∷ l) = ground (
        arith,
        untied,
        total x y,
        total y x,
        trans x y z,
        trans y x z,
        total x z,
        total y z,
        insert_comm l,
      )

    -- No two elements at different places are tied.
    abbrev pub Untied : List A → Type 0
    Untied [] = Unit
    Untied (x ∷ xs) = All (λ y. le x y ≡ true → le y x ≡ false) xs × Untied xs

    All-perm : (P : A → Type 0) {xs ys : List A} → Permᴰ xs ys → All P xs → All P ys
    All-perm P Permᴰ.nil h = h
    All-perm P (Permᴰ.cons e p) h = (subst P e h.0, All-perm P p h.1)
    All-perm P (Permᴰ.swap d e) h = (subst P e h.1.0, (subst P d h.0, h.1.1))
    All-perm P (Permᴰ.trans p q) h = All-perm P q (All-perm P p h)

    Untied-perm : {xs ys : List A} → Permᴰ xs ys → Untied xs → Untied ys
    Untied-perm Permᴰ.nil u = u
    Untied-perm (Permᴰ.cons {l₂ = ys} e p) u = (
      subst (λ a. All (λ y. le a y ≡ true → le y a ≡ false) ys) e
          (All-perm (λ y. le _ y ≡ true → le y _ ≡ false) p u.0),
      Untied-perm p u.1,
    )
    Untied-perm (Permᴰ.swap {a = a} {b = b} {a' = a'} {b' = b'} {l = l} d e) u = (
      (
        ground (arith, u.0.0, d, e),
        subst (λ z. All (λ y. le z y ≡ true → le y z ≡ false) l) e u.1.0,
      ),
      (subst (λ z. All (λ y. le z y ≡ true → le y z ≡ false) l) d u.0.1, u.1.1),
    )
    Untied-perm (Permᴰ.trans p q) u = Untied-perm q (Untied-perm p u)

    -- Without ties the sorted list does not depend on the order of the input.
    pub sort-eq_of_perm : {xs ys : List A} → Permᴰ xs ys → Untied xs → sort xs ≡ sort ys
    unfolding sort
    sort-eq_of_perm Permᴰ.nil u = refl
    sort-eq_of_perm (Permᴰ.cons e p) u = cc (sort-eq_of_perm p u.1)
    sort-eq_of_perm (Permᴰ.swap {a = a} {b = b} {l = l} d e) u = cc (insert_comm a b u.0.0 (sort l))
    sort-eq_of_perm (Permᴰ.trans p q) u = sort-eq_of_perm p u ∙ sort-eq_of_perm q (Untied-perm p u)
