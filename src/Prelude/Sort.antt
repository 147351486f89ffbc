-- ===== src/Prelude/Sort.antt =====
-- The stable sort of arrays by a comparison, as `sort` does it, and what it keeps.
use mathlib.Core.Path.{◌≡◌, refl, ap, ◌∙◌}
use mathlib.Core.Logic.{inl, inr}
use mathlib.Core.Bool.{Bool, true, false}
use mathlib.Core.List.{List, [], ◌∷◌}
use hufi_agents.Prelude.Tests.{if◌then◌else◌, Bool-cases}
use hufi_agents.Prelude.Lists.{select, All}

module _ {ℓ} {A : Type ℓ} (le : A → A → Bool) where
  abbrev pub insert_sorted : A → List A → List A
  insert_sorted x [] = x ∷ []
  insert_sorted x (y ∷ ys) = if le x y then x ∷ y ∷ ys else y ∷ insert_sorted x ys

  -- `le x y`: the comparison does not put y before x.
  unfoldable pub sort_with : List A → List A
  sort_with [] = []
  sort_with (x ∷ xs) = insert_sorted x (sort_with xs)

  -- Each item stands before all that follow it.
  abbrev pub IsSorted : List A → Type ℓ
  IsSorted [] = Unit
  IsSorted (x ∷ xs) = All (λ y. le x y ≡ true) xs × IsSorted xs

  -- The comparison is total and transitive.
  pub record IsOrder : Type ℓ where
    pub total : (x y : A) → le x y ≡ false → le y x ≡ true
    pub trans : (x y z : A) → le x y ≡ true → le y z ≡ true → le x z ≡ true

  module _ (o : IsOrder) where
    All-insert :
        (b x : A) (ys : List A)
        → le b x ≡ true
        → All (λ y. le b y ≡ true) ys
        → All (λ y. le b y ≡ true) (insert_sorted x ys)
    All-insert b x [] h k = (h, tt)
    All-insert b x (y ∷ ys) h k = elim (Bool-cases (le x y)) [
      | inl e ↦ rw e (h, k)
      | inr e ↦ rw e (k.0, All-insert b x ys h k.1)
    ]

    All-le :
        (x y : A) (ys : List A)
        → le x y ≡ true
        → All (λ z. le y z ≡ true) ys
        → All (λ z. le x z ≡ true) ys
    All-le x y [] h k = tt
    All-le x y (z ∷ ys) h k = (o.trans x y z h k.0, All-le x y ys h k.1)

    insert-IsSorted : (x : A) (ys : List A) → IsSorted ys → IsSorted (insert_sorted x ys)
    insert-IsSorted x [] h = (tt, tt)
    insert-IsSorted x (y ∷ ys) h = elim (Bool-cases (le x y)) [
      | inl e ↦ rw e ((e, All-le x y ys e h.0), h)
      | inr e ↦ rw e (All-insert y x ys (o.total x y e) h.0, insert-IsSorted x ys h.1)
    ]

    pub sort-IsSorted : (l : List A) → IsSorted (sort_with l)
    unfolding sort_with
    sort-IsSorted [] = tt
    sort-IsSorted (x ∷ xs) = insert-IsSorted x (sort_with xs) (sort-IsSorted xs)

  -- A test that tells apart only what the comparison tells apart.
  abbrev pub Respects : (A → Bool) → Type ℓ
  Respects p = (x y : A) → p x ≡ true → p y ≡ true → le x y ≡ true

  select-insert :
      (p : A → Bool)
      → Respects p
      → (x : A) (ys : List A) → select p (insert_sorted x ys) ≡ select p (x ∷ ys)
  select-insert p r x [] = refl
  select-insert p r x (y ∷ ys) = elim (Bool-cases (le x y)) [
    | inl e ↦ rw e refl
    | inr e ↦ rw e (passed (p y) refl (select-insert p r x ys) e)
  ]
    where
      passed :
          (b : Bool)
          → p y ≡ b
          → select p (insert_sorted x ys) ≡ select p (x ∷ ys)
          → le x y ≡ false
          → (if b then y ∷ select p (insert_sorted x ys) else select p (insert_sorted x ys)) ≡ (
              if p x
              then x ∷ (if b then y ∷ select p ys else select p ys)
              else (if b then y ∷ select p ys else select p ys))
      passed false q ih e = ih
      passed true q ih e = elim (Bool-cases (p x)) [
        | inl k ↦ let h : le x y ≡ true = r x y k q in cc
        | inr k ↦ rw k (ap (λ l. y ∷ l) (rw k at ih))
      ]

  -- The items of such a test are those of the list, in their order there.
  pub select-sort : (p : A → Bool) → Respects p → (l : List A) → select p (sort_with l) ≡ select p l
  unfolding sort_with
  select-sort p r [] = refl
  select-sort p r (x ∷ xs) =
      select-insert p r x (sort_with xs) ∙ ap (λ l. if p x then x ∷ l else l) (select-sort p r xs)
