-- ===== src/Cards/Resolved.antt =====
-- What is left of a set of identifiers when each is looked up: the cards of api/static/cards.js.
use mathlib.Core.Path.{subst}
use hufi_agents.Prelude.{
  String, ◌≡◌, sym, ap, ◌∙◌, inl, inr, false, List, [], ◌∷◌, Option, none, some, Option-cases, ◌=ˢ◌,
  map, map_some, At, here, there, At-inv, All, arith,
}
use hufi_agents.Cards.Sets.{IsDistinct}

module _ {A : Type 0} (f : String → Option A) where
  pub At-map_some :
      (l : List String) (x : String) (a : A) → At x l → f x ≡ some a → At a (map_some f l)
  At-map_some (x ∷ l) y a m e = elim (Option-cases (f x)) [
    | inl n ↦ elim (At-inv m) [
      | inl q ↦ absurd (ground (arith, n, subst (λ z. f z ≡ some a) q e))
      | inr k ↦ rw (n, map_some) (At-map_some l y a k e)
    ]
    | inr (b, n) ↦ elim (At-inv m) [
      | inl q ↦
          let same : a ≡ b =
            ap (λ (o : Option A). elim o [ none ↦ a | some z ↦ z ])
              (sym (subst (λ z. f z ≡ some a) q e) ∙ n) in
          rw (n, map_some) (subst (λ z. At z (b ∷ map_some f l)) (sym same) here)
      | inr k ↦ rw (n, map_some) (there (At-map_some l y a k e))
    ]
  ]
  At-map_some [] y a m e = elim m [ ]

  pub At-of_map_some :
      (l : List String) (a : A) → At a (map_some f l) → (x : String) × At x l × (f x ≡ some a)
  At-of_map_some [] a m = elim m [ ]
  At-of_map_some (x ∷ l) a m = elim (Option-cases (f x)) [
    | inl n ↦ let (y, k, e) = At-of_map_some l a (rw (n, map_some) at m) in (y, there k, e)
    | inr (b, n) ↦ elim (At-inv (rw (n, map_some) at m)) [
      | inl q ↦ (x, here, n ∙ ap (λ z. some z) (sym q))
      | inr k ↦ let (y, j, e) = At-of_map_some l a k in (y, there j, e)
    ]
  ]

  module _ (id : A → String) (same : (x : String) (a : A) → f x ≡ some a → id a ≡ x) where
    others :
        (x : String) (l : List String)
        → All (λ y. (x =ˢ y) ≡ false) l
        → All (λ y. (x =ˢ y) ≡ false) (map id (map_some f l))
    others x [] h = tt
    others x (y ∷ l) h = elim (Option-cases (f y)) [
      | inl n ↦ rw (n, map_some) (others x l h.1)
      | inr (b, n) ↦ rw (n, map_some, same y b n) (h.0, others x l h.1)
    ]

    pub IsDistinct-map_some : (l : List String) → IsDistinct l → IsDistinct (map id (map_some f l))
    IsDistinct-map_some [] h = tt
    IsDistinct-map_some (x ∷ l) h = elim (Option-cases (f x)) [
      | inl n ↦ rw (n, map_some) (IsDistinct-map_some l h.1)
      | inr (b, n) ↦ rw (n, map_some, same x b n) (others x l h.0, IsDistinct-map_some l h.1)
    ]
