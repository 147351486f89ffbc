-- ===== src/Cards/Sets.antt =====
-- What a card of api/static/cards.js gathers in a set: each identifier once, and none else.
use mathlib.Core.Path.{subst}
use hufi_agents.Prelude.{
  String, ◌≡◌, ◌⊎◌, inl, inr, true, false, Bool-cases, List, [], ◌∷◌, ◌++◌, ◌=ˢ◌, any, map, All,
  All-append, At, here, there, At-inv, At-append_left, At-append_right, At-append_cases, eq_iff,
  arith,
}
use hufi_agents.Cards.Lookup.{set_add, set_of, concat_map}

module _ {ℓ κ} {A : Type ℓ} {B : Type κ} (f : A → B) where
  pub At-map : {a : A} {l : List A} → At a l → At (f a) (map f l)
  At-map here = here
  At-map (there m) = there (At-map m)

  pub At-of_map : {b : B} (l : List A) → At b (map f l) → (a : A) × At a l × (b ≡ f a)
  At-of_map [] m = elim m [ ]
  At-of_map (x ∷ l) m = elim (At-inv m) [
    | inl e ↦ (x, here, e)
    | inr n ↦ let (a, k, e) = At-of_map l n in (a, there k, e)
  ]

module _ {ℓ κ} {A : Type ℓ} {B : Type κ} (f : A → List B) where
  pub At-concat_map : {a : A} {b : B} {l : List A} → At a l → At b (f a) → At b (concat_map f l)
  At-concat_map {l = []} m k = elim m [ ]
  At-concat_map {l = x ∷ l} here k = At-append_left (concat_map f l) k
  At-concat_map {l = x ∷ l} (there m) k = At-append_right (f x) (At-concat_map m k)

  pub At-of_concat_map :
      {b : B} (l : List A) → At b (concat_map f l) → (a : A) × At a l × At b (f a)
  At-of_concat_map [] m = elim m [ ]
  At-of_concat_map (x ∷ l) m = elim (At-append_cases (f x) m) [
    | inl k ↦ (x, here, k)
    | inr n ↦ let (a, i, k) = At-of_concat_map l n in (a, there i, k)
  ]

-- No identifier twice.
abbrev pub IsDistinct : List String → Type 0
IsDistinct [] = Unit
IsDistinct (x ∷ xs) = All (λ y. (x =ˢ y) ≡ false) xs × IsDistinct xs

any_sound : (id : String) (set : List String) → any (λ x. x =ˢ id) set ≡ true → At id set
any_sound id [] h = cc
any_sound id (x ∷ set) h = elim (Bool-cases (x =ˢ id)) [
  | inl e ↦ subst (λ y. At y (x ∷ set)) ((eq_iff x id).0 e) here
  | inr e ↦ there (any_sound id set (rw e at h))
]

any_none :
    (id : String) (set : List String)
    → any (λ x. x =ˢ id) set ≡ false
    → All (λ x. (x =ˢ id) ≡ false) set
any_none id [] h = tt
any_none id (x ∷ set) h = elim (Bool-cases (x =ˢ id)) [
  | inl e ↦ ground arith
  | inr e ↦ (e, any_none id set (rw e at h))
]

IsDistinct-append :
    (set : List String) (id : String)
    → IsDistinct set
    → All (λ x. (x =ˢ id) ≡ false) set
    → IsDistinct (set ++ id ∷ [])
IsDistinct-append [] id d h = (tt, tt)
IsDistinct-append (x ∷ set) id d h =
    (All-append _ set (id ∷ []) d.0 (h.0, tt), IsDistinct-append set id d.1 h.1)

IsDistinct-set_add :
    (set : List String) (id : String) → IsDistinct set → IsDistinct (set_add set id)
IsDistinct-set_add set id d = elim (Bool-cases (any (λ x. x =ˢ id) set)) [
  | inl e ↦ rw e d
  | inr e ↦ rw e (IsDistinct-append set id d (any_none id set e))
]

pub IsDistinct-set_of : (set ids : List String) → IsDistinct set → IsDistinct (set_of set ids)
unfolding set_of
IsDistinct-set_of set [] d = d
IsDistinct-set_of set (id ∷ ids) d =
    IsDistinct-set_of (set_add set id) ids (IsDistinct-set_add set id d)

set_add-old : {x : String} (set : List String) (id : String) → At x set → At x (set_add set id)
set_add-old set id m = elim (Bool-cases (any (λ y. y =ˢ id) set)) [
  | inl e ↦ rw e m
  | inr e ↦ rw e (At-append_left (id ∷ []) m)
]

set_add-new : (set : List String) (id : String) → At id (set_add set id)
set_add-new set id = elim (Bool-cases (any (λ y. y =ˢ id) set)) [
  | inl e ↦ rw e (any_sound id set e)
  | inr e ↦ rw e (At-append_right set here)
]

pub set_of-old : {x : String} (set ids : List String) → At x set → At x (set_of set ids)
unfolding set_of
set_of-old set [] m = m
set_of-old set (id ∷ ids) m = set_of-old (set_add set id) ids (set_add-old set id m)

pub set_of-new : {x : String} (set ids : List String) → At x ids → At x (set_of set ids)
unfolding set_of
set_of-new set [] m = elim m [ ]
set_of-new set (id ∷ ids) here = set_of-old (set_add set id) ids (set_add-new set id)
set_of-new set (id ∷ ids) (there m) = set_of-new (set_add set id) ids m

set_add-inv :
    {x : String} (set : List String) (id : String) → At x (set_add set id) → At x set ⊎ (x ≡ id)
set_add-inv set id m = elim (Bool-cases (any (λ y. y =ˢ id) set)) [
  | inl e ↦ inl (rw e at m)
  | inr e ↦ elim (At-append_cases set (rw e at m)) [
    | inl k ↦ inl k
    | inr k ↦ elim (At-inv k) [ inl q ↦ inr q | inr n ↦ elim n [ ] ]
  ]
]

pub set_of-inv : {x : String} (set ids : List String) → At x (set_of set ids) → At x set ⊎ At x ids
unfolding set_of
set_of-inv set [] m = inl m
set_of-inv {x} set (id ∷ ids) m = elim (set_of-inv (set_add set id) ids m) [
  | inl k ↦ elim (set_add-inv set id k) [ inl o ↦ inl o | inr e ↦ inr (rw e here) ]
  | inr k ↦ inr (there k)
]
