-- ===== src/Prelude/Lists.antt =====
-- Lists counted by the native numbers, and the array methods that the program calls.
use Prim.Native.Nat.{ℕ, zero, suc, ◌+◌, ◌<◌}
use mathlib.Core.Path.{◌≡◌, refl, ap}
use mathlib.Core.Logic.{◌⊎◌, inl, inr}
use mathlib.Core.Bool.{Bool, true, false, ◌||◌, ◌&&◌}
use mathlib.Core.Option.{Option, none, some}
use mathlib.Core.List.{List, [], ◌∷◌, ◌++◌}
use native.Mathlib.Omega.{arith}
use hufi_agents.Prelude.Tests.{if◌then◌else◌, Bool-cases}

module _ {ℓ} {A : Type ℓ} where
  abbrev pub length : List A → ℕ
  length [] = 0
  length (x ∷ xs) = suc (length xs)

  abbrev pub get_elem? : List A → ℕ → Option A
  get_elem? [] i = none
  get_elem? (x ∷ xs) zero = some x
  get_elem? (x ∷ xs) (suc i) = get_elem? xs i

  abbrev pub take : ℕ → List A → List A
  take zero xs = []
  take (suc n) [] = []
  take (suc n) (x ∷ xs) = x ∷ take n xs

  abbrev pub remove_at : ℕ → List A → List A
  remove_at i [] = []
  remove_at zero (x ∷ xs) = xs
  remove_at (suc i) (x ∷ xs) = x ∷ remove_at i xs

  abbrev pub replace_at : ℕ → A → List A → List A
  replace_at i a [] = []
  replace_at zero a (x ∷ xs) = a ∷ xs
  replace_at (suc i) a (x ∷ xs) = x ∷ replace_at i a xs

  pub get_elem?_of_lt : (xs : List A) (i : ℕ) → i < length xs → (a : A) × (get_elem? xs i ≡ some a)
  get_elem?_of_lt [] i h = absurd (omega arith)
  get_elem?_of_lt (x ∷ xs) zero h = (x, refl)
  get_elem?_of_lt (x ∷ xs) (suc i) h = get_elem?_of_lt xs i (omega arith)

  -- `find`
  abbrev pub find : (A → Bool) → List A → Option A
  find p [] = none
  find p (x ∷ xs) = if p x then some x else find p xs

  -- `filter`
  abbrev pub select : (A → Bool) → List A → List A
  select p [] = []
  select p (x ∷ xs) = if p x then x ∷ select p xs else select p xs

  -- `some`
  abbrev pub any : (A → Bool) → List A → Bool
  any p [] = false
  any p (x ∷ xs) = p x || any p xs

  abbrev pub all : (A → Bool) → List A → Bool
  all p [] = true
  all p (x ∷ xs) = p x && all p xs

  pub length-append : (xs ys : List A) → length (xs ++ ys) ≡ length xs + length ys
  length-append [] ys = omega arith
  length-append (x ∷ xs) ys = omega (arith, length-append xs ys)

  pub take-append : (xs ys : List A) → take (length xs) (xs ++ ys) ≡ xs
  take-append [] ys = refl
  take-append (x ∷ xs) ys = ap (λ l. x ∷ l) (take-append xs ys)

  pub find_sound : (p : A → Bool) (xs : List A) {a : A} → find p xs ≡ some a → p a ≡ true
  find_sound p [] h = ground arith
  find_sound p (x ∷ xs) {a} h = ground (arith, λ (k : find p xs ≡ some a). find_sound p xs k)

  pub select-append :
      (p : A → Bool) (xs ys : List A) → select p (xs ++ ys) ≡ select p xs ++ select p ys
  select-append p [] ys = refl
  select-append p (x ∷ xs) ys = ground (arith, select-append p xs ys)

module _ {ℓ κ} {A : Type ℓ} {B : Type κ} where
  -- `map(f).filter(Boolean)`
  abbrev pub map_some : (A → Option B) → List A → List B
  map_some f [] = []
  map_some f (x ∷ xs) = elim (f x) [ none ↦ map_some f xs | some b ↦ b ∷ map_some f xs ]

module _ {ℓ κ} {A : Type ℓ} (P : A → Type κ) where
  abbrev pub All : List A → Type κ
  All [] = Unit
  All (x ∷ xs) = P x × All xs

  pub All-append : (xs ys : List A) → All xs → All ys → All (xs ++ ys)
  All-append [] ys h k = k
  All-append (x ∷ xs) ys h k = (h.0, All-append xs ys h.1 k)

  pub All-remove_at : (i : ℕ) (xs : List A) → All xs → All (remove_at i xs)
  All-remove_at i [] h = tt
  All-remove_at zero (x ∷ xs) h = h.1
  All-remove_at (suc i) (x ∷ xs) h = (h.0, All-remove_at i xs h.1)

  pub All-select : (p : A → Bool) (xs : List A) → All xs → All (select p xs)
  All-select p [] h = tt
  All-select p (x ∷ xs) h = elim (Bool-cases (p x)) [
    | inl e ↦ rw e (h.0, All-select p xs h.1)
    | inr e ↦ rw e (All-select p xs h.1)
  ]

  pub All-select_holds :
      (p : A → Bool) → ((x : A) → p x ≡ true → P x) → (xs : List A) → All (select p xs)
  All-select_holds p k [] = tt
  All-select_holds p k (x ∷ xs) = elim (Bool-cases (p x)) [
    | inl e ↦ rw e (k x e, All-select_holds p k xs)
    | inr e ↦ rw e (All-select_holds p k xs)
  ]

pub data At {ℓ} {A : Type ℓ} (a : A) : List A → Type ℓ where
  here : {xs : List A} → At a (a ∷ xs)
  there : {x : A} {xs : List A} → At a xs → At a (x ∷ xs)

pub All_at {ℓ κ} : {A : Type ℓ} (P : A → Type κ) {a : A} {xs : List A} → All P xs → At a xs → P a
All_at P h here = h.0
All_at P h (there m) = All_at P h.1 m

module _ {ℓ} {A : Type ℓ} where
  pub At-inv : {a x : A} {xs : List A} → At a (x ∷ xs) → (a ≡ x) ⊎ At a xs
  At-inv here = inl refl
  At-inv (there m) = inr m

  pub At-append_left : {a : A} {xs : List A} (ys : List A) → At a xs → At a (xs ++ ys)
  At-append_left ys here = here
  At-append_left ys (there m) = there (At-append_left ys m)

  pub At-append_right : (xs : List A) {a : A} {ys : List A} → At a ys → At a (xs ++ ys)
  At-append_right [] m = m
  At-append_right (x ∷ xs) m = there (At-append_right xs m)

  pub At-append_cases : (xs : List A) {a : A} {ys : List A} → At a (xs ++ ys) → At a xs ⊎ At a ys
  At-append_cases [] m = inr m
  At-append_cases (x ∷ xs) here = inl here
  At-append_cases (x ∷ xs) (there m) = elim (At-append_cases xs m) [
    | inl h ↦ inl (there h)
    | inr h ↦ inr h
  ]

  pub At-select : (p : A → Bool) {a : A} {xs : List A} → At a xs → p a ≡ true → At a (select p xs)
  At-select p here h = rw h here
  At-select p {xs = x ∷ xs} (there m) h = elim (Bool-cases (p x)) [
    | inl e ↦ rw e (there (At-select p m h))
    | inr e ↦ rw e (At-select p m h)
  ]

  pub At-of_select :
      (p : A → Bool) (xs : List A) {a : A} → At a (select p xs) → At a xs × (p a ≡ true)
  At-of_select p [] m = elim m [ ]
  At-of_select p (x ∷ xs) {a} m = elim (Bool-cases (p x)) [
    | inl e ↦ elim (At-inv (rw e at m)) [
      | inl q ↦ (rw q here, rw q e)
      | inr n ↦ let h = At-of_select p xs n in (there h.0, h.1)
    ]
    | inr e ↦ let h = At-of_select p xs (rw e at m) in (there h.0, h.1)
  ]
