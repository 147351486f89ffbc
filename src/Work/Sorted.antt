-- ===== src/Work/Sorted.antt =====
-- The order in which api/static/work.js shows the evidence.
use hufi_agents.Prelude.{
  ℕ, ◌≡◌, ◌≤◌, refl, ◌∙◌, Bool-cases, inl, inr, List, [], ◌∷◌, leb, ◌==◌, All, select, arith,
}
use hufi_agents.Work.Evidence.{Evidence, time_of, insert_newest, newest_first}

-- Each item is at least as new as all that follow it.
abbrev pub IsNewestFirst : List Evidence → Type 0
IsNewestFirst [] = Unit
IsNewestFirst (x ∷ xs) = All (λ y. time_of y ≤ time_of x) xs × IsNewestFirst xs

All-insert :
    {b : ℕ} (x : Evidence) (ys : List Evidence)
    → time_of x ≤ b
    → All (λ y. time_of y ≤ b) ys
    → All (λ y. time_of y ≤ b) (insert_newest x ys)
All-insert x [] h k = (h, tt)
All-insert x (y ∷ ys) h k = elim (Bool-cases (leb (time_of y) (time_of x))) [
  | inl e ↦ rw e (h, k)
  | inr e ↦ rw e (k.0, All-insert x ys h k.1)
]

All-weaken :
    {a b : ℕ} (ys : List Evidence)
    → a ≤ b
    → All (λ y. time_of y ≤ a) ys
    → All (λ y. time_of y ≤ b) ys
All-weaken [] h k = tt
All-weaken (y ∷ ys) h k = (omega (arith, k.0), All-weaken ys h k.1)

insert_newest-IsNewestFirst :
    (x : Evidence) (ys : List Evidence) → IsNewestFirst ys → IsNewestFirst (insert_newest x ys)
insert_newest-IsNewestFirst x [] h = (tt, tt)
insert_newest-IsNewestFirst x (y ∷ ys) h = elim (Bool-cases (leb (time_of y) (time_of x))) [
  | inl e ↦ let q : time_of y ≤ time_of x = ground arith in rw e ((q, All-weaken ys q h.0), h)
  | inr e ↦
      let q : time_of x ≤ time_of y = ground arith in
      rw e (All-insert x ys q h.0, insert_newest-IsNewestFirst x ys h.1)
]

-- The items of one time.
abbrev at_time : ℕ → List Evidence → List Evidence
at_time t = select (λ y. time_of y == t)

insert-at_time :
    (t : ℕ) (x : Evidence) (ys : List Evidence)
    → at_time t (insert_newest x ys) ≡ at_time t (x ∷ ys)
insert-at_time t x [] = refl
insert-at_time t x (y ∷ ys) = elim (Bool-cases (leb (time_of y) (time_of x))) [
  | inl e ↦ rw e refl
  | inr e ↦ ground (arith, insert-at_time t x ys)
]

newest_first-IsNewestFirst : (l : List Evidence) → IsNewestFirst (newest_first l)
unfolding newest_first
newest_first-IsNewestFirst [] = tt
newest_first-IsNewestFirst (x ∷ xs) =
    insert_newest-IsNewestFirst x (newest_first xs) (newest_first-IsNewestFirst xs)

newest_first-at_time : (t : ℕ) (l : List Evidence) → at_time t (newest_first l) ≡ at_time t l
unfolding newest_first
newest_first-at_time t [] = refl
newest_first-at_time t (x ∷ xs) =
    insert-at_time t x (newest_first xs) ∙ (ground (arith, newest_first-at_time t xs))

-- The evidence is put in an order with the newest first, and for each time the items of that time
-- are those of the answer, in their order there: nothing is lost, added or reordered needlessly.
pub newest_first_lem :
    (l : List Evidence)
    → IsNewestFirst (newest_first l)
      × ((t : ℕ) → select (λ y. time_of y == t) (newest_first l) ≡ select (λ y. time_of y == t) l)
newest_first_lem l = (newest_first-IsNewestFirst l, λ t. newest_first-at_time t l)
