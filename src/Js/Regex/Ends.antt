-- ===== src/Js/Regex/Ends.antt =====
-- Taking one unit of a kind from either end of a text.
use hufi_agents.Prelude.{
  ℕ, zero, suc, ◌<◌, ◌≡◌, refl, ap, inl, inr, Bool, true, false, ◌&&◌, Bool-cases, [], ◌∷◌, ltb,
  if◌then◌else◌, length, arith,
}
use hufi_agents.Js.Text.{Text}
use hufi_agents.Js.Regex.{Regex, start, finish, unit, seq, alt, run}
use hufi_agents.Js.Regex.Search.{replace_from, replace_all}

module _ (p : ℕ → Bool) where
  -- `^p|p$`
  abbrev pub outer : Regex
  outer = alt (seq start (unit p)) (seq (unit p) finish)

  abbrev nil : Text → Bool
  nil [] = true
  nil (_ ∷ _) = false

  -- Without such a unit at the end.
  abbrev pub drop_last : Text → Text
  drop_last [] = []
  drop_last (x ∷ xs) = if p x && nil xs then [] else x ∷ drop_last xs

  -- Without such a unit at either end.
  abbrev pub drop_outer : Text → Text
  drop_outer [] = []
  drop_outer (x ∷ xs) = if p x then drop_last xs else x ∷ drop_last xs

  inner :
      (n c : ℕ) (b s : Text) → length s < n → replace_from n outer (λ _. []) (c ∷ b) s ≡ drop_last s
  unfolding replace_from run
  inner zero c b s h = absurd (omega arith)
  inner (suc n) c b [] h = refl
  inner (suc n) c b (x ∷ []) h = elim (Bool-cases (p x)) [
    | inl e ↦ rw e (inner n x (c ∷ b) [] (omega arith))
    | inr e ↦ rw e (ap (λ t. x ∷ t) (inner n x (c ∷ b) [] (omega arith)))
  ]
  inner (suc n) c b (x ∷ y ∷ xs) h = elim (Bool-cases (p x)) [
    | inl e ↦ rw e (ap (λ t. x ∷ t) (inner n x (c ∷ b) (y ∷ xs) (omega arith)))
    | inr e ↦ rw e (ap (λ t. x ∷ t) (inner n x (c ∷ b) (y ∷ xs) (omega arith)))
  ]

  shorter : (s : Text) → ltb (length s) (suc (length s)) ≡ true
  shorter s = ground arith

  pub replace_all-drop_outer : (s : Text) → replace_all outer (λ _. []) s ≡ drop_outer s
  unfolding replace_all replace_from run
  replace_all-drop_outer [] = refl
  replace_all-drop_outer (x ∷ xs) = elim (Bool-cases (p x)) [
    | inl e ↦ rw (e, shorter xs) (inner (suc (length xs)) x [] xs (omega arith))
    | inr e ↦ rw e (ap (λ t. x ∷ t) (inner (suc (length xs)) x [] xs (omega arith)))
  ]
