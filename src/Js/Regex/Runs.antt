-- ===== src/Js/Regex/Runs.antt =====
-- Replacing each run of units of one kind by a single unit.
use hufi_agents.Prelude.{
  ℕ, zero, suc, ◌≤◌, ◌<◌, ◌≡◌, refl, ◌∙◌, ap, inl, inr, Bool, true, false, Bool-cases, [], ◌∷◌,
  some, none, ltb, if◌then◌else◌, length, arith,
}
use hufi_agents.Js.Text.{Text}
use hufi_agents.Js.Regex.{unit, run, many}
use hufi_agents.Js.Regex.Patterns.{plus}
use hufi_agents.Js.Regex.Search.{at, replace_from, replace_all}

module _ (p : ℕ → Bool) where
  pub drop_while : Text → Text
  drop_while [] = []
  drop_while (x ∷ xs) = if p x then drop_while xs else x ∷ xs

  push_while : Text → Text → Text
  push_while b [] = b
  push_while b (x ∷ xs) = if p x then push_while (x ∷ b) xs else b

  length-drop_while : (s : Text) → length (drop_while s) ≤ length s
  unfolding drop_while
  length-drop_while [] = omega arith
  length-drop_while (x ∷ xs) = ground (arith, length-drop_while xs)

  shorter : (s : Text) → ltb (length s) (suc (length s)) ≡ true
  shorter s = ground arith

  many-unit :
      (n : ℕ) (b s : Text)
      → length s ≤ n
      → many (run (unit p)) n (at b s) some ≡ some (at (push_while b s) (drop_while s))
  unfolding many run drop_while push_while
  many-unit zero b [] h = refl
  many-unit zero b (x ∷ xs) h = absurd (omega arith)
  many-unit (suc n) b [] h = refl
  many-unit (suc n) b (x ∷ xs) h = elim (Bool-cases (p x)) [
    | inl e ↦ rw (e, shorter xs, many-unit n (x ∷ b) xs (omega arith)) refl
    | inr e ↦ rw e refl
  ]

  -- Each run as one unit; `inside` is whether the unit before belongs to a run.
  abbrev pub squeeze : ℕ → (inside : Bool) → Text → Text
  squeeze d inside [] = []
  squeeze d inside (x ∷ xs) =
      if p x
      then (if inside then squeeze d true xs else d ∷ squeeze d true xs)
      else x ∷ squeeze d false xs

  squeeze-drop_while : (d : ℕ) (s : Text) → squeeze d false (drop_while s) ≡ squeeze d true s
  unfolding drop_while
  squeeze-drop_while d [] = refl
  squeeze-drop_while d (x ∷ xs) = elim (Bool-cases (p x)) [
    | inl e ↦ rw e (squeeze-drop_while d xs)
    | inr e ↦ rw e (rw e refl)
  ]

  run-plus :
      (b xs : Text) (x : ℕ)
      → p x ≡ true
      → run (plus (unit p)) (at b (x ∷ xs)) some ≡ some (at (push_while (x ∷ b) xs) (drop_while xs))
  unfolding run
  run-plus b xs x e = rw e (many-unit (length xs) (x ∷ b) xs (omega arith))

  run-plus_other :
      (b xs : Text) (x : ℕ) → p x ≡ false → run (plus (unit p)) (at b (x ∷ xs)) some ≡ none
  unfolding run
  run-plus_other b xs x e = rw e refl

  replace-squeeze :
      (d n : ℕ) (b s : Text)
      → length s < n
      → replace_from n (plus (unit p)) (λ _. d ∷ []) b s ≡ squeeze d false s
  unfolding replace_from run
  replace-squeeze d zero b s h = absurd (omega arith)
  replace-squeeze d (suc n) b [] h = refl
  replace-squeeze d (suc n) b (x ∷ xs) h = elim (Bool-cases (p x)) [
    | inl e ↦
        let le : length (drop_while xs) ≤ length xs = length-drop_while xs in
        let fits : ltb (length (drop_while xs)) (suc (length xs)) ≡ true = ground arith in
        rw (run-plus b xs x e, e, fits)
          (ap (λ t. d ∷ t)
            (replace-squeeze d n (push_while (x ∷ b) xs) (drop_while xs) (omega arith)
              ∙ squeeze-drop_while d xs))
    | inr e ↦
        rw (run-plus_other b xs x e, e)
          (ap (λ t. x ∷ t) (replace-squeeze d n (x ∷ b) xs (omega arith)))
  ]

  -- `s.replace(/p+/g, d)` puts one unit for each run.
  pub replace_all-squeeze :
      (d : ℕ) (s : Text) → replace_all (plus (unit p)) (λ _. d ∷ []) s ≡ squeeze d false s
  unfolding replace_all
  replace_all-squeeze d s = replace-squeeze d (suc (length s)) [] s (omega arith)
