-- ===== src/Agents/Slugged.antt =====
-- The identifier that api/static/agents.js makes of the name of a new agent.
use hufi_agents.Prelude.{
  ℕ, ◌≡◌, refl, ◌⊎◌, inl, inr, Bool, true, false, not, ◌&&◌, Bool-cases, [], ◌∷◌, ◌==◌,
  if◌then◌else◌, arith,
}
use hufi_agents.Js.Text.{Text, to_lower_case}
use hufi_agents.Js.Regex.Runs.{squeeze, replace_all-squeeze}
use hufi_agents.Js.Regex.Ends.{drop_last, drop_outer, replace_all-drop_outer}
use hufi_agents.Agents.Slug.{is_plain, is_other, slug}

abbrev is_dash : ℕ → Bool
is_dash x = x == b'-'

-- Whether lower-case letters and digits stand in words joined by single dashes, after a dash or not.
abbrev pub joined : (dash : Bool) → Text → Bool
joined dash [] = not dash
joined dash (c ∷ t) =
    if is_plain c then joined false t else c == b'-' && (not dash && joined true t)

-- Words of lower-case ASCII letters and digits, joined by single dashes; or no word at all.
abbrev pub is_slug : Text → Bool
is_slug [] = true
is_slug (c ∷ t) = joined true (c ∷ t)

plain_no_dash : (c : ℕ) → is_plain c ≡ true → (c == b'-') ≡ false
plain_no_dash c h = ground arith

-- What follows a word, and what follows a run of other units.
record Joins (s : Text) : Type 0 where
  word : joined false (drop_last is_dash (squeeze is_other b'-' false s)) ≡ true
  gap :
      (squeeze is_other b'-' true s ≡ [])
      ⊎ (joined true (drop_last is_dash (squeeze is_other b'-' true s)) ≡ true)

dash_step :
    (t : Text)
    → joined true (drop_last is_dash t) ≡ true
    → joined false (drop_last is_dash (b'-' ∷ t)) ≡ true
dash_step [] h = refl
dash_step (y ∷ t) h = h

after_word :
    (t : Text)
    → (t ≡ []) ⊎ (joined true (drop_last is_dash t) ≡ true)
    → joined false (drop_last is_dash (b'-' ∷ t)) ≡ true
after_word t (inl n) = rw n refl
after_word t (inr h) = dash_step t h

squeeze-Joins : (s : Text) → Joins s
squeeze-Joins [] = record { word = refl; gap = inl refl }
squeeze-Joins (x ∷ xs) = elim (Bool-cases (is_plain x)) [
  | inl e ↦
      let d = plain_no_dash x e in
      let i = squeeze-Joins xs in
      record { word = rw (e, d) (rw e i.word); gap = inr (rw (e, d) (rw e i.word)) }
  | inr e ↦
      let i = squeeze-Joins xs in
      record { word = rw e (after_word (squeeze is_other b'-' true xs) i.gap); gap = rw e i.gap }
]

joined-is_slug : (t : Text) → joined true t ≡ true → is_slug t ≡ true
joined-is_slug [] h = refl
joined-is_slug (c ∷ t) h = h

slug_shape :
    (name : Text)
    → slug name ≡ drop_outer is_dash (squeeze is_other b'-' false (to_lower_case name))
unfolding slug
slug_shape name =
    rw (replace_all-squeeze is_other b'-' (to_lower_case name))
      (replace_all-drop_outer is_dash (squeeze is_other b'-' false (to_lower_case name)))

outer-is_slug : (s : Text) → is_slug (drop_outer is_dash (squeeze is_other b'-' false s)) ≡ true
outer-is_slug [] = refl
outer-is_slug (x ∷ xs) = elim (Bool-cases (is_plain x)) [
  | inl e ↦ rw (e, plain_no_dash x e) (rw e (squeeze-Joins xs).word)
  | inr e ↦ rw e (gap_slug (squeeze is_other b'-' true xs) (squeeze-Joins xs).gap)
]
  where
    gap_slug :
        (t : Text)
        → (t ≡ []) ⊎ (joined true (drop_last is_dash t) ≡ true)
        → is_slug (drop_last is_dash t) ≡ true
    gap_slug t (inl n) = rw n refl
    gap_slug t (inr h) = joined-is_slug (drop_last is_dash t) h

-- Whatever the name, the identifier consists of words of lower-case ASCII letters and digits that are
-- joined by single dashes, with no dash at either end; it may be empty.
pub slug_lem : (name : Text) → is_slug (slug name) ≡ true
slug_lem name = rw (slug_shape name) (outer-is_slug (to_lower_case name))
