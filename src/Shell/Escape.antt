-- ===== src/Shell/Escape.antt =====
-- `Hufi.esc` of api/static/app.js.
use hufi_agents.Prelude.{
  ℕ, zero, suc, ◌≡◌, ◌≤◌, ◌+◌, refl, ap, ◌∙◌, inl, inr, Bool-cases, false, ◌||◌, ◌==◌, ==_iff, [],
  ◌∷◌, ◌++◌, Option, none, some, length, All, All-append, if◌then◌else◌, arith,
}
use hufi_agents.Js.Text.{Text, units}

-- The replacement of one unit.
abbrev pub entity : ℕ → Text
entity c =
    if c == b'&'
    then units "&amp;"
    else if c == b'<'
    then units "&lt;"
    else if c == b'>'
    then units "&gt;"
    else if c == b'"'
    then units "&quot;"
    else if c == 39
    then units "&#39;"
    else c ∷ []

unfoldable pub esc : Text → Text
esc [] = []
esc (c ∷ s) = entity c ++ esc s

-- The unit is none that ends a text or an attribute of a page.
abbrev pub IsPlain : ℕ → Type 0
IsPlain c = (c == b'<' || c == b'>' || c == b'"' || c == 39) ≡ false

abbrev strip : Text → Text → Option Text
strip [] s = some s
strip (x ∷ p) [] = none
strip (x ∷ p) (y ∷ s) = if x == y then strip p s else none

abbrev or_entity : ℕ → Option Text → Option (ℕ × Text) → Option (ℕ × Text)
or_entity c none o = o
or_entity c (some r) o = some (c, r)

-- A character reference at the start of a text, as a browser reads it: its unit, and the rest.
abbrev pub reference : Text → Option (ℕ × Text)
reference s = or_entity b'&' (strip (units "&amp;") s) (
    or_entity b'<' (strip (units "&lt;") s) (
      or_entity b'>' (strip (units "&gt;") s)
        (or_entity b'"' (strip (units "&quot;") s) (or_entity 39 (strip (units "&#39;") s) none))))

-- What a browser shows for a text: each reference becomes its unit.
pub decode : ℕ → Text → Text
decode zero s = s
decode (suc n) [] = []
decode (suc n) (c ∷ s) = elim (reference (c ∷ s)) [
  | some (x, r) ↦ x ∷ decode n r
  | none ↦ c ∷ decode n s
]

entity-All : (c : ℕ) → All IsPlain (entity c)
entity-All c = elim (Bool-cases (c == b'&')) [
  | inl e ↦ rw e (refl, (refl, (refl, (refl, (refl, tt)))))
  | inr e ↦ elim (Bool-cases (c == b'<')) [
    | inl f ↦ rw (e, f) (refl, (refl, (refl, (refl, tt))))
    | inr f ↦ elim (Bool-cases (c == b'>')) [
      | inl g ↦ rw (e, f, g) (refl, (refl, (refl, (refl, tt))))
      | inr g ↦ elim (Bool-cases (c == b'"')) [
        | inl h ↦ rw (e, f, g, h) (refl, (refl, (refl, (refl, (refl, (refl, tt))))))
        | inr h ↦ elim (Bool-cases (c == 39)) [
          | inl i ↦ rw (e, f, g, h, i) (refl, (refl, (refl, (refl, (refl, tt)))))
          | inr i ↦ rw (e, f, g, h, i) (rw (f, g, h, i) refl, tt)
        ]
      ]
    ]
  ]
]

esc-All : (s : Text) → All IsPlain (esc s)
unfolding esc
esc-All [] = tt
esc-All (c ∷ s) = All-append IsPlain (entity c) (esc s) (entity-All c) (esc-All s)

-- One step of the decoder reads back one escaped unit.
decode-entity : (n c : ℕ) (r : Text) → decode (suc n) (entity c ++ r) ≡ c ∷ decode n r
unfolding decode
decode-entity n c r = elim (Bool-cases (c == b'&')) [
  | inl e ↦ rw (==_iff c b'&' e) refl
  | inr e ↦ elim (Bool-cases (c == b'<')) [
    | inl f ↦ rw (==_iff c b'<' f) refl
    | inr f ↦ elim (Bool-cases (c == b'>')) [
      | inl g ↦ rw (==_iff c b'>' g) refl
      | inr g ↦ elim (Bool-cases (c == b'"')) [
        | inl h ↦ rw (==_iff c b'"' h) refl
        | inr h ↦ elim (Bool-cases (c == 39)) [
          | inl i ↦ rw (==_iff c 39 i) refl
          | inr i ↦ other e (rw (e, f, g, h, i) refl)
        ]
      ]
    ]
  ]
]
  where
    other :
        (c == b'&') ≡ false → entity c ≡ c ∷ [] → decode (suc n) (entity c ++ r) ≡ c ∷ decode n r
    other e q = rw q (ground arith)

decode-esc : (s : Text) (n : ℕ) → length s ≤ n → decode n (esc s) ≡ s
unfolding esc decode
decode-esc [] zero h = refl
decode-esc [] (suc n) h = refl
decode-esc (c ∷ s) zero h = absurd (omega (arith, h))
decode-esc (c ∷ s) (suc n) h =
    decode-entity n c (esc s) ∙ ap (λ t. c ∷ t) (decode-esc s n (omega (arith, h)))

-- An escaped text holds no angle bracket and no quote, so that it can neither open a tag nor end an
-- attribute, and a browser that reads the references back, a unit at a step, shows the text itself.
pub esc_lem : (s : Text) → All IsPlain (esc s) × ((k : ℕ) → decode (length s + k) (esc s) ≡ s)
esc_lem s = (esc-All s, λ k. decode-esc s (length s + k) (omega arith))
