-- ===== src/Js/Regex/Derives.antt =====
-- What it means for a pattern to match from one place to another, with no search order in it.
use hufi_agents.Prelude.{ℕ, ◌≡◌, true, ◌⊎◌, [], ◌∷◌, ◌<◌, length}
use hufi_agents.Js.Text.{Text}
use hufi_agents.Js.Regex.{
  Regex, empty, start, finish, boundary, unit, seq, alt, star, lazy, group, not_ahead, Cursor,
  differ, word_at, captured,
}

-- Rounds of a repetition, each of which takes something.
pub data Rounds (R : Cursor → Cursor → Type 0) : Cursor → Cursor → Type 0 where
  enough : {s : Cursor} → Rounds R s s
  round : {s t u : Cursor} → R s t → length t.rest < length s.rest → Rounds R t u → Rounds R s u

abbrev pub Derives : Regex → Cursor → Cursor → Type 0
Derives empty s t = t ≡ s
Derives start s t = (s.before ≡ []) × (t ≡ s)
Derives finish s t = (s.rest ≡ []) × (t ≡ s)
Derives boundary s t = (differ (word_at s.before) (word_at s.rest) ≡ true) × (t ≡ s)
Derives (unit p) s t =
    (x : ℕ) × (xs : Text) × (s.rest ≡ x ∷ xs)
    × (p x ≡ true)
    × (t ≡ record s { before = x ∷ s.before; rest = xs })
Derives (seq a b) s t = (m : Cursor) × Derives a s m × Derives b m t
Derives (alt a b) s t = Derives a s t ⊎ Derives b s t
Derives (star r) s t = Rounds (Derives r) s t
Derives (lazy r) s t = Rounds (Derives r) s t
Derives (group i r) s t = (m : Cursor) × Derives r s m × (t ≡ captured i s m)
Derives (not_ahead r) s t = ((u : Cursor) → ¬ Derives r s u) × (t ≡ s)
