-- ===== src/Js/Regex/Found.antt =====
-- What a search finds: a match at some place of the text, and every text that has one.
use mathlib.Core.Path.{subst}
use mathlib.Core.Bool.{false≢true}
use hufi_agents.Prelude.{
  ℕ, ◌≡◌, ◌≢◌, refl, ◌⊎◌, inl, inr, true, [], ◌∷◌, Option, none, some, Option-cases, arith,
}
use hufi_agents.Js.Text.{Text}
use hufi_agents.Js.Regex.{Regex, Cursor, run}
use hufi_agents.Js.Regex.Derives.{Derives}
use hufi_agents.Js.Regex.Correct.{run-Correct}
use hufi_agents.Js.Regex.Search.{at, or_later, search, test, exec}

-- The places of a text, from one on.
pub data Place : Text → Text → Cursor → Type 0 where
  here : {b s : Text} → Place b s (at b s)
  later : {x : ℕ} {b s : Text} {c : Cursor} → Place (x ∷ b) s c → Place b (x ∷ s) c

abbrev pub Found : Regex → Text → Text → Cursor → Cursor → Type 0
Found r before rest c e = Place before rest c × Derives r c e

or_later-some :
    (c : Cursor) (o : Option Cursor) (l : Option (Cursor × Cursor)) (d e : Cursor)
    → or_later c o l ≡ some (d, e)
    → ((c ≡ d) × (o ≡ some e)) ⊎ (l ≡ some (d, e))
or_later-some c none l d e h = inr h
or_later-some c (some x) l d e h = inl (cc, cc)

or_later_here :
    (c : Cursor) (o : Option Cursor) (l : Option (Cursor × Cursor))
    → o ≢ none
    → or_later c o l ≢ none
or_later_here c none l n e = n refl
or_later_here c (some x) l n e = cc

or_later_later :
    (c : Cursor) (o : Option Cursor) (l : Option (Cursor × Cursor))
    → l ≢ none
    → or_later c o l ≢ none
or_later_later c none l n e = n e
or_later_later c (some x) l n e = cc

module _ (r : Regex) where
  run-Derives : (c e : Cursor) → run r c some ≡ some e → Derives r c e
  run-Derives c e h = let (u, d, q) = (run-Correct r).sound c some e h in subst (Derives r c) (cc) d

  Found-here :
      (b s : Text) (c e : Cursor) → (at b s ≡ c) × (run r (at b s) some ≡ some e) → Found r b s c e
  Found-here b s c e (p, q) = subst (λ d. Found r b s d e) p (here, run-Derives (at b s) e q)

  pub search-Found :
      (before rest : Text) (c e : Cursor)
      → search r before rest ≡ some (c, e)
      → Found r before rest c e
  unfolding search
  search-Found b [] c e h = elim (or_later-some (at b []) _ none c e h) [
    | inl q ↦ Found-here b [] c e q
    | inr q ↦ cc
  ]
  search-Found b (x ∷ xs) c e h =
      elim (or_later-some (at b (x ∷ xs)) (run r (at b (x ∷ xs)) some) (search r (x ∷ b) xs) c e
        h) [
          | inl q ↦ Found-here b (x ∷ xs) c e q
          | inr q ↦ let f = search-Found (x ∷ b) xs c e q in (later f.0, f.1)
        ]

  search_complete :
      {before rest : Text} {c : Cursor} (e : Cursor)
      → Place before rest c
      → Derives r c e
      → search r before rest ≢ none
  unfolding search
  search_complete {before} {rest} e here d =
      search_here before rest ((run-Correct r).complete (at before rest) e some d (λ q. cc))
    where
      search_here : (b s : Text) → run r (at b s) some ≢ none → search r b s ≢ none
      search_here b [] n = or_later_here _ _ none n
      search_here b (x ∷ xs) n = or_later_here _ _ _ n
  search_complete {rest = x ∷ xs} e (later p) d = or_later_later _ _ _ (search_complete e p d)

  -- A pattern is found in a text exactly when it matches from some place on.
  pub test_sound : (s : Text) → test r s ≡ true → (c : Cursor) × (e : Cursor) × Found r [] s c e
  unfolding test
  test_sound s h = elim (Option-cases (search r [] s)) [
    | inl n ↦ absurd (false≢true (rw n at h))
    | inr ((c, e), q) ↦ (c, e, search-Found [] s c e q)
  ]

  pub test_complete : (s : Text) (c e : Cursor) → Found r [] s c e → test r s ≡ true
  unfolding test
  test_complete s c e (p, d) = elim (Option-cases (search r [] s)) [
    | inl n ↦ absurd (search_complete e p d n)
    | inr (x, q) ↦ rw q
  ]

  pub exec_sound : (s : Text) (e : Cursor) → exec r s ≡ some e → (c : Cursor) × Found r [] s c e
  unfolding exec
  exec_sound s e h = elim (Option-cases (search r [] s)) [
    | inl n ↦ ground arith
    | inr ((c, e'), q) ↦ (c, search-Found [] s c e (rw q (ground arith)))
  ]
