-- ===== src/Js/Regex/Search.antt =====
-- The methods that use a pattern: `test`, `match`, `replace`.
use hufi_agents.Prelude.{
  ℕ, zero, suc, Bool, true, false, List, [], ◌∷◌, ◌++◌, Option, none, some, ltb, ◌==◌,
  if◌then◌else◌, length, is_some,
}
use hufi_agents.Js.Text.{Text}
use hufi_agents.Js.Regex.{Regex, Cursor, run}

abbrev pub at : Text → Text → Cursor
at before rest = record { before = before; rest = rest; groups = [] }

-- The end of a match at this place, or else what a later place gives.
abbrev pub or_later : Cursor → Option Cursor → Option (Cursor × Cursor) → Option (Cursor × Cursor)
or_later c none later = later
or_later c (some e) later = some (c, e)

-- The first place, from `before` on, where the pattern matches, and the end of the match there.
unfoldable pub search : Regex → Text → Text → Option (Cursor × Cursor)
unfolding run
search r before [] = or_later (at before []) (run r (at before []) some) none
search r before (x ∷ xs) =
    let later = search r (x ∷ before) xs in
    or_later (at before (x ∷ xs)) (run r (at before (x ∷ xs)) some) later

-- `r.test(s)`
unfoldable pub test : Regex → Text → Bool
unfolding search
test r s = is_some (search r [] s)

-- `s.match(r)`: the end of the first match, with its captures.
unfoldable pub exec : Regex → Text → Option Cursor
unfolding search
exec r s = elim (search r [] s) [ none ↦ none | some found ↦ some found.1 ]

abbrev pub find_group : ℕ → List (ℕ × Text) → Option Text
find_group i [] = none
find_group i ((j, t) ∷ gs) = if j == i then some t else find_group i gs

-- `m[i]`
abbrev pub capture : ℕ → Cursor → Option Text
capture i c = find_group i c.groups

-- `s.replace(r, …)` with the flag `g`, from a place on. A match that takes nothing is followed by
-- the unit after it.
unfoldable pub replace_from : ℕ → Regex → (Cursor → Text) → Text → Text → Text
replace_from zero r f before rest = rest
replace_from (suc n) r f before [] = elim (run r (at before []) some) [ none ↦ [] | some e ↦ f e ]
replace_from (suc n) r f before (x ∷ xs) = elim (run r (at before (x ∷ xs)) some) [
  | none ↦ x ∷ replace_from n r f (x ∷ before) xs
  | some e ↦ elim (ltb (length e.rest) (suc (length xs))) [
    | true ↦ f e ++ replace_from n r f e.before e.rest
    | false ↦ f e ++ (x ∷ replace_from n r f (x ∷ before) xs)
  ]
]

unfoldable pub replace_all : Regex → (Cursor → Text) → Text → Text
unfolding replace_from run
replace_all r f s = replace_from (suc (length s)) r f [] s

-- Without the flag `g`: the first match only.
replace_from_first : Regex → (Cursor → Text) → Text → Text → Text
replace_from_first r f before [] = elim (run r (at before []) some) [
  | none ↦ []
  | some e ↦ f e ++ e.rest
]
replace_from_first r f before (x ∷ xs) = elim (run r (at before (x ∷ xs)) some) [
  | none ↦ x ∷ replace_from_first r f (x ∷ before) xs
  | some e ↦ f e ++ e.rest
]

unfoldable pub replace : Regex → (Cursor → Text) → Text → Text
unfolding replace_from_first run
replace r f s = replace_from_first r f [] s
