-- ===== src/Agents/Avatar.antt =====
-- Avatars without a picture: a colour from the identifier and two initials. The same three
-- functions stand in api/static/agents.js, cards.js and org-canvas.js.
use hufi_agents.Prelude.{
  ℕ, ◌+◌, ◌*◌, ◌%◌, ◌^◌, ◌<◌, ◌≡◌, String, Bool, true, false, not, if◌then◌else◌, List, [], ◌∷◌,
  ◌++◌, Option, some, arith, get_elem?, get_elem?_of_lt, length-append, length, All, take,
}
use hufi_agents.Js.Text.{Text, units, trim, upper, is_space, to_upper_case}

-- `h = (h * 31 + s.charCodeAt(i)) >>> 0`, over the units of the text
unfoldable pub hash_from : ℕ → Text → ℕ
hash_from h [] = h
hash_from h (c ∷ s) = hash_from ((h * 31 + c) % 2 ^ 32) s

unfoldable pub hash_hue : Text → ℕ
unfolding hash_from
hash_hue s = hash_from 0 s % 360

abbrev pub palette : List String
palette = "#f47f1f" ∷ "#c14f15" ∷ "#f59f0a" ∷ "#c96a48" ∷ "#d65d42" ∷ "#8f3e2b" ∷ "#5d514b" ∷ []

-- `palette[hashHue(id) % palette.length]`
unfoldable pub avatar_color : Text → Option String
avatar_color id = get_elem? palette (hash_hue id % length palette)

-- `split(/\s+/).filter(Boolean)` of a text: its maximal runs without white space.
abbrev cons_word : ℕ → List Text → Bool → List Text
cons_word c [] inside = (c ∷ []) ∷ []
cons_word c (w ∷ ws) true = (c ∷ w) ∷ ws
cons_word c (w ∷ ws) false = (c ∷ []) ∷ w ∷ ws

abbrev begins_word : Text → Bool
begins_word [] = false
begins_word (c ∷ s) = not (is_space c)

unfoldable pub words : Text → List Text
words [] = []
words (c ∷ s) = let rest = words s in if is_space c then rest else cons_word c rest (begins_word s)

abbrev pub first_unit : Text → Text
first_unit [] = []
first_unit (c ∷ _) = c ∷ []

abbrev pub initials_of : List Text → Text
initials_of [] = units "?"
initials_of (w ∷ []) = to_upper_case (take 2 w)
initials_of (w ∷ v ∷ _) = to_upper_case (first_unit w ++ first_unit v)

unfoldable pub initials : Text → Text
initials name = initials_of (words (trim name))

-- Every identifier has a hue below 360 and a colour of the palette.
pub avatar_color_total :
    (id : Text) → (hash_hue id < 360) × ((c : String) × (avatar_color id ≡ some c))
unfolding hash_hue avatar_color
avatar_color_total id = (omega arith, get_elem?_of_lt palette (hash_hue id % 7) (omega arith))

upper_pos : (c : ℕ) → 0 < length (upper c)
unfolding upper
upper_pos c = ground arith

to_upper_case_pos : (c : ℕ) (s : Text) → 0 < length (to_upper_case (c ∷ s))
unfolding to_upper_case
to_upper_case_pos c s = rw (length-append (upper c) (to_upper_case s)) (omega (arith, upper_pos c))

-- No word is empty.
words-IsWord : (s : Text) → All (λ w. 0 < length w) (words s)
unfolding words
words-IsWord [] = tt
words-IsWord (c ∷ s) = ground (arith, words-IsWord s)

initials_of_pos : (ws : List Text) → All (λ w. 0 < length w) ws → 0 < length (initials_of ws)
initials_of_pos [] h = omega arith
initials_of_pos ((c ∷ w) ∷ []) h = to_upper_case_pos c (take 1 w)
initials_of_pos ((c ∷ w) ∷ v ∷ ws) h = to_upper_case_pos c (first_unit v)
initials_of_pos ([] ∷ ws) h = absurd (omega arith)

-- The initials of a name are never empty, also of a name of white space alone.
pub initials_pos : (name : Text) → 0 < length (initials name)
unfolding initials
initials_pos name = initials_of_pos (words (trim name)) (words-IsWord (trim name))
