-- ===== src/Js/Text.antt =====
-- Texts as JavaScript sees them: lists of UTF-16 code units, and the string methods that are used.
-- `to_lower_case` and `to_upper_case` map the letters of Latin-1, which hold the German alphabet, as
-- the language does; other letters they leave as they are.
pub mod Trim
use Prim.Native.Char.{code}
use Prim.Native.String.{[] as empty, ◌∷◌ as ◌∷ˢ◌}
use hufi_agents.Prelude.{
  ℕ, zero, suc, ◌+◌, ◌-◌, ◌/◌, ◌%◌, String, Bool, true, false, ◌&&◌, ◌||◌, not, List, [], ◌∷◌, ◌++◌,
  map, ltb, leb, ◌==◌, if◌then◌else◌, length, Option, none, some,
}

abbrev pub Text : Type 0
Text = List ℕ

-- One code point as one unit or as a surrogate pair.
abbrev utf16 : ℕ → Text → Text
utf16 c rest =
    if ltb c 0x10000
    then c ∷ rest
    else (0xd800 + (c - 0x10000) / 0x400) ∷ (0xdc00 + (c - 0x10000) % 0x400) ∷ rest

-- The units of a text that is kept whole elsewhere, and of a literal.
abbrev pub units : String → Text
units String.[] = []
units (String.◌∷◌ c s) = utf16 (code c) (units s)

abbrev pub beq : Text → Text → Bool
beq [] [] = true
beq (x ∷ xs) (y ∷ ys) = x == y && beq xs ys
beq _ _ = false

abbrev pub starts_with : Text → Text → Bool
starts_with [] s = true
starts_with (x ∷ p) [] = false
starts_with (x ∷ p) (y ∷ s) = x == y && starts_with p s

-- `s.includes(q)`
abbrev pub includes : Text → Text → Bool
includes q [] = starts_with q []
includes q (x ∷ s) = starts_with q (x ∷ s) || includes q s

-- White space and line terminators, as `\s`, `trim` and `split(/\s+/)` take them.
unfoldable pub is_space : ℕ → Bool
is_space c =
    c == 32
    || (leb 9 c && leb c 13)
    || c == 0xa0
    || c == 0x1680
    || (leb 0x2000 c && leb c 0x200a)
    || c == 0x2028
    || c == 0x2029
    || c == 0x202f
    || c == 0x205f
    || c == 0x3000
    || c == 0xfeff

unfoldable pub trim_start : Text → Text
trim_start [] = []
trim_start (c ∷ s) = if is_space c then trim_start s else c ∷ s

-- Trailing white space: a unit that is followed by white space alone is dropped.
unfoldable pub trim_end : Text → Text
trim_end [] = []
trim_end (c ∷ s) = elim (trim_end s) [
  | [] ↦ (if is_space c then [] else c ∷ [])
  | d ∷ r ↦ c ∷ d ∷ r
]

unfoldable pub trim : Text → Text
trim s = trim_start (trim_end s)

unfoldable pub lower : ℕ → ℕ
lower c =
    if (leb 65 c && leb c 90) || (leb 0xc0 c && leb c 0xde && not (c == 0xd7)) then c + 32 else c

-- One unit in upper case: ß gives two units, µ and ÿ leave the range.
unfoldable pub upper : ℕ → Text
upper c =
    if (leb 97 c && leb c 122) || (leb 0xe0 c && leb c 0xfe && not (c == 0xf7))
    then (c - 32) ∷ []
    else if c == 0xdf
    then b'S' ∷ b'S' ∷ []
    else if c == 0xb5
    then 0x39c ∷ []
    else if c == 0xff
    then 0x178 ∷ []
    else c ∷ []

unfoldable pub to_lower_case : Text → Text
unfolding lower
to_lower_case s = map lower s

unfoldable pub to_upper_case : Text → Text
unfolding upper
to_upper_case [] = []
to_upper_case (c ∷ s) = upper c ++ to_upper_case s

-- `parts.join(sep)`
unfoldable pub join : Text → List Text → Text
join sep [] = []
join sep (x ∷ []) = x
join sep (x ∷ y ∷ r) = x ++ (sep ++ join sep (y ∷ r))

-- `s.split(sep)` for a one-unit separator: the parts between its occurrences, in order.
unfoldable pub split_on : ℕ → Text → List Text
split_on sep [] = [] ∷ []
split_on sep (c ∷ s) = elim (split_on sep s) [
  | [] ↦ [] ∷ []
  | w ∷ ws ↦ (if c == sep then [] ∷ w ∷ ws else (c ∷ w) ∷ ws)
]

-- A number in a template literal.
abbrev digits_onto : (fuel : ℕ) → ℕ → Text → Text
digits_onto zero n acc = (b'0' + n % 10) ∷ acc
digits_onto (suc f) n acc =
    let rest = digits_onto f (n / 10) ((b'0' + n % 10) ∷ acc) in
    if ltb n 10 then (b'0' + n) ∷ acc else rest

unfoldable pub decimal : ℕ → Text
decimal n = digits_onto n n []
