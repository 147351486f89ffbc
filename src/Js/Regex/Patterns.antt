-- ===== src/Js/Regex/Patterns.antt =====
-- The building blocks of the program's patterns.
use hufi_agents.Prelude.{ℕ, zero, suc, ◌-◌, String, Bool, ◌||◌, ◌&&◌, not, List, [], ◌∷◌, leb, ◌==◌}
use hufi_agents.Js.Text.{Text, units, is_space}
use hufi_agents.Js.Regex.{Regex, empty, unit, seq, alt, star}

abbrev pub chr : ℕ → Regex
chr c = unit (λ x. x == c)

-- With the flag `i`: ASCII letters in either case.
abbrev pub same_letter : ℕ → ℕ → Bool
same_letter c x = x == c || (leb 97 c && leb c 122 && x == c - 32)

abbrev pub sequence : (ℕ → Regex) → Text → Regex
sequence f [] = empty
sequence f (c ∷ []) = f c
sequence f (c ∷ d ∷ r) = seq (f c) (sequence f (d ∷ r))

-- A literal, and a literal in lower case under the flag `i`.
abbrev pub lit : String → Regex
lit s = sequence chr (units s)

abbrev pub lit_i : String → Regex
lit_i s = sequence (λ c. unit (same_letter c)) (units s)

abbrev pub opt : Regex → Regex
opt r = alt r empty

abbrev pub plus : Regex → Regex
plus r = seq r (star r)

abbrev pub times : ℕ → Regex → Regex
times zero r = empty
times (suc zero) r = r
times (suc (suc n)) r = seq r (times (suc n) r)

-- `r{n,}`
abbrev pub at_least : ℕ → Regex → Regex
at_least n r = seq (times n r) (star r)

unfoldable pub is_digit : ℕ → Bool
is_digit c = leb 48 c && leb c 57

abbrev pub is_letter : ℕ → Bool
is_letter c = (leb 97 c && leb c 122) || (leb 65 c && leb c 90)

abbrev pub is_alnum : ℕ → Bool
is_alnum c = is_letter c || is_digit c

abbrev pub digit : Regex
digit = unit is_digit

abbrev pub space : Regex
space = unit is_space

-- `.` stops at line terminators.
abbrev pub dot : Regex
dot = unit (λ c. not (c == 10 || c == 13 || c == 0x2028 || c == 0x2029))

abbrev pub seqs : List Regex → Regex
seqs [] = empty
seqs (r ∷ []) = r
seqs (r ∷ s ∷ t) = seq r (seqs (s ∷ t))

abbrev pub alts : Regex → List Regex → Regex
alts r [] = r
alts r (s ∷ t) = alt r (alts s t)
