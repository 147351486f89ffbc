-- ===== src/Js/Regex.antt =====
-- Regular expressions: the constructs that the program's patterns use, with the backtracking
-- matcher of the language definition (greedy and lazy repetition, first alternative first,
-- an empty repetition refused, captures, assertions).
pub mod Derives
pub mod Correct
pub mod Patterns
pub mod Search
pub mod Found
pub mod Groups
pub mod Runs
pub mod Ends
use hufi_agents.Prelude.{
  ℕ, zero, suc, ◌-◌, String, Bool, true, false, ◌||◌, ◌&&◌, not, List, [], ◌∷◌, Option, none, some,
  ltb, leb, ◌==◌, if◌then◌else◌, length, take, is_some,
}
use hufi_agents.Js.Text.{Text, units, upper, lower}

pub data Regex : Type 0 where
  empty start finish boundary : Regex
  unit : (ℕ → Bool) → Regex
  seq alt : Regex → Regex → Regex
  star lazy : Regex → Regex
  group : ℕ → Regex → Regex
  not_ahead : Regex → Regex

-- A place in the input: what stands before it (nearest first), what follows, and the captures.
pub record Cursor : Type 0 where
  pub before : Text
  pub rest : Text
  pub groups : List (ℕ × Text)

abbrev pub is_word : ℕ → Bool
is_word c = (leb 97 c && leb c 122) || (leb 65 c && leb c 90) || (leb 48 c && leb c 57) || c == 95

abbrev pub word_at : Text → Bool
word_at [] = false
word_at (c ∷ _) = is_word c

abbrev pub differ : Bool → Bool → Bool
differ true b = not b
differ false b = b

abbrev pub Cont : Type 0
Cont = Cursor → Option Cursor

-- The two orders of a choice.
abbrev pub first : Option Cursor → Option Cursor → Option Cursor
first none b = b
first (some a) b = some a

module _ (step : Cursor → Cont → Option Cursor) where
  -- `r*` and `r*?`: one round, then more; a round that takes nothing is refused. Each round takes
  -- a unit, so the units that are left bound the rounds.
  pub many : ℕ → Cursor → Cont → Option Cursor
  many zero s k = k s
  many (suc n) s k =
      let more =
        step s (λ s'. elim (ltb (length s'.rest) (length s.rest)) [
          | true ↦ many n s' k
          | false ↦ none
        ]) in
      first more (k s)

  pub few : ℕ → Cursor → Cont → Option Cursor
  few zero s k = k s
  few (suc n) s k =
      let more =
        step s (λ s'. elim (ltb (length s'.rest) (length s.rest)) [
          | true ↦ few n s' k
          | false ↦ none
        ]) in
      first (k s) more

abbrev pub captured : ℕ → Cursor → Cursor → Cursor
captured i s t = record t { groups = (i, take (length s.rest - length t.rest) s.rest) ∷ t.groups }

abbrev eat : (ℕ → Bool) → Cursor → Text → Cont → Option Cursor
eat p s [] k = none
eat p s (x ∷ xs) k = elim (p x) [
  | true ↦ k (record s { before = x ∷ s.before; rest = xs })
  | false ↦ none
]

abbrev when : Bool → Cursor → Cont → Option Cursor
when true s k = k s
when false s k = none

abbrev is_nil : Text → Bool
is_nil [] = true
is_nil (_ ∷ _) = false

unfoldable pub run : Regex → Cursor → Cont → Option Cursor
unfolding many few
run empty s k = k s
run start s k = when (is_nil s.before) s k
run finish s k = when (is_nil s.rest) s k
run boundary s k = when (differ (word_at s.before) (word_at s.rest)) s k
run (unit p) s k = eat p s s.rest k
run (seq a b) s k = run a s (λ t. run b t k)
run (alt a b) s k = let other = run b s k in first (run a s k) other
run (star r) s k = many (run r) (length s.rest) s k
run (lazy r) s k = few (run r) (length s.rest) s k
run (group i r) s k = run r s (λ t. k (captured i s t))
run (not_ahead r) s k = when (not (is_some (run r s some))) s k
