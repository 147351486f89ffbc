-- ===== src/Credentials/Detect.antt =====
-- `interceptChatInput`, `loosePlausibilityCheck` and `secretLabelFor` of api/static/credentials.js.
use hufi_agents.Prelude.{
  ℕ, zero, suc, ◌-◌, String, Bool, true, false, not, ◌&&◌, ◌||◌, ◌==◌, List, [], ◌∷◌, Option, none,
  some, leb, ltb, length, take, any, if◌then◌else◌, ◌=ˢ◌,
}
use hufi_agents.Js.Text.{Text, trim, is_space}
use hufi_agents.Js.Regex.{Regex, boundary, unit, star, group}
use hufi_agents.Js.Regex.Patterns.{
  chr, lit, lit_i, opt, times, at_least, seqs, alts, is_alnum, is_letter, is_digit, space,
}
use hufi_agents.Js.Regex.Search.{test, search}

pub record SecretPattern : Type 0 where
  pub re : Regex
  pub reason : String

abbrev secret : Regex → String → SecretPattern
secret re reason = record { re = re; reason = reason }

abbrev pub is_upper : ℕ → Bool
is_upper c = leb 65 c && leb c 90

-- A prefix at a word boundary, and then at least `n` units of a class.
abbrev pub prefixed : String → ℕ → (ℕ → Bool) → Regex
prefixed p n class = seqs (boundary ∷ lit p ∷ at_least n (unit class) ∷ [])

abbrev assigned : Regex
assigned = seqs (
    boundary
    ∷ group 1 (
        alts (lit_i "password") (
          lit_i "passwort"
          ∷ lit_i "token"
          ∷ seqs (lit_i "api" ∷ opt (unit (λ c. c == b'_' || c == b'-')) ∷ lit_i "key" ∷ [])
          ∷ lit_i "secret"
          ∷ lit_i "bearer"
          ∷ []))
    ∷ star space
    ∷ unit (λ c. c == b':' || c == b'=')
    ∷ star space
    ∷ at_least 4 (unit (λ c. not (is_space c)))
    ∷ [])

-- `SECRET_PATTERNS`
unfoldable pub secret_patterns : List SecretPattern
secret_patterns =
    secret (prefixed "ghp_" 20 is_alnum) "Beginnt wie ein GitHub Personal Access Token (ghp_…)."
    ∷ secret (prefixed "github_pat_" 20 (λ c. is_alnum c || c == b'_'))
        "Beginnt wie ein GitHub Personal Access Token (github_pat_…)."
    ∷ secret (prefixed "gho_" 20 is_alnum) "Beginnt wie ein GitHub-OAuth-Token (gho_…)."
    ∷ secret (prefixed "sk-" 20 is_alnum) "Beginnt wie ein API-Schlüssel (sk-…)."
    ∷ secret
        (seqs (
          boundary
          ∷ lit "xox"
          ∷ unit (λ c. c == b'b' || c == b'p' || c == b'o' || c == b'a')
          ∷ chr b'-'
          ∷ at_least 10 (unit (λ c. is_alnum c || c == b'-'))
          ∷ []))
        "Beginnt wie ein Slack-Token (xox…-)."
    ∷ secret
        (seqs
          (boundary ∷ lit "AKIA" ∷ times 16 (unit (λ c. is_digit c || is_upper c)) ∷ boundary ∷ []))
        "Sieht wie eine AWS Access Key ID aus (AKIA…)."
    ∷ secret
        (seqs (
          lit "-----BEGIN"
          ∷ star (unit (λ c. c == b' ' || is_upper c))
          ∷ lit "PRIVATE KEY-----"
          ∷ []))
        "Enthält den Anfang eines privaten Schlüssels (PRIVATE KEY)."
    ∷ secret assigned "Sieht nach einem zugewiesenen Passwort oder Token aus."
    ∷ []

-- `s.match(r)` with the flag `g`, from a place on: the texts of the matches, in order.
matches_from : ℕ → Regex → Text → Text → List Text
matches_from zero r before rest = []
matches_from (suc n) r before rest = elim (search r before rest) [
  | none ↦ []
  | some (c, e) ↦ elim (ltb (length e.rest) (length c.rest)) [
    | true ↦ take (length c.rest - length e.rest) c.rest ∷ matches_from n r e.before e.rest
    | false ↦ elim e.rest [ [] ↦ [] ∷ [] | x ∷ xs ↦ [] ∷ matches_from n r (x ∷ e.before) xs ]
  ]
]

-- Each match, or the unit after an empty one, takes a unit, so the units of the text bound them.
unfoldable pub match_all : Regex → Text → List Text
unfolding matches_from
match_all r s = matches_from (suc (length s)) r [] s

-- `/[A-Za-z0-9_-]{30}/`
abbrev long_run : Regex
long_run = at_least 30 (unit (λ c. is_alnum c || c == b'_' || c == b'-'))

-- Letters and digits, or letters of both cases.
abbrev pub looks_random : Text → Bool
looks_random run =
    (any is_digit run && any is_letter run)
    || (any (λ c. leb 97 c && leb c 122) run && any is_upper run)

-- The runs that the second part of `interceptChatInput` looks at.
unfoldable pub runs_of : Text → List Text
runs_of s = match_all long_run s

abbrev pub random_reason : String
random_reason = "Enthält eine lange, zufällig wirkende Zeichenfolge ohne Leerzeichen."

abbrev pub reason_of : List SecretPattern → Text → Option String
reason_of [] s = none
reason_of (p ∷ ps) s = if test p.re s then some p.reason else reason_of ps s

-- `interceptChatInput(text)`: the reason, when the text looks like a secret.
unfoldable pub intercept_chat_input : Text → Option String
intercept_chat_input s = elim (reason_of secret_patterns s) [
  | some r ↦ some r
  | none ↦ if any looks_random (runs_of s) then some random_reason else none
]

pub record Check : Type 0 where
  pub ok : Bool
  pub message : String

abbrev pub check_answer : Bool → String → Check
check_answer o m = record { ok = o; message = m }

-- The check of the text without the blanks around it
abbrev pub check_trimmed : Text → Check
check_trimmed [] = check_answer false "Bitte einen Zugangsschlüssel eingeben."
check_trimmed (c ∷ v) =
    if any is_space (c ∷ v)
    then check_answer false
        "Das enthält Leerzeichen — ein Zugangsschlüssel ist meist eine einzelne, zusammenhängende Zeichenfolge."
    else if ltb (length (c ∷ v)) 8
    then check_answer false "Das wirkt zu kurz für einen Zugangsschlüssel."
    else check_answer true "Sieht plausibel aus. Das ist keine echte Prüfung beim Anbieter."

unfoldable pub loose_plausibility_check : Text → Check
loose_plausibility_check raw = check_trimmed (trim raw)

unfoldable pub secret_label_for : String → String
secret_label_for connector =
    if connector =ˢ "github"
    then "Personal Access Token"
    else if connector =ˢ "openai" || connector =ˢ "anthropic"
    then "API-Schlüssel"
    else if connector =ˢ "slack"
    then "Bot-Token"
    else "Zugangsschlüssel"
