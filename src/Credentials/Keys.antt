-- ===== src/Credentials/Keys.antt =====
-- The access keys that `interceptChatInput` of api/static/credentials.js knows by their beginning.
use hufi_agents.Prelude.{
  ℕ, ◌≡◌, refl, inl, String, Bool, true, false, [], ◌∷◌, ◌++◌, is_some, length, All, At, here,
  there, arith, ==_refl, ◌==◌, ◌||◌,
}
use mathlib.Core.Path.{subst}
use hufi_agents.Js.Text.{Text, units}
use hufi_agents.Js.Regex.{Regex, unit, boundary, word_at, differ}
use hufi_agents.Js.Regex.Derives.{Derives, enough}
use hufi_agents.Js.Regex.Patterns.{chr, lit, seqs, at_least, sequence, times, is_alnum, is_digit}
use hufi_agents.Js.Regex.Search.{at}
use hufi_agents.Js.Regex.Found.{Place, here as at_once, later}
use hufi_agents.Credentials.Detect.{is_upper, secret_patterns, prefixed, intercept_chat_input}
use hufi_agents.Credentials.Flagged.{intercept_chat_input_iff}

abbrev pub rev_onto : Text → Text → Text
rev_onto [] b = b
rev_onto (x ∷ a) b = rev_onto a (x ∷ b)

Place-append : (a b s : Text) → Place b (a ++ s) (at (rev_onto a b) s)
Place-append [] b s = at_once
Place-append (x ∷ a) b s = later (Place-append a (x ∷ b) s)

-- A run of one class, unit by unit.
times-Derives :
    (p : ℕ → Bool) (b w s : Text)
    → All (λ c. p c ≡ true) w
    → Derives (times (length w) (unit p)) (at b (w ++ s)) (at (rev_onto w b) s)
times-Derives p b [] s h = refl
times-Derives p b (x ∷ []) s h = (x, s, refl, h.0, refl)
times-Derives p b (x ∷ y ∷ w) s h = (
  at (x ∷ b) (y ∷ w ++ s),
  (x, (y ∷ w) ++ s, refl, h.0, refl),
  times-Derives p (x ∷ b) (y ∷ w) s h.1,
)

-- A literal, unit by unit.
lit-Derives : (p b s : Text) → Derives (sequence chr p) (at b (p ++ s)) (at (rev_onto p b) s)
lit-Derives [] b s = refl
lit-Derives (c ∷ []) b s = (c, s, refl, ==_refl c, refl)
lit-Derives (c ∷ d ∷ p) b s = (
  at (c ∷ b) (d ∷ p ++ s),
  (c, (d ∷ p) ++ s, refl, ==_refl c, refl),
  lit-Derives (d ∷ p) (c ∷ b) s,
)

-- The access keys that are known by their beginning.
pub data KeyKind : Type 0 where
  personal fine_grained oauth api slack_bot slack_user slack_owner slack_app aws : KeyKind

abbrev pub key_prefix : KeyKind → String
key_prefix personal = "ghp_"
key_prefix fine_grained = "github_pat_"
key_prefix oauth = "gho_"
key_prefix api = "sk-"
key_prefix slack_bot = "xoxb-"
key_prefix slack_user = "xoxp-"
key_prefix slack_owner = "xoxo-"
key_prefix slack_app = "xoxa-"
key_prefix aws = "AKIA"

-- How many units follow the beginning of a key at least, and which.
abbrev pub key_length : KeyKind → ℕ
key_length personal = 20
key_length fine_grained = 20
key_length oauth = 20
key_length api = 20
key_length slack_bot = 10
key_length slack_user = 10
key_length slack_owner = 10
key_length slack_app = 10
key_length aws = 16

abbrev slack_unit : ℕ → Bool
slack_unit c = is_alnum c || c == b'-'

abbrev pub key_unit : KeyKind → ℕ → Bool
key_unit personal c = is_alnum c
key_unit fine_grained c = is_alnum c || c == b'_'
key_unit oauth c = is_alnum c
key_unit api c = is_alnum c
key_unit slack_bot c = slack_unit c
key_unit slack_user c = slack_unit c
key_unit slack_owner c = slack_unit c
key_unit slack_app c = slack_unit c
key_unit aws c = is_digit c || is_upper c

abbrev pub IsKeyBody : KeyKind → Text → Type 0
IsKeyBody k w = (length w ≡ key_length k) × All (λ c. key_unit k c ≡ true) w

-- What may come behind a key: a key of Amazon's is told by its end too.
abbrev pub IsKeyEnd : KeyKind → Text → Type 0
IsKeyEnd aws s = word_at s ≡ false
IsKeyEnd _ s = Unit

abbrev slack_mark : ℕ → Bool
slack_mark c = c == b'b' || c == b'p' || c == b'o' || c == b'a'

abbrev slack_regex : Regex
slack_regex =
    seqs (boundary ∷ lit "xox" ∷ unit slack_mark ∷ chr b'-' ∷ at_least 10 (unit slack_unit) ∷ [])

abbrev aws_regex : Regex
aws_regex =
    seqs (boundary ∷ lit "AKIA" ∷ times 16 (unit (λ c. is_digit c || is_upper c)) ∷ boundary ∷ [])

abbrev key_regex : KeyKind → Regex
key_regex personal = prefixed "ghp_" 20 is_alnum
key_regex fine_grained = prefixed "github_pat_" 20 (λ c. is_alnum c || c == b'_')
key_regex oauth = prefixed "gho_" 20 is_alnum
key_regex api = prefixed "sk-" 20 is_alnum
key_regex slack_bot = slack_regex
key_regex slack_user = slack_regex
key_regex slack_owner = slack_regex
key_regex slack_app = slack_regex
key_regex aws = aws_regex

-- The end of a match of so many units.
some_times :
    (n : ℕ) (class : ℕ → Bool) (b w s : Text)
    → length w ≡ n
    → All (λ c. class c ≡ true) w
    → Derives (times n (unit class)) (at b (w ++ s)) (at (rev_onto w b) s)
some_times n class b w s l k =
    subst (λ n. Derives (times n (unit class)) (at b (w ++ s)) (at (rev_onto w b) s)) l
      (times-Derives class b w s k)

prefixed-Derives :
    (p : String) (class : ℕ → Bool) (b w s : Text)
    → differ (word_at b) (word_at (units p ++ (w ++ s))) ≡ true
    → length w ≡ 20
    → All (λ c. class c ≡ true) w
    → Derives
        (prefixed p 20 class)
        (at b (units p ++ (w ++ s)))
        (at (rev_onto w (rev_onto (units p) b)) s)
prefixed-Derives p class b w s h l k = (
  _,
  (h, refl),
  (
    at (rev_onto (units p) b) (w ++ s),
    lit-Derives (units p) b (w ++ s),
    (_, some_times 20 class (rev_onto (units p) b) w s l k, enough),
  ),
)

slack-Derives :
    (c : ℕ) (b w s : Text)
    → slack_mark c ≡ true
    → word_at b ≡ false
    → length w ≡ 10
    → All (λ c. slack_unit c ≡ true) w
    → Derives slack_regex
        (at b (units "xox" ++ (c ∷ b'-' ∷ w ++ s)))
        (at (rev_onto w (b'-' ∷ c ∷ rev_onto (units "xox") b)) s)
slack-Derives c b w s m h l k = (
  _,
  (rw h refl, refl),
  (
    at (rev_onto (units "xox") b) (c ∷ b'-' ∷ w ++ s),
    lit-Derives (units "xox") b (c ∷ b'-' ∷ w ++ s),
    (
      _,
      (c, b'-' ∷ w ++ s, refl, m, refl),
      (
        _,
        (b'-', w ++ s, refl, refl, refl),
        (_, some_times 10 slack_unit (b'-' ∷ c ∷ rev_onto (units "xox") b) w s l k, enough),
      ),
    ),
  ),
)

-- Behind digits and capitals that follow a word unit stands a word unit.
word_behind :
    (w b : Text)
    → All (λ c. (is_digit c || is_upper c) ≡ true) w
    → word_at b ≡ true
    → word_at (rev_onto w b) ≡ true
unfolding is_digit
word_behind [] b k h = h
word_behind (c ∷ w) b k h = word_behind w (c ∷ b) k.1 (ground (arith, k.0))

aws-Derives :
    (b w s : Text)
    → word_at b ≡ false
    → word_at s ≡ false
    → length w ≡ 16
    → All (λ c. (is_digit c || is_upper c) ≡ true) w
    → Derives aws_regex
        (at b (units "AKIA" ++ (w ++ s)))
        (at (rev_onto w (rev_onto (units "AKIA") b)) s)
aws-Derives b w s h e l k = (
  _,
  (rw h refl, refl),
  (
    at (rev_onto (units "AKIA") b) (w ++ s),
    lit-Derives (units "AKIA") b (w ++ s),
    (
      _,
      some_times 16 _ (rev_onto (units "AKIA") b) w s l k,
      (rw (word_behind w (rev_onto (units "AKIA") b) k refl, e) refl, refl),
    ),
  ),
)

key-Derives :
    (k : KeyKind) (b w s : Text)
    → word_at b ≡ false
    → IsKeyBody k w
    → IsKeyEnd k s
    → Derives
        (key_regex k)
        (at b (units (key_prefix k) ++ (w ++ s)))
        (at (rev_onto w (rev_onto (units (key_prefix k)) b)) s)
key-Derives personal b w s h (l, a) e = prefixed-Derives "ghp_" _ b w s (rw h refl) l a
key-Derives fine_grained b w s h (l, a) e = prefixed-Derives "github_pat_" _ b w s (rw h refl) l a
key-Derives oauth b w s h (l, a) e = prefixed-Derives "gho_" _ b w s (rw h refl) l a
key-Derives api b w s h (l, a) e = prefixed-Derives "sk-" _ b w s (rw h refl) l a
key-Derives slack_bot b w s h (l, a) e = slack-Derives b'b' b w s refl h l a
key-Derives slack_user b w s h (l, a) e = slack-Derives b'p' b w s refl h l a
key-Derives slack_owner b w s h (l, a) e = slack-Derives b'o' b w s refl h l a
key-Derives slack_app b w s h (l, a) e = slack-Derives b'a' b w s refl h l a
key-Derives aws b w s h (l, a) e = aws-Derives b w s h e l a

key_pattern :
    (k : KeyKind) → (r : String) × At (record { re = key_regex k; reason = r }) secret_patterns
unfolding secret_patterns
key_pattern personal = (_, here)
key_pattern fine_grained = (_, there here)
key_pattern oauth = (_, there (there here))
key_pattern api = (_, there (there (there here)))
key_pattern slack_bot = (_, there (there (there (there here))))
key_pattern slack_user = (_, there (there (there (there here))))
key_pattern slack_owner = (_, there (there (there (there here))))
key_pattern slack_app = (_, there (there (there (there here))))
key_pattern aws = (_, there (there (there (there (there here)))))

-- A text is stopped when it holds, at its start or after a unit that is no word character, the
-- beginning of a key, `ghp_`, `github_pat_`, `gho_`, `sk-`, `xoxb-`, `xoxp-`, `xoxo-`, `xoxa-` or
-- `AKIA`, and then as many units as such a key has at least, of those that it may have, whatever
-- stands around them; after a key with `AKIA` no word character may follow.
pub known_keys_stopped :
    (k : KeyKind) (a w b : Text)
    → word_at (rev_onto a []) ≡ false
    → IsKeyBody k w
    → IsKeyEnd k b
    → is_some (intercept_chat_input (a ++ (units (key_prefix k) ++ (w ++ b)))) ≡ true
known_keys_stopped k a w b h body e =
    let (r, m) = key_pattern k in
    (intercept_chat_input_iff (a ++ (units (key_prefix k) ++ (w ++ b)))).1 (
      inl (
        _,
        m,
        (
          _,
          _,
          (
            Place-append a [] (units (key_prefix k) ++ (w ++ b)),
            key-Derives k (rev_onto a []) w b h body e,
          ),
        ),
      ))
