-- ===== src/Chat/Send.antt =====
-- Sending a message in api/static/chat.js: `handleSend`, `sendText`, `visibleRedact` and the turns
-- that they start.
pub mod Confirmed
use hufi_agents.Prelude.{
  ℕ, suc, String, Bool, true, false, not, ◌&&◌, ◌||◌, ◌==◌, List, [], ◌∷◌, ◌++◌, Option, none, some,
  leb, or_else, if◌then◌else◌,
}
use hufi_agents.Js.Text.{Text, units, trim, is_space}
use hufi_agents.Js.Regex.{Regex, boundary, unit, seq, alt, star, group, not_ahead, Cursor}
use hufi_agents.Js.Regex.Patterns.{
  chr, lit, lit_i, opt, plus, seqs, alts, is_alnum, is_digit, space,
}
use hufi_agents.Js.Regex.Search.{replace_all, capture}
use hufi_agents.Chat.Routine.{Intent, unsupported, clarify, clear, detect_routine_intent}
use hufi_agents.Credentials.Detect.{intercept_chat_input}

abbrev colon : Regex
colon = unit (λ c. c == b'=' || c == b':')

-- `((?:password|…|cookie)\s*[=:]\s*)[^\s,;&]+`, without regard to case
abbrev assignment : Regex
assignment = seqs (
    group 1 (
      seqs (
        alts (lit_i "password") (
          lit_i "passwd"
          ∷ lit_i "token"
          ∷ lit_i "secret"
          ∷ seqs (lit_i "api" ∷ opt (unit (λ c. c == b'_' || c == b'-')) ∷ lit_i "key" ∷ [])
          ∷ lit_i "authorization"
          ∷ lit_i "cookie"
          ∷ [])
        ∷ star space
        ∷ colon
        ∷ star space
        ∷ []))
    ∷ plus (unit (λ c. not (is_space c || c == b',' || c == b';' || c == b'&')))
    ∷ [])

abbrev name_unit : Regex
name_unit = unit (λ c. (leb 65 c && leb c 90) || is_digit c || c == b'_')

-- A name in capitals that says it is a secret, and that is not assigned to.
abbrev secret_name : Regex
secret_name = seqs (
    boundary
    ∷ star name_unit
    ∷ alts (lit "SECRET") (lit "PASSWORD" ∷ lit "TOKEN" ∷ lit "API_KEY" ∷ [])
    ∷ star name_unit
    ∷ boundary
    ∷ not_ahead (seq (star space) colon)
    ∷ [])

abbrev token_unit : Regex
token_unit = unit (λ c. is_alnum c || c == b'_')

abbrev known_token : Regex
known_token = seqs (
    boundary
    ∷ alts
        (seqs (
          lit "gh"
          ∷ unit (λ c. c == b'p' || c == b'o' || c == b'u' || c == b's' || c == b'r')
          ∷ chr b'_'
          ∷ plus token_unit
          ∷ []))
        (seq (lit "github_pat_") (plus token_unit)
          ∷ seq (lit "sk-") (plus (unit (λ c. is_alnum c || c == b'_' || c == b'-')))
          ∷ [])
    ∷ boundary
    ∷ [])

abbrev pub redacted : Text
redacted = units "[REDACTED]"

-- `visibleRedact`: the three replacements, one after the other
unfoldable pub visible_redact : Text → Text
visible_redact s =
    replace_all known_token (λ _. redacted)
      (replace_all secret_name (λ _. redacted)
        (replace_all assignment (λ m. or_else (capture 1 m) [] ++ redacted) s))

-- What a text that is sent starts: a mission, a routine to confirm, or a question or an answer.
pub data Turn : Type 0 where
  mission : Text → Turn
  routine : Text → (schedule label cadence : Text) → Turn
  reply : Text → (message : Text) → Turn

abbrev pub text_of : Turn → Text
text_of (mission t) = t
text_of (routine t _ _ _) = t
text_of (reply t _) = t

unfoldable pub turn_for : Text → Option Intent → Turn
turn_for text (some (clear schedule label cadence)) = routine text schedule label cadence
turn_for text (some (clarify question)) = reply text question
turn_for text (some (unsupported message)) = reply text message
turn_for text none = mission text

-- The input field, the warnings below it, each with the text that it is about, and the turns.
pub record Composer : Type 0 where
  pub input : Text
  pub warnings : List Text
  pub turns : List Turn

unfoldable pub send_text : Text → Composer → Composer
send_text text c = record c {
  input = [];
  turns = turn_for text (detect_routine_intent text) ∷ c.turns;
}

abbrev pub gated : Text → Option String → Composer → Composer
gated text (some reason) c = record c { warnings = text ∷ c.warnings }
gated text none c = send_text text c

unfoldable pub handle_send : Composer → Composer
handle_send c = elim (trim c.input) [
  | [] ↦ c
  | x ∷ t ↦ gated (x ∷ t) (intercept_chat_input (x ∷ t)) c
]

-- The warning's button `Verwerfen`, and `Trotzdem senden`.
unfoldable pub discard : (before rest : List Text) → Composer → Composer
discard before rest c = record c { input = []; warnings = before ++ rest }

unfoldable pub send_anyway : Text → (before rest : List Text) → Composer → Composer
send_anyway text before rest c = send_text text (record c { warnings = before ++ rest })

-- The shown user bubble.
abbrev pub user_bubble : Turn → Text
user_bubble t = visible_redact (text_of t)
