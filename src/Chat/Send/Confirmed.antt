-- ===== src/Chat/Send/Confirmed.antt =====
-- The gate of `handleSend` in api/static/chat.js, over all that a user can do.
use hufi_agents.Prelude.{
  ◌≡◌, refl, sym, ◌⊎◌, inl, inr, String, List, [], ◌∷◌, ◌++◌, Option, none, some, All, At, here,
  there,
}
use mathlib.Core.Path.{subst}
use hufi_agents.Js.Text.{Text, trim}
use hufi_agents.Chat.Routine.{Intent, unsupported, clarify, clear, detect_routine_intent}
use hufi_agents.Credentials.Detect.{intercept_chat_input}
use hufi_agents.Chat.Send.{
  Turn, text_of, turn_for, Composer, send_text, gated, handle_send, discard, send_anyway,
}

abbrev pub empty_composer : Composer
empty_composer = record { input = []; warnings = []; turns = [] }

-- What the user does, with the composer before and after and the text, if any, that the user has
-- chosen to send in spite of its warning.
pub data Step (c : Composer) : Composer → Option Text → Type 0 where
  types : (text : Text) → Step c (record c { input = text }) none
  sends : Step c (handle_send c) none
  discards :
      (before rest : List Text) (text : Text)
      → c.warnings ≡ before ++ text ∷ rest
      → Step c (discard before rest c) none
  insists :
      (before rest : List Text) (text : Text)
      → c.warnings ≡ before ++ text ∷ rest
      → Step c (send_anyway text before rest c) (some text)

abbrev pub and_chosen : Option Text → List Text → List Text
and_chosen none l = l
and_chosen (some t) l = t ∷ l

-- The composers that can come up, with the texts that were chosen to be sent.
pub data Reachable : Composer → List Text → Type 0 where
  fresh : Reachable empty_composer []
  next :
      {c d : Composer} {chosen : List Text} {o : Option Text}
      → Reachable c chosen
      → Step c d o
      → Reachable d (and_chosen o chosen)

-- The turn's text does not look like a secret, or was chosen to be sent.
abbrev pub IsAllowed : List Text → Turn → Type 0
IsAllowed chosen t = (intercept_chat_input (text_of t) ≡ none) ⊎ At (text_of t) chosen

text_of-turn_for : (text : Text) (i : Option Intent) → text_of (turn_for text i) ≡ text
unfolding turn_for
text_of-turn_for text none = refl
text_of-turn_for text (some (clear a b c)) = refl
text_of-turn_for text (some (clarify q)) = refl
text_of-turn_for text (some (unsupported m)) = refl

All-more :
    (chosen : List Text) (text : Text) (l : List Turn)
    → All (IsAllowed chosen) l
    → All (IsAllowed (text ∷ chosen)) l
All-more chosen text [] h = tt
All-more chosen text (t ∷ l) (inl e, k) = (inl e, All-more chosen text l k)
All-more chosen text (t ∷ l) (inr m, k) = (inr (there m), All-more chosen text l k)

send_text-All :
    (chosen : List Text) (text : Text) (c : Composer)
    → (intercept_chat_input text ≡ none) ⊎ At text chosen
    → All (IsAllowed chosen) c.turns
    → All (IsAllowed chosen) (send_text text c).turns
unfolding send_text
send_text-All chosen text c h k = (
  subst (λ x. (intercept_chat_input x ≡ none) ⊎ At x chosen)
      (sym (text_of-turn_for text (detect_routine_intent text))) h,
  k,
)

gated-All :
    (chosen : List Text) (text : Text) (o : Option String) (c : Composer)
    → intercept_chat_input text ≡ o
    → All (IsAllowed chosen) c.turns
    → All (IsAllowed chosen) (gated text o c).turns
gated-All chosen text none c e k = send_text-All chosen text c (inl e) k
gated-All chosen text (some r) c e k = k

handle_send-All :
    (chosen : List Text) (t : Text) (c : Composer)
    → trim c.input ≡ t
    → All (IsAllowed chosen) c.turns
    → All (IsAllowed chosen) (handle_send c).turns
unfolding handle_send
handle_send-All chosen [] c e k = rw (e, handle_send) k
handle_send-All chosen (x ∷ t) c e k =
    rw (e, handle_send) (gated-All chosen (x ∷ t) (intercept_chat_input (x ∷ t)) c refl k)

Step-All :
    {c d : Composer} {o : Option Text} (chosen : List Text)
    → Step c d o
    → All (IsAllowed chosen) c.turns
    → All (IsAllowed (and_chosen o chosen)) d.turns
unfolding send_anyway discard
Step-All chosen (types text) k = k
Step-All {c} chosen sends k = handle_send-All chosen (trim c.input) c refl k
Step-All chosen (discards before rest text e) k = k
Step-All {c} chosen (insists before rest text e) k =
    send_text-All (text ∷ chosen) text (record c { warnings = before ++ rest }) (inr here)
      (All-more chosen text c.turns k)

-- Whatever the user types, sends, discards or insists on, in any order, each turn that was started
-- has a text that does not look like a secret, or that the user chose to send in spite of the
-- warning.
pub Reachable-IsAllowed :
    {c : Composer} {chosen : List Text} → Reachable c chosen → All (IsAllowed chosen) c.turns
Reachable-IsAllowed fresh = tt
Reachable-IsAllowed (next r s) = Step-All _ s (Reachable-IsAllowed r)
