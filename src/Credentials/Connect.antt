-- ===== src/Credentials/Connect.antt =====
-- The dialog that connects a service: `openConnectModal`, the form and the connected state of
-- api/static/credentials.js.
pub mod Session
pub mod Alike
pub mod Secrecy
use hufi_agents.Prelude.{
  ℕ, suc, String, Bool, true, false, List, [], ◌∷◌, ◌++◌, Option, none, some, ◌==◌, ◌=ˢ◌,
  if◌then◌else◌, map, not,
}
use hufi_agents.Js.Text.{Text, units, trim}
use hufi_agents.OrgData.Store.{Reply, ok, err}
use hufi_agents.Credentials.Detect.{Check, loose_plausibility_check}

-- An entry of `connectionState`.
pub record Info : Type 0 where
  pub label : String
  pub connected_at : ℕ
  pub mock : Bool
  pub masked_hint : Option Text

-- The form: the text in its input, whether the eye button shows it, what „Prüfen“ said, the error,
-- and whether a request waits, so that the two buttons are disabled. Each form that is drawn has a
-- number of its own.
pub record Form : Type 0 where
  pub number : ℕ
  pub input : Text
  pub is_readable : Bool
  pub checked : Option Check
  pub error : Option Text
  pub busy : Bool

pub data Panel : Type 0 where
  form : Form → Panel
  connected : Info → Panel

-- The overlay that is open, numbered, for a connector.
pub record Overlay : Type 0 where
  pub number : ℕ
  pub connector : String
  pub label : String
  pub panel : Panel

-- A request to store a secret, which waits for its answer.
pub record Request : Type 0 where
  pub overlay : ℕ
  pub form_number : ℕ
  pub connector : String
  pub label : String

-- `sent` are the secrets that were sent to the backend, and to nobody else.
pub record Dialogs : Type 0 where
  pub connections : List (String × Info)
  pub overlay : Option Overlay
  pub opened : ℕ
  pub drawn : ℕ
  pub waiting : List Request
  pub sent : List Text

abbrev pub no_dialogs : Dialogs
no_dialogs = record {
  connections = [];
  overlay = none;
  opened = 0;
  drawn = 0;
  waiting = [];
  sent = [];
}

abbrev pub get_info : String → List (String × Info) → Option Info
get_info k [] = none
get_info k ((j, i) ∷ l) = if j =ˢ k then some i else get_info k l

abbrev pub without : String → List (String × Info) → List (String × Info)
without k [] = []
without k ((j, i) ∷ l) = if j =ˢ k then without k l else (j, i) ∷ without k l

abbrev or_connector : String → String → String
or_connector label connector = if label =ˢ "" then connector else label

-- `renderConnectForm` draws a form with an empty input.
abbrev pub empty_form : ℕ → Panel
empty_form n = form (record {
  number = n;
  input = [];
  is_readable = false;
  checked = none;
  error = none;
  busy = false;
})

-- `openConnectModal`: an overlay that is open is closed first.
unfoldable pub open_connect_modal : (connector label : String) → Dialogs → Dialogs
open_connect_modal connector label d = if connector =ˢ "" then d else record d {
  opened = suc d.opened;
  drawn = suc d.drawn;
  overlay = some (record {
    number = d.opened;
    connector = connector;
    label = label;
    panel = elim (get_info connector d.connections) [
      | some i ↦ connected i
      | none ↦ empty_form d.drawn
    ];
  });
}

unfoldable pub close_overlay : Dialogs → Dialogs
close_overlay d = record d { overlay = none }

abbrev pub missing_key : Text
missing_key = units "Bitte einen Zugangsschlüssel eingeben."

abbrev pub not_stored : Text
not_stored =
    units "Diese Verbindung kann in dieser Version noch nicht dauerhaft sicher gespeichert werden."

-- Something happens to the overlay, if one is open.
abbrev pub in_overlay : (Overlay → Overlay) → Dialogs → Dialogs
in_overlay f d = elim d.overlay [ none ↦ d | some o ↦ record d { overlay = some (f o) } ]

abbrev pub in_panel : (Panel → Panel) → Overlay → Overlay
in_panel f o = record o { panel = f o.panel }

-- The user types.
abbrev pub edit : Text → Panel → Panel
edit v (form f) = form (record f { input = v })
edit v (connected i) = connected i

unfoldable pub edit_input : Text → Dialogs → Dialogs
edit_input v d = in_overlay (in_panel (edit v)) d

-- The eye button
abbrev pub toggle : Panel → Panel
toggle (form f) = form (record f { is_readable = not f.is_readable })
toggle (connected i) = connected i

unfoldable pub toggle_eye : Dialogs → Dialogs
toggle_eye d = in_overlay (in_panel toggle) d

-- „Prüfen“
abbrev pub check : Panel → Panel
check (form f) =
    if f.busy then form f else form (record f { checked = some (loose_plausibility_check f.input) })
check (connected i) = connected i

unfoldable pub check_input : Dialogs → Dialogs
check_input d = in_overlay (in_panel check) d

abbrev pub send_secret : Overlay → Form → (trimmed : Text) → Dialogs → Dialogs
send_secret o f [] d = record d {
  overlay = some (record o { panel = form (record f { error = some missing_key }) });
}
send_secret o f (_ ∷ _) d = record d {
  overlay = some (record o { panel = form (record f { busy = true; error = none }) });
  waiting =
      record {
        overlay = o.number;
        form_number = f.number;
        connector = o.connector;
        label = o.label;
      }
      ∷ d.waiting;
  sent = f.input ∷ d.sent;
}

abbrev pub submit_form : Overlay → Panel → Dialogs → Dialogs
submit_form o (form f) d = if f.busy then d else send_secret o f (trim f.input) d
submit_form o (connected i) d = d

abbrev pub submit_in : Option Overlay → Dialogs → Dialogs
submit_in none d = d
submit_in (some o) d = submit_form o o.panel d

-- `submit` of the form; while a request waits, its button is disabled.
unfoldable pub submit : Dialogs → Dialogs
submit d = submit_in d.overlay d

-- The card is drawn anew when its overlay is still the one that is open.
abbrev pub redraw : ℕ → Panel → Overlay → Overlay
redraw number p o = if o.number == number then record o { panel = p } else o

-- A refusal is told in the form that asked, where what was typed stays, if that form is still there.
abbrev pub refuse : ℕ → Panel → Panel
refuse n (form f) =
    if f.number == n then form (record f { error = some not_stored; busy = false }) else form f
refuse n (connected i) = connected i

abbrev pub info_of : ℕ → Request → Option Text → Info
info_of now q hint = record {
  label = or_connector q.label q.connector;
  connected_at = now;
  mock = false;
  masked_hint = hint;
}

-- `connectionState.set`
abbrev pub note : Request → Info → Dialogs → Dialogs
note q info d = record d { connections = (q.connector, info) ∷ without q.connector d.connections }

-- The answer to a request: the connection is noted, or the form says that nothing was stored.
unfoldable pub answer_request : (now : ℕ) → Request → Reply (Option Text) → Dialogs → Dialogs
answer_request now q (ok hint) d =
    in_overlay (redraw q.overlay (connected (info_of now q hint))) (note q (info_of now q hint) d)
answer_request now q (err _) d = in_overlay (in_panel (refuse q.form_number)) d

abbrev pub renew : ℕ → Panel → Panel
renew n (form f) = form f
renew n (connected i) = empty_form n

-- `Token ersetzen`, a button of the connected state
unfoldable pub replace : Dialogs → Dialogs
replace d = in_overlay (in_panel (renew d.drawn)) (record d { drawn = suc d.drawn })

-- `Verbindung trennen`: what happens once its request is answered, whatever the answer. The overlay
-- in which it was clicked is drawn anew if it is still open.
unfoldable pub disconnect : (number : ℕ) → (connector : String) → Dialogs → Dialogs
disconnect number connector d =
    in_overlay (redraw number (empty_form d.drawn))
      (record d { connections = without connector d.connections; drawn = suc d.drawn })

abbrev hint_text : Option Text → List Text
hint_text none = []
hint_text (some []) = []
hint_text (some (c ∷ t)) = (c ∷ t) ∷ []

abbrev honest_note : Bool → Text
honest_note true = units "Nur lokale Vorschau — Backend noch nicht verbunden."
honest_note false =
    units
      "Zugang wird in dieser Version noch nicht dauerhaft gespeichert. Hufi kann diese Verbindung noch nicht für Aufgaben nutzen."

-- What `renderConnectedState` shows.
unfoldable pub connected_texts : (connector label : String) → Info → List Text
connected_texts connector label info =
    units (or_connector label connector)
    ∷ (units (or_connector label connector) ++ units ": Verbindung vorbereitet")
    ∷ honest_note info.mock
    ∷ hint_text info.masked_hint
