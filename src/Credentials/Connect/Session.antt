-- ===== src/Credentials/Connect/Session.antt =====
-- Sessions of the dialogs of api/static/credentials.js.
use hufi_agents.Prelude.{ℕ, zero, suc, String, List, [], ◌∷◌, Option, none, some}
use hufi_agents.Js.Text.{Text}
use hufi_agents.OrgData.Store.{Reply}
use hufi_agents.Credentials.Connect.{
  Request, Dialogs, open_connect_modal, close_overlay, edit_input, toggle_eye, check_input, submit,
  answer_request, replace, disconnect,
}

-- What happens to the dialogs. An answer comes for the request at its place among those that wait.
pub data Event : Type 0 where
  opens : (connector label : String) → Event
  types : Text → Event
  closes replaces toggles checks submits : Event
  disconnects : (number : ℕ) → (connector : String) → Event
  answered : (now : ℕ) → (place : ℕ) → Reply (Option Text) → Event

abbrev pub split_at : ℕ → List Request → Option (Request × List Request)
split_at n [] = none
split_at zero (q ∷ l) = some (q, l)
split_at (suc n) (q ∷ l) = elim (split_at n l) [ none ↦ none | some (r, m) ↦ some (r, q ∷ m) ]

unfoldable pub after : Event → Dialogs → Dialogs
after (opens connector label) d = open_connect_modal connector label d
after (types v) d = edit_input v d
after closes d = close_overlay d
after replaces d = replace d
after toggles d = toggle_eye d
after checks d = check_input d
after submits d = submit d
after (disconnects number connector) d = disconnect number connector d
after (answered now place reply) d = elim (split_at place d.waiting) [
  | none ↦ d
  | some (q, l) ↦ answer_request now q reply (record d { waiting = l })
]

unfoldable pub run : List Event → Dialogs → Dialogs
run [] d = d
run (e ∷ es) d = run es (after e d)
