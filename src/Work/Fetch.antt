-- ===== src/Work/Fetch.antt =====
-- The state of the view `arbeit` in api/static/work.js and its operations: `fetchEvidence`, whose
-- requests overlap, the mode and filter controls, `onShow` and `openForAgent`.
use hufi_agents.Prelude.{
  ℕ, suc, String, Bool, true, false, List, [], ◌∷◌, Option, none, some, or_else, ◌==◌,
  if◌then◌else◌,
}
use hufi_agents.Js.Text.{Text, units}
use hufi_agents.OrgData.Store.{Reply, ok, err}
use hufi_agents.Work.Evidence.{Evidence, Loaded, newest_first, load_work_evidence}
use hufi_agents.Work.Cards.{Mode, load_mode}

-- The module's variables. `sent` are the requests that are not settled, latest first, each with its
-- token and the agent that it asks for.
pub record View : Type 0 where
  pub mounted : Bool
  pub mode : Mode
  pub agent_filter : Option String
  pub evidence_items : List Evidence
  pub evidence_mock : Bool
  pub loading : Bool
  pub load_error : Option Text
  pub request_token : ℕ
  pub sent : List (ℕ × Option String)

unfoldable pub initial : (stored : Option String) → View
initial stored = record {
  mounted = false;
  mode = load_mode stored;
  agent_filter = none;
  evidence_items = [];
  evidence_mock = false;
  loading = false;
  load_error = none;
  request_token = 0;
  sent = [];
}

-- `fetchEvidence` up to its `await`
unfoldable pub begin_fetch : View → View
begin_fetch v = record v {
  request_token = suc v.request_token;
  loading = true;
  load_error = none;
  sent = (suc v.request_token, v.agent_filter) ∷ v.sent;
}

abbrev or_unknown : Text → Text
or_unknown [] = units "Unbekannter Fehler."
or_unknown (c ∷ m) = c ∷ m

-- What the newest request's answer does.
abbrev pub show_answer : Reply Loaded → View → View
show_answer (ok res) v = record v {
  evidence_items = newest_first (or_else res.items []);
  evidence_mock = res.mock;
  loading = false;
}
show_answer (err message) v = record v {
  load_error = some (or_unknown message);
  evidence_items = [];
  evidence_mock = false;
  loading = false;
}

-- `fetchEvidence` after its `await`: an answer to a superseded request is dropped.
unfoldable pub end_fetch : (token : ℕ) → Reply Loaded → View → View
end_fetch token reply v = if token == v.request_token then show_answer reply v else v

abbrev pub find_sent : ℕ → List (ℕ × Option String) → Option (Option String)
find_sent t [] = none
find_sent t ((u, q) ∷ l) = if t == u then some q else find_sent t l

abbrev pub settle_sent : ℕ → List (ℕ × Option String) → List (ℕ × Option String)
settle_sent t [] = []
settle_sent t ((u, q) ∷ l) = if t == u then l else (u, q) ∷ settle_sent t l

-- The answer of the backend to the request with that token, when it waits for one.
unfoldable pub answer : (token : ℕ) → Reply (Option (List Evidence)) → View → View
answer token body v = elim (find_sent token v.sent) [
  | none ↦ v
  | some q ↦
      end_fetch token (load_work_evidence q body) (record v { sent = settle_sent token v.sent })
]

-- A click on a mode: the same mode again changes nothing, and neither does storing it again.
unfoldable pub pick_mode : Mode → View → View
pick_mode m v = record v { mode = m }

unfoldable pub clear_filter : View → View
clear_filter v = begin_fetch (record v { agent_filter = none })

unfoldable pub on_show : View → View
on_show v = begin_fetch (record v { mounted = true })

-- `active`: the view is the current one, so that showing it does nothing.
unfoldable pub open_for_agent : (active : Bool) → Option String → View → View
open_for_agent active agent_id v =
    let filtered = record v { agent_filter = agent_id } in
    let shown = if active then filtered else on_show filtered in
    if v.mounted then begin_fetch shown else shown

-- What happens to the view. `active` is told by the shell, and only a mounted view can be active.
pub data Event : Type 0 where
  refresh : Event
  answered : (token : ℕ) → (body : Reply (Option (List Evidence))) → Event
  picked : (mode : Mode) → Event
  cleared : Event
  shown : Event
  opened : (active : Bool) → (agent_id : Option String) → Event

unfoldable pub after : View → Event → View
after v refresh = begin_fetch v
after v (answered token body) = answer token body v
after v (picked m) = pick_mode m v
after v cleared = clear_filter v
after v shown = on_show v
after v (opened active agent_id) = open_for_agent active agent_id v

unfoldable pub run : View → List Event → View
run v [] = v
run v (e ∷ es) = run (after v e) es
