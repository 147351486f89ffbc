-- ===== src/Chat/Mission/Tracker.antt =====
-- The poller of `trackMission` in api/static/chat.js. A tick is cut at its awaits: it is started by
-- the timer and goes on when an answer arrives, and ticks may overlap.
pub mod Results
pub mod Cards
use hufi_agents.Prelude.{
  ◌≡◌, String, Bool, true, false, ◌||◌, not, List, [], ◌∷◌, ◌++◌, Option, none, some, ◌=ˢ◌,
  if◌then◌else◌, length,
}
use hufi_agents.Js.Text.{Text, units}
use hufi_agents.OrgData.Store.{Reply, ok, err}
use hufi_agents.Chat.Mission.{
  Mission, Task, Progress, blank, line, status_line, progress_checklist, is_terminal, one_of,
}
use hufi_agents.Chat.Mission.Approval.{Approval, by_task, by_call, pending_calls}

-- What a tick waits for.
pub data Waiting : Type 0 where
  mission : Waiting
  approvals : List Task → Waiting
  tool_calls : List Approval → Waiting

-- The variables of `trackMission` and what its slots show; `ticking` says that the timer is set.
pub record Tracker : Type 0 where
  pub stopped : Bool
  pub ticking : Bool
  pub progress : Progress
  pub rendered : Bool
  pub cards : List Approval
  pub results : List Mission
  pub waiting : List Waiting

-- `trackMission`: one tick at once, then the timer.
unfoldable pub track_mission : Tracker
track_mission = record {
  stopped = false;
  ticking = true;
  progress = blank;
  rendered = false;
  cards = [];
  results = [];
  waiting = mission ∷ [];
}

unfoldable pub start_tick : Tracker → Tracker
start_tick t = if t.stopped || not t.ticking then t else record t { waiting = mission ∷ t.waiting }

-- `renderApprovalCard` appends a card to the slot.
unfoldable pub show_card : Approval → Tracker → Tracker
show_card a t = record t { rendered = true; cards = t.cards ++ a ∷ [] }

-- `ensureApprovalCard` up to its first `await`
unfoldable pub ensure_card : List Task → Tracker → Tracker
ensure_card tasks t = if t.rendered then t else record t { waiting = approvals tasks ∷ t.waiting }

-- The answers to the three requests of a tick.
pub record Snapshot : Type 0 where
  pub mission : Mission
  pub tasks : List Task

abbrev finish_mission : Mission → Tracker → Tracker
finish_mission m t = record t {
  stopped = true;
  ticking = false;
  progress = blank;
  results = t.results ++ m ∷ [];
}

abbrev pub show_line : Snapshot → Tracker → Tracker
show_line s t = record t { progress = line (status_line s.mission.status (length s.tasks)) }

unfoldable pub snapshot_arrives : Reply Snapshot → Tracker → Tracker
unfolding ensure_card
snapshot_arrives (err _) t = t
snapshot_arrives (ok s) t =
    if t.stopped
    then t
    else if s.mission.status =ˢ "waiting_approval"
    then ensure_card s.tasks (show_line s t)
    else if one_of ("blocked" ∷ "retrying" ∷ []) s.mission.status
    then show_line s t
    else if is_terminal s.mission.status
    then finish_mission s.mission t
    else record t { progress = progress_checklist s.tasks s.mission.status }

-- With the approvals, `ensureApprovalCard` shows one, asks for the tool calls, or gives up.
unfoldable pub approvals_arrive : List Task → Reply (List Approval) → Tracker → Tracker
unfolding show_card
approvals_arrive tasks (err _) t = t
approvals_arrive tasks (ok l) t = elim (by_task tasks l) [
  | some a ↦ show_card a t
  | none ↦ elim (pending_calls l) [
    | [] ↦ t
    | _ ∷ _ ↦ record t { waiting = tool_calls l ∷ t.waiting }
  ]
]

unfoldable pub calls_arrive : List Approval → (own_calls : List String) → Tracker → Tracker
unfolding show_card
calls_arrive l own_calls t = elim (by_call own_calls l) [ some a ↦ show_card a t | none ↦ t ]

-- What the backend may answer.
pub data Answer : Type 0 where
  snapshot : Reply Snapshot → Answer
  approval_list : Reply (List Approval) → Answer
  call_ids : List String → Answer

-- A tick goes on when what it waits for arrives.
unfoldable pub resume : Waiting → Answer → Tracker → Tracker
unfolding snapshot_arrives approvals_arrive calls_arrive
resume mission (snapshot r) t = snapshot_arrives r t
resume (approvals tasks) (approval_list r) t = approvals_arrive tasks r t
resume (tool_calls l) (call_ids own_calls) t = calls_arrive l own_calls t
resume _ _ t = t

-- One step: the timer fires, or any one of the ticks that wait goes on.
pub data Step (t : Tracker) : Tracker → Type 0 where
  timer : Step t (start_tick t)
  arrives :
      (before rest : List Waiting) (w : Waiting) (answer : Answer)
      → t.waiting ≡ before ++ w ∷ rest
      → Step t (resume w answer (record t { waiting = before ++ rest }))

pub data Reachable : Tracker → Type 0 where
  begin : Reachable track_mission
  step : {t u : Tracker} → Reachable t → Step t u → Reachable u
