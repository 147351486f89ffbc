-- ===== src/Chat/Mission.antt =====
-- Following a mission in api/static/chat.js: `statusLine`, `progressChecklistHtml`, the ticks of
-- `trackMission`, which overlap, and `ensureApprovalCard`.
pub mod Approval
pub mod Tracker
pub mod Result
use hufi_agents.Prelude.{
  ℕ, String, Bool, true, false, ◌||◌, List, [], ◌∷◌, ◌++◌, Option, none, some, ◌==◌, ◌=ˢ◌,
  if◌then◌else◌, ltb, length, any, select,
}
use hufi_agents.Js.Text.{Text, units, decimal}

pub record Mission : Type 0 where
  pub status : String
  pub result : Text

pub record Task : Type 0 where
  pub id : String
  pub status : String

-- `list.includes(x)`
abbrev pub one_of : List String → String → Bool
one_of l x = any (λ y. y =ˢ x) l

-- `TERMINAL_STATUSES.includes(status)`
abbrev pub is_terminal : String → Bool
is_terminal s = one_of ("completed" ∷ "failed" ∷ "cancelled" ∷ []) s

abbrev agents_text : ℕ → Text
agents_text n = decimal n ++ units " Agenten arbeiten daran …"

unfoldable pub status_line : String → ℕ → Text
status_line status task_count =
    if status =ˢ "queued"
    then units "Wird eingeplant …"
    else if status =ˢ "planning"
    then units "Hufi plant die nächsten Schritte …"
    else if status =ˢ "running"
    then if ltb 1 task_count
      then agents_text task_count
      else if task_count == 1
      then units "Ein Agent arbeitet daran …"
      else units "Hufi arbeitet daran …"
    else if status =ˢ "retrying"
    then units "Ein Schritt wird noch einmal versucht …"
    else if status =ˢ "review"
    then units "Hufi prüft das Ergebnis …"
    else if status =ˢ "blocked"
    then units "Kommt gerade nicht weiter — Hufi sucht einen anderen Weg …"
    else if status =ˢ "waiting_approval"
    then units "Wartet auf deine Freigabe …"
    else []

pub data StepState : Type 0 where
  done current pending : StepState

-- What `progressEl` shows.
pub data Progress : Type 0 where
  blank : Progress
  line : Text → Progress
  checklist : List (Text × StepState) → Progress

abbrev active_count : List Task → ℕ
active_count tasks =
    length
      (select (λ t. one_of ("planning" ∷ "running" ∷ "retrying" ∷ "review" ∷ []) t.status) tasks)

abbrev work_label : ℕ → Text
work_label n =
    if ltb 1 n
    then decimal n ++ units " Agenten arbeiten daran"
    else if n == 1
    then units "Ein Agent arbeitet daran"
    else units "Aufgaben sind eingeplant"

unfoldable pub progress_checklist : List Task → String → Progress
progress_checklist tasks status = checklist (
    (units "Auftrag angenommen", done)
    ∷ (work_label (active_count tasks), if status =ˢ "review" then done else current)
    ∷ (units "Ergebnis wird geprüft", if status =ˢ "review" then current else pending)
    ∷ [])
