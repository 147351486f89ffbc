-- ===== src/Work/Evidence.antt =====
-- The evidence of api/static/work.js: its items, how they are loaded (`loadWorkEvidence` of
-- api/static/org-data.js) and ordered, and what is said of their types, agents and teams.
use hufi_agents.Prelude.{
  ℕ, String, Bool, false, ◌&&◌, List, [], ◌∷◌, Option, none, some, leb, ◌==◌, ◌=ˢ◌, if◌then◌else◌,
  select, find, or_else,
}
use hufi_agents.Js.Text.{Text, units}
use hufi_agents.Agents.Names.{humanize_id}
use hufi_agents.OrgData.Types.{Team, Relationship}
use hufi_agents.OrgData.Store.{Reply, ok, err, Store, relationships_for, get_team_by_id}

-- A date, with its local calendar day.
pub record Moment : Type 0 where
  pub millis : ℕ
  pub year : ℕ
  pub month : ℕ
  pub day : ℕ

-- An entry of the answer; `agent_id` is `metadata && metadata.agent_id`.
pub record Evidence : Type 0 where
  pub agent_id : Option String
  pub evidence_type : String
  pub summary : Text
  pub content : Option Text
  pub artifact_ref : Option Text
  pub created_at : Option Moment
  pub redacted_at : Option Moment

-- `{ items, mock }`
pub record Loaded : Type 0 where
  pub items : Option (List Evidence)
  pub mock : Bool

abbrev pub of_agent : String → Evidence → Bool
of_agent id ev = elim ev.agent_id [ none ↦ false | some a ↦ a =ˢ id ]

abbrev null_items : Text
null_items = units "Cannot read properties of null (reading 'filter')"

abbrev filtered : Option String → Option (List Evidence) → Reply Loaded
filtered none items = ok (record { items = items; mock = false })
filtered (some id) none = err null_items
filtered (some id) (some items) =
    ok (record { items = some (select (of_agent id) items); mock = false })

-- An error of the backend counts as an empty answer; an empty body is the value null.
unfoldable pub load_work_evidence : Option String → Reply (Option (List Evidence)) → Reply Loaded
load_work_evidence agent_id (ok items) = filtered agent_id items
load_work_evidence agent_id (err _) = filtered agent_id (some [])

-- `new Date(created_at)` as a number; null is the epoch.
abbrev pub time_of : Evidence → ℕ
time_of ev = elim ev.created_at [ none ↦ 0 | some m ↦ m.millis ]

abbrev pub insert_newest : Evidence → List Evidence → List Evidence
insert_newest x [] = x ∷ []
insert_newest x (y ∷ ys) =
    if leb (time_of y) (time_of x) then x ∷ y ∷ ys else y ∷ insert_newest x ys

-- `items.slice().sort((a, b) => new Date(b.created_at) - new Date(a.created_at))`, which is stable
unfoldable pub newest_first : List Evidence → List Evidence
newest_first [] = []
newest_first (x ∷ xs) = insert_newest x (newest_first xs)

unfoldable pub is_today : Moment → Option Moment → Bool
is_today now none = false
is_today now (some d) = d.year == now.year && d.month == now.month && d.day == now.day

pub record TypeInfo : Type 0 where
  pub verb : String
  pub singular_noun : String
  pub plural_noun : String
  pub plural_verb : String

abbrev info_of : String → String → String → String → TypeInfo
info_of v s p q = record { verb = v; singular_noun = s; plural_noun = p; plural_verb = q }

-- `EVIDENCE_TYPE_INFO[type] || FALLBACK_TYPE_INFO`
unfoldable pub type_info : String → TypeInfo
type_info t =
    if t =ˢ "diff"
    then info_of "Git-Änderung vorbereitet" "Änderung" "Änderungen" "vorbereitet"
    else if t =ˢ "test"
    then info_of "Test ausgeführt" "Test" "Tests" "ausgeführt"
    else if t =ˢ "file"
    then info_of "Datei erstellt" "Datei" "Dateien" "erstellt"
    else if t =ˢ "report"
    then info_of "Bericht erstellt" "Bericht" "Berichte" "erstellt"
    else if t =ˢ "routine_result"
    then info_of "Routine ausgeführt" "Routine" "Routinen" "ausgeführt"
    else info_of "Aktivität durchgeführt" "Aufgabe" "Aufgaben" "erledigt"

-- An agent that is found has the identifier that was asked for, so the lookup changes nothing.
unfoldable pub agent_name : Option String → Text
agent_name none = units "Unbekannter Agent"
agent_name (some id) = humanize_id (units id)

abbrev first_membership : List Relationship → Option Relationship
first_membership [] = none
first_membership (r ∷ rs) = some (or_else (find (λ x. x.primary) (r ∷ rs)) r)

abbrev team_end : Relationship → Option String
team_end r =
    if r.source_type =ˢ "team"
    then some r.source_id
    else if r.target_type =ˢ "team"
    then some r.target_id
    else none

abbrev team_of : Store → Relationship → Option Team
team_of s r = elim (team_end r) [ none ↦ none | some id ↦ get_team_by_id s id ]

unfoldable pub agent_team : Store → Option String → Option Team
unfolding relationships_for get_team_by_id
agent_team s none = none
agent_team s (some id) =
    elim (first_membership
      (select (λ r. r.relationship_type =ˢ "member_of_team") (relationships_for "agent" id s))) [
        | none ↦ none
        | some r ↦ team_of s r
      ]
